-- ===== src/Payload/Commit.antt =====
-- What a committed session has sent: lib/lua-interface.ts, configureGateways.
use clusterio_surface_export.Prelude.{
  ℕ, zero, suc, ◌+◌, ◌≡◌, refl, Bool, true, false, Option, none, some, List, [], ◌∷◌, ◌++◌, arith,
  Bool-cases, Option-cases, inl, inr, length, any, leb,
}
use clusterio_surface_export.Payload.{
  Units, to_ascii_json, Wrapped, bracket_wrap, wrap_from, has_part, closing, chunkify,
}
use clusterio_surface_export.Payload.Chunks.{join_units, join-chunkify}
use clusterio_surface_export.Payload.Session.{
  Command, configure, begin, chunk, commit, Session, is_ok, call_last, send_chunks, send_in_chunks,
  gateway_config_single_limit, single_or_chunks, wrap_active, configure_gateways,
  gateway_config_chunk_size,
}

-- The texts of the chunks among the commands, in order.
abbrev pub sent_texts : List Command → Units
sent_texts [] = []
sent_texts (chunk token i w ∷ cs) = w.body ++ sent_texts cs
sent_texts (configure w a ∷ cs) = sent_texts cs
sent_texts (begin token n sum ∷ cs) = sent_texts cs
sent_texts (commit token a ∷ cs) = sent_texts cs

abbrev pub is_commit : Command → Bool
is_commit (commit token a) = true
is_commit (configure w a) = false
is_commit (begin token n sum) = false
is_commit (chunk token i w) = false

wrap_from-body :
    (fuel level : ℕ) (text : Units) (w : Wrapped)
    → wrap_from fuel level text ≡ some w
    → w.body ≡ text
wrap_from-body zero level text w e = ground (arith, e)
wrap_from-body (suc fuel) level text w e =
    elim (Bool-cases (has_part (closing level) (text ++ 93 ∷ []))) [
      | inl unsafe ↦ ground (arith, unsafe, e, wrap_from-body fuel (level + 1) text w)
      | inr safe ↦ ground (arith, safe, e)
    ]

bracket_wrap-body : (text : Units) (w : Wrapped) → bracket_wrap text ≡ some w → w.body ≡ text
unfolding bracket_wrap
bracket_wrap-body text w e = wrap_from-body 9 1 text w e

sent_texts-send_chunks :
    (s : Session) (n i : ℕ) (cs : List Units) (active : Option Wrapped) (bytes : ℕ)
    → any is_commit (send_chunks s n i cs active bytes).0 ≡ true
    → sent_texts (send_chunks s n i cs active bytes).0 ≡ join_units cs
unfolding send_chunks call_last
sent_texts-send_chunks s n i [] active bytes h = elim (Bool-cases (is_ok (s.reply n))) [
  | inl good ↦ rw good refl
  | inr bad ↦ rw bad refl
]
sent_texts-send_chunks s n i (c ∷ cs) active bytes h =
    let rest = send_chunks s (n + 1) (i + 1) cs active bytes in
    let tail = sent_texts-send_chunks s (n + 1) (i + 1) cs active bytes in
    elim (Option-cases (bracket_wrap c)) [
      | inl unsafe ↦ ground (arith, unsafe, h)
      | inr (w, wrapped) ↦
          let body = bracket_wrap-body c w wrapped in
          elim (Bool-cases (is_ok (s.reply n))) [
            | inr bad ↦ ground (arith, wrapped, bad, h)
            | inl good ↦ ground (arith, wrapped, good, h, body, tail)
          ]
    ]

sent_texts-send_in_chunks :
    (s : Session) (ascii : Units) (active : Option Wrapped)
    → any is_commit (send_in_chunks s ascii active).0 ≡ true
    → sent_texts (send_in_chunks s ascii active).0 ≡ ascii
unfolding send_in_chunks
sent_texts-send_in_chunks s ascii active h =
    let chunks = chunkify gateway_config_chunk_size ascii in
    let all = (join-chunkify gateway_config_chunk_size ascii (omega arith)).0 in
    elim (Bool-cases (is_ok (s.reply 0))) [
      | inr bad ↦ ground (arith, bad, h)
      | inl good ↦
          ground (arith, good, h, all, sent_texts-send_chunks s 1 1 chunks active (length ascii))
    ]

sent_texts-single_or_chunks :
    (s : Session) (ascii : Units) (active w : Option Wrapped)
    → any is_commit (single_or_chunks s ascii active w).0 ≡ true
    → sent_texts (single_or_chunks s ascii active w).0 ≡ ascii
unfolding single_or_chunks call_last
sent_texts-single_or_chunks s ascii active none h = ground (arith, h)
sent_texts-single_or_chunks s ascii active (some w) h =
    elim (Bool-cases (leb (s.single_bytes w active) gateway_config_single_limit)) [
      | inr long ↦ ground (arith, long, h, sent_texts-send_in_chunks s ascii active)
      | inl short ↦ elim (Bool-cases (is_ok (s.reply 0))) [
        | inl good ↦ ground (arith, short, good, h)
        | inr bad ↦ ground (arith, short, bad, h)
      ]
    ]

sent_texts-wrap_active :
    (s : Session) (ascii : Units) (active : Option Units)
    → any is_commit (wrap_active s ascii active).0 ≡ true
    → sent_texts (wrap_active s ascii active).0 ≡ ascii
unfolding wrap_active
sent_texts-wrap_active s ascii none h =
    sent_texts-single_or_chunks s ascii none (bracket_wrap ascii) h
sent_texts-wrap_active s ascii (some active) h =
    let a = bracket_wrap (to_ascii_json active) in
    let run = sent_texts-single_or_chunks s ascii a (bracket_wrap ascii) in
    elim (Option-cases a) [
      | inl unsafe ↦ ground (arith, unsafe, h)
      | inr (w, wrapped) ↦ ground (arith, wrapped, h, run)
    ]

-- Whenever a commit is sent, the texts of the chunks sent before it are the whole ASCII text of the
-- settings, whatever the replies.
pub sent_texts-configure_gateways :
    (s : Session) (json : Units) (active : Option Units)
    → any is_commit (configure_gateways s json active).0 ≡ true
    → sent_texts (configure_gateways s json active).0 ≡ to_ascii_json json
unfolding configure_gateways
sent_texts-configure_gateways s json active h =
    sent_texts-wrap_active s (to_ascii_json json) active h
