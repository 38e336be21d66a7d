-- ===== src/Payload/Import.antt =====
-- An export on its way to a game instance: helpers.ts, sendChunkedJson. Clusterio's escapeString is
-- a parameter; the Lua call around a chunk is left out.
use clusterio_surface_export.Prelude.{
  ℕ, ◌+◌, ◌≡◌, ◌<◌, refl, sym, ap, ◌∙◌, Bool, true, false, Option, none, some, List, [], ◌∷◌, ◌++◌,
  length, if◌then◌else◌, arith, Bool-cases, inl, inr,
}
use clusterio_surface_export.Payload.{Units, has_part, chunkify}
use clusterio_surface_export.Payload.Chunks.{join_units, join-chunkify}

-- A chunk as it is written: in quotes, escaped, or in plain brackets.
pub data Quoted : Type 0 where
  escaped : Units → Quoted
  bracketed : Units → Quoted

pub record ChunkCall : Type 0 where
  pub text : Quoted
  pub index : ℕ
  pub total : ℕ

-- How a call is answered, with the reply trimmed.
pub data ChunkReply : Type 0 where
  chunk_ok job_queued other_reply : ChunkReply

abbrev is_taken : ChunkReply → Bool
is_taken chunk_ok = true
is_taken job_queued = true
is_taken other_reply = false

abbrev quote_chunk : (Units → Units) → Bool → Units → Quoted
quote_chunk escape needs_escaping c = if needs_escaping then escaped (escape c) else bracketed c

-- The calls that are sent, and the index of the chunk at which the import failed, if any.
abbrev send_each_chunk :
    (Units → Units) → Bool → (ℕ → ChunkReply) → ℕ → ℕ → List Units → List ChunkCall × Option ℕ
send_each_chunk escape needs_escaping reply total i [] = ([], none)
send_each_chunk escape needs_escaping reply total i (c ∷ cs) =
    let rest = send_each_chunk escape needs_escaping reply total (i + 1) cs in
    let call : ChunkCall = record {
      text = quote_chunk escape needs_escaping c;
      index = i;
      total = total;
    } in
    if is_taken (reply i) then (call ∷ rest.0, rest.1) else (call ∷ [], some i)

-- sendChunkedJson
unfoldable pub send_chunked_json :
    (Units → Units) → (ℕ → ChunkReply) → ℕ → Units → List ChunkCall × Option ℕ
unfolding chunkify
send_chunked_json escape reply chunk_size json =
    let chunks = chunkify chunk_size json in
    send_each_chunk escape (has_part (93 ∷ 93 ∷ []) json) reply (length chunks) 1 chunks

-- The text of a chunk that is not escaped; of all calls together.
abbrev plain_chunk : Quoted → Units
plain_chunk (escaped t) = []
plain_chunk (bracketed t) = t

abbrev pub plain_text : List ChunkCall → Units
plain_text [] = []
plain_text (c ∷ cs) = plain_chunk c.text ++ plain_text cs

plain_text-send_each_chunk :
    (escape : Units → Units) (reply : ℕ → ChunkReply) (total i : ℕ) (cs : List Units)
    → (send_each_chunk escape false reply total i cs).1 ≡ none
    → plain_text (send_each_chunk escape false reply total i cs).0 ≡ join_units cs
plain_text-send_each_chunk escape reply total i [] h = refl
plain_text-send_each_chunk escape reply total i (c ∷ cs) h =
    let tail = plain_text-send_each_chunk escape reply total (i + 1) cs in
    elim (Bool-cases (is_taken (reply i))) [
      | inr bad ↦ ground (arith, bad, h)
      | inl good ↦ ground (arith, good, h, tail)
    ]

-- Where nothing needs escaping and no chunk is refused, the chunks sent are the whole text.
pub plain_text-send_chunked_json :
    (escape : Units → Units) (reply : ℕ → ChunkReply) (chunk_size : ℕ) (json : Units)
    → 0 < chunk_size
    → has_part (93 ∷ 93 ∷ []) json ≡ false
    → (send_chunked_json escape reply chunk_size json).1 ≡ none
    → plain_text (send_chunked_json escape reply chunk_size json).0 ≡ json
unfolding send_chunked_json
plain_text-send_chunked_json escape reply chunk_size json pos plain done =
    let chunks = chunkify chunk_size json in
    let all = (join-chunkify chunk_size json pos).0 in
    let calls : Bool → List ChunkCall × Option ℕ =
      λ b. send_each_chunk escape b reply (length chunks) 1 chunks in
    ap (λ b. plain_text (calls b).0) plain
    ∙ plain_text-send_each_chunk escape reply (length chunks) 1 chunks
        (ap (λ b. (calls b).1) (sym plain) ∙ done)
    ∙ all
