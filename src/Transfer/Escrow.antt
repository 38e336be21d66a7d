-- ===== src/Transfer/Escrow.antt =====
-- Every sequence of verdicts and timeouts against an abstract view of the transfers:
-- lib/transfer-orchestrator.ts, handleTransferValidation and the callback of
-- scheduleValidationTimeout. The view forgets the records: what is left of a transfer that awaits
-- its verdict are the two commands between which the verdict decides.
mod Tests
use clusterio_surface_export.Prelude.{
  ℕ, String, ◌≤◌, ◌≡◌, refl, sym, ap, subst, fun_ext, ◌∙◌, arith, Bool, true, false, Option, none,
  some, List, [], ◌∷◌, ◌++◌, length, ◌⊎◌, inl, inr, Bool-cases, string_eq, ◌==◌, if◌then◌else◌,
}
use mathlib.Core.List.{append_assoc}
use clusterio_surface_export.Prelude.Int.{ℤ}
use clusterio_surface_export.JsMap.{get, set, get-set, KeysOnce, set-KeysOnce}
use clusterio_surface_export.Transfer.{ActiveTransfer, ValidationEvent}
use clusterio_surface_export.Transfer.World.{World, Env, Message, log, validation_timeout}
use clusterio_surface_export.Transfer.Verdict.{is_awaiting_validation, handle_transfer_validation}
use clusterio_surface_export.Transfer.Verdict.Commands.{
  commands, delete_command, unlock_command, verdict_commands, commands-handle_transfer_validation,
}
use clusterio_surface_export.Transfer.Verdict.Retained.{started_since}
use clusterio_surface_export.Transfer.Verdict.Written.{UpToPruning, started_since-set}
use clusterio_surface_export.Transfer.Verdict.Pruned.{
  prune_old_transfers-IsKept, choice_of-prune_old_transfers,
}
use clusterio_surface_export.Transfer.Verdict.Closes.{
  Choice, choice_of, IsKept, Closes, handle-Closes,
}
use clusterio_surface_export.Transfer.Timeout.{
  timeout_verdict, fire, on_validation_timeout, timeout_commands, commands-on_validation_timeout,
}

-- What may come for a transfer: a verdict, or its timer after some milliseconds.
pub data Settling : Type 0 where
  verdict : ValidationEvent → Settling
  timer : String → ℕ → Settling

abbrev pub handle : Env → Settling → World → World
handle v (verdict ev) w = handle_transfer_validation v ev w
handle v (timer id ms) w = on_validation_timeout v id ms w

abbrev pub handle_all : Env → List Settling → World → World
handle_all v [] w = w
handle_all v (e ∷ es) w = handle_all v es (handle v e w)

-- The transfers that await a verdict, by their ids.
abbrev pub Escrow : Type 0
Escrow = String → Option Choice

abbrev transfer_of : Settling → String
transfer_of (verdict ev) = ev.transfer_id
transfer_of (timer id ms) = id

abbrev is_success : Settling → Bool
is_success (verdict ev) = ev.success
is_success (timer id ms) = false

abbrev released : Bool → Option Choice → List (ℤ × Message)
released good none = []
released good (some c) = (if good then c.on_success else c.on_failure) ∷ []

-- What comes first for a transfer closes it.
abbrev closed : String → Escrow → Escrow
closed id m j = if id == j then none else m j

abbrev pub replay : List Settling → Escrow → Escrow
replay [] m = m
replay (e ∷ es) m = replay es (closed (transfer_of e) m)

-- The commands of a run, newest first.
abbrev pub orders : List Settling → Escrow → List (ℤ × Message)
orders [] m = []
orders (e ∷ es) m =
    orders es (closed (transfer_of e) m) ++ released (is_success e) (m (transfer_of e))

abbrev pub escrow_of : World → Escrow
escrow_of w id = choice_of (get id w.transfers)

closed-idle :
    (id j : String) (w : World) → escrow_of w id ≡ none → escrow_of w j ≡ closed id (escrow_of w) j
closed-idle id j w idle =
    let pick : Bool → Option Choice = λ b. if b then none else escrow_of w j in
    elim (Bool-cases (id == j)) [
      | inl same ↦
          subst (λ k. escrow_of w k ≡ none) ((string_eq.same_iff id j).0 same) idle
          ∙ sym (ap pick same)
      | inr differs ↦ sym (ap pick differs)
    ]

choice_of-written :
    (b : Bool) (t : ActiveTransfer) (o : Option ActiveTransfer)
    → is_awaiting_validation t.status ≡ false
    → choice_of (if b then some t else o) ≡ (if b then none else choice_of o)
choice_of-written true t o settled = ground (arith, settled)
choice_of-written false t o settled = refl

Closes-escrow_of :
    (id : String) (w u : World) → Closes id w u → escrow_of u ≡ closed id (escrow_of w)
Closes-escrow_of id w u (inl (same, idle)) =
    fun_ext λ j. ap (λ m. choice_of (get j m)) same ∙ closed-idle id j w idle
Closes-escrow_of id w u (inr (t, written, own, settled, x, found, start)) = fun_ext λ j.
    ap (λ m. choice_of (get j m)) written
    ∙ ap choice_of (get-set id j t w.transfers)
    ∙ choice_of-written (id == j) t (get j w.transfers) settled

module _ (id : String) (t : ActiveTransfer) (w : World) (kept : IsKept w) where
  own_id-written :
      (j : String) (t' : ActiveTransfer)
      → t.transfer_id ≡ id
      → (if id == j then some t else get j w.transfers) ≡ some t'
      → t'.transfer_id ≡ j
  own_id-written j t' own h = elim (Bool-cases (id == j)) [
    | inl same ↦
        let new : t ≡ t' = ground (arith, h, same) in
        ap (λ r. r.transfer_id) (sym new) ∙ own ∙ (string_eq.same_iff id j).0 same
    | inr differs ↦ kept.own_id j t' (ground (arith, h, differs))
  ]

  stays-written :
      (j : String) (t' : ActiveTransfer)
      → is_awaiting_validation t.status ≡ false
      → (if id == j then some t else get j w.transfers) ≡ some t'
      → is_awaiting_validation t'.status ≡ true
      → started_since t'.started_at w.transfers ≤ 100
  stays-written j t' settled h waits = elim (Bool-cases (id == j)) [
    | inl same ↦
        let new : t ≡ t' = ground (arith, h, same) in
        let never : ⊥ =
          ground (arith, settled, waits, ap (λ r. is_awaiting_validation r.status) new) in
        absurd never
    | inr differs ↦ kept.stays j t' (ground (arith, h, differs)) waits
  ]

Closes-IsKept : (id : String) (w u : World) → Closes id w u → IsKept w → IsKept u
Closes-IsKept id w u (inl (same, idle)) kept = record {
  own_id = λ j t h. kept.own_id j t (ap (get j) (sym same) ∙ h);
  once = subst KeysOnce (sym same) kept.once;
  stays = λ j t h waits. omega (
    arith,
    kept.stays j t (ap (get j) (sym same) ∙ h) waits,
    ap (started_since t.started_at) same,
  );
}
Closes-IsKept id w u (inr (t, written, own, settled, x, found, start)) kept =
    let read : (j : String) (t' : ActiveTransfer)
        → get j u.transfers ≡ some t'
        → (if id == j then some t else get j w.transfers) ≡ some t' =
      λ j t' h. sym (get-set id j t w.transfers) ∙ ap (get j) (sym written) ∙ h in
    record {
      own_id = λ j t' h. own_id-written id t w kept j t' own (read j t' h);
      once = subst KeysOnce (sym written) (set-KeysOnce id t w.transfers kept.once);
      stays = λ j t' h waits. omega (
        arith,
        stays-written id t w kept j t' settled (read j t' h) waits,
        ap (started_since t'.started_at) written,
        started_since-set t'.started_at id x t w.transfers found start,
      );
    }

UpToPruning-IsKept : (id : String) (w u : World) → UpToPruning (Closes id w) u → IsKept w → IsKept u
UpToPruning-IsKept id w u (u', closes, inl same) kept =
    subst IsKept (sym same) (Closes-IsKept id w u' closes kept)
UpToPruning-IsKept id w u (u', closes, inr pruned) kept =
    subst IsKept (sym pruned) (prune_old_transfers-IsKept u' (Closes-IsKept id w u' closes kept))

escrow_of-UpToPruning :
    (id : String) (w u : World)
    → UpToPruning (Closes id w) u
    → IsKept w
    → escrow_of u ≡ closed id (escrow_of w)
escrow_of-UpToPruning id w u (u', closes, inl same) kept =
    ap escrow_of same ∙ Closes-escrow_of id w u' closes
escrow_of-UpToPruning id w u (u', closes, inr pruned) kept =
    ap escrow_of pruned
    ∙ (fun_ext λ j. choice_of-prune_old_transfers j u' (Closes-IsKept id w u' closes kept))
    ∙ Closes-escrow_of id w u' closes

fire-Closes :
    (v : Env) (id : String) (ms : ℕ) (w : World) (o : Option ActiveTransfer)
    → get id w.transfers ≡ o
    → IsKept w
    → UpToPruning (Closes id w) (fire v id ms o w)
fire-Closes v id ms w none found kept =
    (fire v id ms none w, inl (refl, ap choice_of found), inl refl)
fire-Closes v id ms w (some t) found kept =
    let u = log id validation_timeout w in
    let kept' : IsKept u = record { own_id = kept.own_id; once = kept.once; stays = kept.stays } in
    let idle : is_awaiting_validation t.status ≡ false → choice_of (get id w.transfers) ≡ none =
      λ settled. ap choice_of found ∙ choice_of-written true t none settled in
    elim (Bool-cases (is_awaiting_validation t.status)) [
      | inl waits ↦ rw waits (handle-Closes v (timeout_verdict v.number id ms) u kept')
      | inr settled ↦ rw settled (_, inl (refl, idle settled), inl refl)
    ]

step-Closes :
    (v : Env) (e : Settling) (w : World)
    → IsKept w
    → UpToPruning (Closes (transfer_of e) w) (handle v e w)
unfolding on_validation_timeout
step-Closes v (verdict ev) w kept = handle-Closes v ev w kept
step-Closes v (timer id ms) w kept = fire-Closes v id ms w (get id w.transfers) refl kept

verdict_commands-released :
    (ev : ValidationEvent) (o : Option ActiveTransfer)
    → verdict_commands ev o ≡ released ev.success (choice_of o)
verdict_commands-released ev none = refl
verdict_commands-released ev (some t) = ground arith

timeout_commands-released :
    (o : Option ActiveTransfer) → timeout_commands o ≡ released false (choice_of o)
timeout_commands-released none = refl
timeout_commands-released (some t) = ground arith

commands-step :
    (v : Env) (e : Settling) (w : World)
    → commands (handle v e w).trace
      ≡ released (is_success e) (escrow_of w (transfer_of e)) ++ commands w.trace
commands-step v (verdict ev) w =
    commands-handle_transfer_validation v ev w
    ∙ ap (λ l. l ++ commands w.trace)
        (verdict_commands-released ev (get ev.transfer_id w.transfers))
commands-step v (timer id ms) w =
    commands-on_validation_timeout v id ms w
    ∙ ap (λ l. l ++ commands w.trace) (timeout_commands-released (get id w.transfers))

-- Any sequence of verdicts and timeouts does what the abstract view does: of a transfer that awaits its
-- verdict the first to come sends its one command, the deletion of the source on a success and its
-- unlock on a failure or timeout, and all that comes later for it sends none; and the transfers that
-- still await one are those of the view. Old records may be pruned meanwhile. The conditions at the start:
-- ids are keys of one record each, which has that id; and of all records at most a hundred, itself among
-- them, started when one that awaits its verdict did or later.
pub handle_all_refines :
    (v : Env) (es : List Settling) (w : World)
    → IsKept w
    → (escrow_of (handle_all v es w) ≡ replay es (escrow_of w))
      × (commands (handle_all v es w).trace ≡ orders es (escrow_of w) ++ commands w.trace)
handle_all_refines v [] w kept = (refl, refl)
handle_all_refines v (e ∷ es) w kept =
    let w' = handle v e w in
    let closes = step-Closes v e w kept in
    let view = escrow_of-UpToPruning (transfer_of e) w w' closes kept in
    let rest = handle_all_refines v es w' (UpToPruning-IsKept (transfer_of e) w w' closes kept) in
    let later = orders es (closed (transfer_of e) (escrow_of w)) in
    let now = released (is_success e) (escrow_of w (transfer_of e)) in
    (
      rest.0 ∙ ap (replay es) view,
      rest.1
          ∙ ap (λ m. orders es m ++ commands w'.trace) view
          ∙ ap (λ l. later ++ l) (commands-step v e w)
          ∙ sym (append_assoc later now (commands w.trace)),
    )
