-- ===== src/Transfer/Verdict/Closes.antt =====
-- What a verdict leaves of the records: lib/transfer-orchestrator.ts, handleTransferValidation. At most
-- one record is written anew, and then it awaits no verdict.
use clusterio_surface_export.Prelude.{
  String, ◌≤◌, ◌≡◌, refl, sym, ap, subst, ◌∙◌, arith, true, false, Option, none, some, or_else, ◌⊎◌,
  inl, inr, Bool-cases, Option-cases, string_eq, if◌then◌else◌,
}
use clusterio_surface_export.Prelude.Int.{ℤ}
use clusterio_surface_export.JsMap.{get, set, KeysOnce}
use clusterio_surface_export.Transfer.{ActiveTransfer, ValidationEvent, Status, awaiting_validation}
use clusterio_surface_export.Transfer.World.{World, Env, Message, update_transfer}
use clusterio_surface_export.Transfer.Verdict.{
  is_awaiting_validation, late_change, apply_late, late_verdict, settle, receive,
  handle_transfer_validation,
}
use clusterio_surface_export.Transfer.Verdict.Commands.{delete_command, unlock_command}
use clusterio_surface_export.Transfer.World.{end_phase}
use clusterio_surface_export.Transfer.Verdict.Outcome.{success_settles}
use clusterio_surface_export.Transfer.Verdict.Failure.{failure_settles}
use clusterio_surface_export.Transfer.Verdict.Late.{
  late_record, late_record-status, late_record-transfer_id, late_record-started_at,
}
use clusterio_surface_export.Transfer.Verdict.Retained.{started_since}
use clusterio_surface_export.Transfer.Verdict.Written.{UpToPruning, UpToPruning-map}
use clusterio_surface_export.Transfer.Verdict.Once.{delete_status-settled, failed_status-settled}

-- The commands of a success and of a failure.
pub record Choice : Type 0 where
  pub on_success : ℤ × Message
  pub on_failure : ℤ × Message

abbrev pub choice_of : Option ActiveTransfer → Option Choice
choice_of none = none
choice_of (some t) =
    if is_awaiting_validation t.status
    then some (record { on_success = delete_command t; on_failure = unlock_command t })
    else none

-- Ids are keys of one record each, which has that id; and of all records at most a hundred, itself among
-- them, started when one that awaits its verdict did or later.
pub record IsKept (w : World) : Type 0 where
  pub own_id : (id : String) (t : ActiveTransfer) → get id w.transfers ≡ some t → t.transfer_id ≡ id
  pub once : KeysOnce w.transfers
  pub stays :
      (id : String) (t : ActiveTransfer)
      → get id w.transfers ≡ some t
      → is_awaiting_validation t.status ≡ true
      → started_since t.started_at w.transfers ≤ 100

-- One record is written anew, and awaits no verdict; or none is, and none did.
abbrev pub Closes : String → World → World → Type 0
Closes id w u =
    ((u.transfers ≡ w.transfers) × (choice_of (get id w.transfers) ≡ none))
    ⊎ ((t : ActiveTransfer) × (u.transfers ≡ set id t w.transfers)
        × (t.transfer_id ≡ id)
        × (is_awaiting_validation t.status ≡ false)
        × (x : ActiveTransfer) × (get id w.transfers ≡ some x)
        × (t.started_at ≡ x.started_at))

awaits : (s : Status) → is_awaiting_validation s ≡ true → s ≡ awaiting_validation
awaits awaiting_validation h = refl
awaits _ h = ground (arith, h)

late_status-settled :
    (ev : ValidationEvent) (t : ActiveTransfer)
    → is_awaiting_validation t.status ≡ false
    → is_awaiting_validation (late_record ev t).status ≡ false
late_status-settled ev t h = ap is_awaiting_validation (late_record-status ev t) ∙ ground (arith, h)

apply_late-Closes :
    (ev : ValidationEvent) (t : ActiveTransfer) (w : World) (o : Option ActiveTransfer)
    → late_change ev t ≡ o
    → get t.transfer_id w.transfers ≡ some t
    → is_awaiting_validation t.status ≡ false
    → Closes t.transfer_id w (apply_late o t w)
unfolding update_transfer
apply_late-Closes ev t w none e found settled =
    inl (refl, ap choice_of found ∙ ground (arith, settled))
apply_late-Closes ev t w (some t') e found settled =
    let new : late_record ev t ≡ t' = ap (λ o. or_else o t) e in
    let same : t'.transfer_id ≡ t.transfer_id =
      ap (λ r. r.transfer_id) (sym new) ∙ late_record-transfer_id ev t in
    inr (
      t',
      ap (λ k. set k t' w.transfers) same,
      same,
      ap (λ r. is_awaiting_validation r.status) (sym new) ∙ late_status-settled ev t settled,
      t,
      found,
      ap (λ r. r.started_at) (sym new) ∙ late_record-started_at ev t,
    )

settle-Closes :
    (v : Env) (ev : ValidationEvent) (t : ActiveTransfer) (w : World)
    → IsKept w
    → get ev.transfer_id w.transfers ≡ some t
    → is_awaiting_validation t.status ≡ true
    → UpToPruning (Closes t.transfer_id w) (handle_transfer_validation v ev w)
unfolding end_phase
settle-Closes v ev t w kept found h =
    let same = sym (kept.own_id ev.transfer_id t found) in
    let here = ap (λ k. get k w.transfers) (sym same) ∙ found in
    let waits = awaits t.status h in
    elim (Bool-cases ev.success) [
      | inl good ↦
          UpToPruning-map _ (Closes t.transfer_id w) (handle_transfer_validation v ev w)
            (λ u (t', set', status, pending, storage, rest). inr (
              t',
              set',
              ap (λ r. r.transfer_id) rest,
              ap is_awaiting_validation status ∙ delete_status-settled _,
              t,
              here,
              ap (λ r. r.started_at) rest,
            ))
            (success_settles v ev t w good here same waits)
      | inr bad ↦
          UpToPruning-map _ (Closes t.transfer_id w) (handle_transfer_validation v ev w)
            (λ u (t', set', status, pending, storage, rest). inr (
              t',
              set',
              ap (λ r. r.transfer_id) rest,
              ap is_awaiting_validation status ∙ failed_status-settled _,
              t,
              here,
              ap (λ r. r.started_at) rest,
            ))
            (failure_settles v ev t w bad here same waits)
    ]

late-Closes :
    (v : Env) (ev : ValidationEvent) (t : ActiveTransfer) (w : World)
    → get ev.transfer_id w.transfers ≡ some t
    → t.transfer_id ≡ ev.transfer_id
    → is_awaiting_validation t.status ≡ false
    → Closes t.transfer_id w (handle_transfer_validation v ev w)
unfolding handle_transfer_validation late_verdict
late-Closes v ev t w found same settled =
    let path : handle_transfer_validation v ev w ≡ late_verdict ev t w =
      ap (λ o. receive v ev o w) found
      ∙ ap (λ b. if b then settle v ev t w else late_verdict ev t w) settled in
    subst (Closes t.transfer_id w) (sym path) (
      apply_late-Closes ev t w (late_change ev t) refl (ap (λ k. get k w.transfers) same ∙ found)
        settled)

pub handle-Closes :
    (v : Env) (ev : ValidationEvent) (w : World)
    → IsKept w
    → UpToPruning (Closes ev.transfer_id w) (handle_transfer_validation v ev w)
unfolding handle_transfer_validation
handle-Closes v ev w kept = elim (Option-cases (get ev.transfer_id w.transfers)) [
  | inl lacking ↦
      subst (UpToPruning (Closes ev.transfer_id w)) (sym (ap (λ o. receive v ev o w) lacking))
        (receive v ev none w, inl (refl, ap choice_of lacking), inl refl)
  | inr (t, found) ↦
      let same = kept.own_id ev.transfer_id t found in
      subst (λ k. UpToPruning (Closes k w) (handle_transfer_validation v ev w)) same
        (elim (Bool-cases (is_awaiting_validation t.status)) [
          | inl waits ↦ settle-Closes v ev t w kept found waits
          | inr settled ↦
              (handle_transfer_validation v ev w, late-Closes v ev t w found same settled, inl refl)
        ])
]
