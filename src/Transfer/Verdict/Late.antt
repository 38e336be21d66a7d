-- ===== src/Transfer/Verdict/Late.antt =====
-- A verdict that comes after its transfer settled: lib/transfer-orchestrator.ts, the status guard of
-- handleTransferValidation.
use clusterio_surface_export.Prelude.{
  false, ◌&&◌, ◌||◌, Option, none, some, ◌≡◌, refl, arith, if◌then◌else◌, string_eq, ap, ◌∙◌,
  or_else, sym, subst,
}
use clusterio_surface_export.JsMap.{get, set, get-set_self}
use clusterio_surface_export.Transfer.{ActiveTransfer, ValidationEvent, Status, cleanup_failed}
use clusterio_surface_export.Transfer.World.{World, Env, update_transfer}
use clusterio_surface_export.Transfer.Verdict.{
  is_awaiting_validation, has_failed, reports_cleanup_failed, apply_late, late_change, late_verdict,
  receive, settle, handle_transfer_validation,
}

-- The status after a late verdict: a failed transfer whose destination turns out to hold a copy is
-- marked so; every other status stays.
abbrev pub late_status : ValidationEvent → Status → Status
late_status ev s =
    if has_failed s && (ev.success || reports_cleanup_failed ev.validation)
    then cleanup_failed
    else s

-- The record that a late verdict leaves.
abbrev pub late_record : ValidationEvent → ActiveTransfer → ActiveTransfer
late_record ev t = or_else (late_change ev t) t

pub late_record-status :
    (ev : ValidationEvent) (t : ActiveTransfer)
    → (late_record ev t).status ≡ late_status ev t.status
unfolding late_change
late_record-status ev t = ground arith

pub late_record-transfer_id :
    (ev : ValidationEvent) (t : ActiveTransfer) → (late_record ev t).transfer_id ≡ t.transfer_id
unfolding late_change
late_record-transfer_id ev t = ground arith

pub late_record-started_at :
    (ev : ValidationEvent) (t : ActiveTransfer) → (late_record ev t).started_at ≡ t.started_at
unfolding late_change
late_record-started_at ev t = ground arith

get-apply_late :
    (o : Option ActiveTransfer) (t : ActiveTransfer) (w : World)
    → (or_else o t).transfer_id ≡ t.transfer_id
    → get t.transfer_id w.transfers ≡ some t
    → get t.transfer_id (apply_late o t w).transfers ≡ some (or_else o t)
unfolding update_transfer
get-apply_late none t w k found = found
get-apply_late (some t') t w k found =
    ap (λ i. get i (set t'.transfer_id t' w.transfers)) (sym k)
    ∙ get-set_self t'.transfer_id t' w.transfers

apply_late-keeps :
    (o : Option ActiveTransfer) (t : ActiveTransfer) (w : World)
    → ((apply_late o t w).pending ≡ w.pending) × ((apply_late o t w).storage ≡ w.storage)
unfolding update_transfer
apply_late-keeps none t w = (refl, refl)
apply_late-keeps (some t') t w = (refl, refl)

abbrev pub LateOutcome : ValidationEvent → ActiveTransfer → World → World → Type 0
LateOutcome ev t w w' =
    (t' : ActiveTransfer) × (get t.transfer_id w'.transfers ≡ some t')
    × (t'.status ≡ late_status ev t.status)
    × (w'.pending ≡ w.pending)
    × (w'.storage ≡ w.storage)

-- A verdict for a settled transfer leaves its status, but that a failed transfer becomes
-- cleanup_failed where the verdict is a success or reports that the destination could not discard its copy.
-- Pending intents and stored exports stay. The record stands under its own id.
pub late_outcome :
    (v : Env) (ev : ValidationEvent) (t : ActiveTransfer) (w : World)
    → get t.transfer_id w.transfers ≡ some t
    → ev.transfer_id ≡ t.transfer_id
    → is_awaiting_validation t.status ≡ false
    → LateOutcome ev t w (handle_transfer_validation v ev w)
unfolding handle_transfer_validation late_verdict
late_outcome v ev t w found same settled =
    let path : handle_transfer_validation v ev w ≡ late_verdict ev t w =
      ap (λ o. receive v ev o w) (ap (λ k. get k w.transfers) same ∙ found)
      ∙ ap (λ b. if b then settle v ev t w else late_verdict ev t w) settled in
    let keeps = apply_late-keeps (late_change ev t) t w in
    subst (LateOutcome ev t w) (sym path) (
      late_record ev t,
      get-apply_late (late_change ev t) t w (late_record-transfer_id ev t) found,
      late_record-status ev t,
      keeps.0,
      keeps.1,
    )
