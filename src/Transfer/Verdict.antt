-- ===== src/Transfer/Verdict.antt =====
-- lib/transfer-orchestrator.ts: handleTransferValidation with its two outcomes, and
-- pruneOldTransfers. A handler runs with no other event for the same transfer between its awaits.
pub mod Commands
pub mod Settle
pub mod Stored
pub mod Outcome
pub mod Failure
pub mod Late
pub mod Once
pub mod Closes
pub mod Pruned
pub mod Retained
pub mod Written
use clusterio_surface_export.Prelude.{
  ℕ, String, ◌+◌, Bool, true, false, not, ◌&&◌, Option, none, some, List, [], ◌∷◌, map, leb, ltb,
  given_or, or_option, or_null, concat, if◌then◌else◌, length, drop, string_eq, or_else,
}
use clusterio_surface_export.Prelude.Sort.{sort_by}
use clusterio_surface_export.JsMap.{JsMap, get, delete}
use clusterio_surface_export.Transfer.{
  Status, awaiting_validation, completed, failed, cleanup_failed, error, ActiveTransfer, Validation,
  ValidationEvent, Stage, join_errors,
}
use clusterio_surface_export.Transfer.World.{
  World, Env, Reply, accepted, rejected, session_lost, send_failed, delete_source, Event,
  validation_received, validation_after_settle, validation_failed, transfer_completed,
  transfer_failed, log_persisted, storage_persisted, tree_broadcast, emit, send, answer, now, log,
  store, update_transfer, broadcast_transfer_status, start_phase, end_phase,
}
use clusterio_surface_export.Transfer.Unlock.{try_unlock_source}

abbrev pub is_awaiting_validation : Status → Bool
is_awaiting_validation awaiting_validation = true
is_awaiting_validation _ = false

abbrev pub has_failed : Status → Bool
has_failed failed = true
has_failed _ = false

abbrev pub reports_cleanup_failed : Option Validation → Bool
reports_cleanup_failed none = false
reports_cleanup_failed (some x) = x.cleanup_has_failed

abbrev pub reports_preserved : Option Validation → Bool
reports_preserved none = false
reports_preserved (some x) = x.destination_preserved

abbrev cleanup_error_of : Option Validation → Option String
cleanup_error_of none = none
cleanup_error_of (some x) = x.cleanup_error

abbrev mismatch_of : Option Validation → Option String
mismatch_of none = none
mismatch_of (some x) = x.mismatch_details

abbrev stage_of : Option Validation → Option Stage
stage_of none = none
stage_of (some x) = x.failed_stage

abbrev max_active_transfers : ℕ
max_active_transfers = 100

-- Newest first, as the comparator b.startedAt - a.startedAt sorts them.
abbrev newer : String × ActiveTransfer → String × ActiveTransfer → Bool
newer (_, a) (_, b) = ltb b.started_at a.started_at

abbrev pub delete_all :
    List (String × ActiveTransfer) → JsMap String ActiveTransfer → JsMap String ActiveTransfer
delete_all [] m = m
delete_all ((k, _) ∷ rest) m = delete_all rest (delete k m)

-- pruneOldTransfers
unfoldable pub prune_old_transfers : World → World
unfolding sort_by
prune_old_transfers w = if leb (length w.transfers) max_active_transfers then w else record w {
  transfers = delete_all (drop max_active_transfers (sort_by newer w.transfers)) w.transfers;
}

-- removePendingTransfer
abbrev remove_pending : String → World → World
remove_pending t w = record w { pending = delete t w.pending }

abbrev late_success_note : String
late_success_note =
    "late import SUCCESS after rollback: the destination holds a live copy — delete one copy before retrying"

abbrev late_failure_note : Option String → String
late_failure_note reason = concat "late FAILURE reported the destination discard itself failed (" (
    concat (given_or reason "no reason given")
      ") — an orphan copy remains on the target; remove it before retrying")

-- What a verdict for a settled transfer changes of its record.
pub late_change : ValidationEvent → ActiveTransfer → Option ActiveTransfer
unfolding join_errors
late_change ev t =
    if ev.success && has_failed t.status
    then some (record t {
      status = cleanup_failed;
      error_text = some (join_errors (t.error_text ∷ some late_success_note ∷ []));
    })
    else if not ev.success && (has_failed t.status && reports_cleanup_failed ev.validation)
    then some (record t {
      status = cleanup_failed;
      validation_result = ev.validation;
      error_text = some (
          join_errors
            (t.error_text ∷ some (late_failure_note (cleanup_error_of ev.validation)) ∷ []));
    })
    else if not ev.success && (has_failed t.status && reports_preserved ev.validation)
    then some (record t { validation_result = ev.validation })
    else none

abbrev pub apply_late : Option ActiveTransfer → ActiveTransfer → World → World
apply_late none t w = emit (log_persisted t) (log t.transfer_id validation_after_settle w)
apply_late (some t') t w =
    emit (log_persisted t') (log t.transfer_id validation_after_settle (update_transfer t' w))

pub late_verdict : ValidationEvent → ActiveTransfer → World → World
unfolding late_change update_transfer
late_verdict ev t w = apply_late (late_change ev t) t w

-- The storage entry of a finished transfer goes, if the transfer has an export id.
abbrev drop_export : Option String → World → World
drop_export none w = w
drop_export (some e) w = record w { storage = delete e w.storage }

complete : Env → ActiveTransfer → World → World
unfolding update_transfer broadcast_transfer_status
complete v t w =
    let done = record t { status = completed; completed_at = some (now v w) } in
    let w' =
      broadcast_transfer_status done
        (update_transfer done (log t.transfer_id transfer_completed w)) in
    emit (tree_broadcast t.force_name)
      (emit storage_persisted (drop_export (or_null t.export_id) (emit (log_persisted done) w')))

cleanup_refused : Option String → ActiveTransfer → World → World
unfolding update_transfer broadcast_transfer_status
cleanup_refused reason t w =
    let bad = record t { status = cleanup_failed; error_text = reason } in
    broadcast_transfer_status bad (update_transfer bad w)

-- The `catch` of handleTransferValidation.
verdict_threw : String → ActiveTransfer → World → World
unfolding update_transfer broadcast_transfer_status
verdict_threw reason t w =
    let bad = record t { status = error; error_text = some reason } in
    broadcast_transfer_status bad (update_transfer bad w)

-- handleValidationSuccess behind the answer to its delete request; then the rest of the `try`.
pub after_delete : Env → Reply → ActiveTransfer → World → World
unfolding cleanup_refused verdict_threw
after_delete v (accepted _) t w =
    prune_old_transfers
      (remove_pending t.transfer_id (complete v (end_phase "cleanup" (now v w) t) w))
after_delete v (rejected reason) t w =
    prune_old_transfers (cleanup_refused reason (end_phase "cleanup" (now v w) t) w)
after_delete v (session_lost reason) t w = verdict_threw reason t w
after_delete v (send_failed reason) t w = verdict_threw reason t w

pub validation_success : Env → ActiveTransfer → World → World
unfolding start_phase broadcast_transfer_status
validation_success v t w =
    let t' = start_phase "cleanup" (now v w) t in
    let w' = broadcast_transfer_status t' (store t' w) in
    let m =
      delete_source t.platform_index t.platform_name t.force_name
        (or_option t.source_export_id t.export_id) in
    after_delete v (answer v w' t.source_instance_id m) t' (send t.source_instance_id m w')

abbrev destination_cleanup_error : Option Validation → Option String
destination_cleanup_error x =
    if reports_cleanup_failed x
    then some (given_or (cleanup_error_of x) "destination discard failed")
    else none

abbrev failed_status : Option String → Status
failed_status none = failed
failed_status (some _) = cleanup_failed

abbrev remove_if_unlocked : Option String → String → World → World
remove_if_unlocked none t w = remove_pending t w
remove_if_unlocked (some _) t w = w

-- handleValidationFailure behind its rollback; then the rest of the `try`.
after_rollback : Env → Option Validation → ActiveTransfer → Option String × World → World
unfolding update_transfer broadcast_transfer_status
after_rollback v x t (rollback_error, w) =
    let w' = broadcast_transfer_status t w in
    let cleanup_error = destination_cleanup_error x in
    let bad = record t {
      status = failed_status cleanup_error;
      error_text = some (
          join_errors (
            some (given_or (mismatch_of x) "Unknown error") ∷ rollback_error ∷ cleanup_error ∷ []));
      completed_at = some (now v w');
    } in
    prune_old_transfers (
      remove_if_unlocked rollback_error t.transfer_id
        (emit (log_persisted bad) (update_transfer bad (log t.transfer_id transfer_failed w'))))

pub validation_failure : Env → Option Validation → ActiveTransfer → World → World
unfolding broadcast_transfer_status
validation_failure v x t w =
    after_rollback v x t
      (try_unlock_source v t (broadcast_transfer_status t (log t.transfer_id validation_failed w)))

-- A verdict for a transfer that awaits one: the phase ends, the timer is cleared, the verdict kept.
pub settle : Env → ValidationEvent → ActiveTransfer → World → World
settle v ev t w =
    let t' = record (end_phase "validation" (now v w) t) {
      validation_result = ev.validation;
      failed_stage = stage_of ev.validation;
      validation_timeout = none;
    } in
    let w' = store t' (log ev.transfer_id validation_received w) in
    if ev.success then validation_success v t' w' else validation_failure v ev.validation t' w'

abbrev pub receive : Env → ValidationEvent → Option ActiveTransfer → World → World
receive v ev none w = log ev.transfer_id validation_received w
receive v ev (some t) w =
    if is_awaiting_validation t.status then settle v ev t w else late_verdict ev t w

-- handleTransferValidation
pub handle_transfer_validation : Env → ValidationEvent → World → World
handle_transfer_validation v ev w = receive v ev (get ev.transfer_id w.transfers) w
