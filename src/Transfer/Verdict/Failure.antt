-- ===== src/Transfer/Verdict/Failure.antt =====
-- What a failure makes of the record, the pending intents and the stored exports:
-- lib/transfer-orchestrator.ts, handleValidationFailure.
use clusterio_surface_export.Prelude.{
  String, false, Option, none, some, List, ◌∷◌, ◌≡◌, refl, string_eq, ap, ◌∙◌, ◌≤◌, subst, sym, inr,
}
use clusterio_surface_export.JsMap.{KeysOnce, JsMap, get, delete}
use clusterio_surface_export.Transfer.{
  ActiveTransfer, PendingIntent, ValidationEvent, Validation, awaiting_validation,
}
use clusterio_surface_export.Transfer.World.{
  World, Env, Effect, sent, logged, transfer_status, rollback_attempt, rollback_success,
  rollback_failed, validation_failed, validation_received, end_phase, log,
}
use clusterio_surface_export.Transfer.Unlock.{try_unlock_source, note_rollback, unlock_error}
use clusterio_surface_export.Transfer.Verdict.{
  after_rollback, validation_failure, handle_transfer_validation, failed_status,
  destination_cleanup_error,
}
use clusterio_surface_export.Transfer.Verdict.Commands.{unlock_command}
use clusterio_surface_export.Transfer.Verdict.Retained.{started_since}
use clusterio_surface_export.Transfer.Verdict.Written.{
  Outcome, KeptOutcome, UpToPruning, Outcome-store, Outcome-kept,
}
use clusterio_surface_export.Transfer.Verdict.Settle.{
  judged, judged_world, handle-settle, settle_failure,
}

-- The pending intent after a rollback: it stays if the source could not be unlocked.
abbrev pub pending_unless :
    Option String → String → JsMap String PendingIntent → JsMap String PendingIntent
pending_unless none k m = delete k m
pending_unless (some e) k m = m

abbrev pub RollbackOutcome :
    Option Validation → Option String → ActiveTransfer → World → World → Type 0
RollbackOutcome x unlock t w =
    Outcome t (failed_status (destination_cleanup_error x))
      (pending_unless unlock t.transfer_id w.pending) w.storage w

-- The same where other records may be pruned.
abbrev pub KeptRollback :
    Option Validation → Option String → ActiveTransfer → World → World → Type 0
KeptRollback x unlock t w =
    KeptOutcome t (failed_status (destination_cleanup_error x))
      (pending_unless unlock t.transfer_id w.pending) w.storage w

after_rollback-RollbackOutcome :
    (v : Env) (x : Option Validation) (t : ActiveTransfer) (o : Option String) (w : World)
    → UpToPruning (RollbackOutcome x o t w) (after_rollback v x t (o, w))
unfolding after_rollback
after_rollback-RollbackOutcome v x t none w = (_, (_, refl, refl, refl, refl, refl), inr refl)
after_rollback-RollbackOutcome v x t (some e) w = (_, (_, refl, refl, refl, refl, refl), inr refl)

-- The trace at which the source is asked to unlock its platform.
abbrev pub unlock_trace : ValidationEvent → ActiveTransfer → World → List Effect
unlock_trace ev t w =
    logged t.transfer_id rollback_attempt
    ∷ sent t.target_instance_id (transfer_status t.transfer_id)
    ∷ sent t.source_instance_id (transfer_status t.transfer_id)
    ∷ logged t.transfer_id validation_failed
    ∷ logged ev.transfer_id validation_received
    ∷ w.trace

after_note-RollbackOutcome :
    (v : Env) (x : Option Validation) (t : ActiveTransfer) (o : Option String) (w : World)
    → UpToPruning (RollbackOutcome x o t w) (after_rollback v x t (note_rollback t (o, w)))
after_note-RollbackOutcome v x t none w =
    after_rollback-RollbackOutcome v x t none (log t.transfer_id rollback_success w)
after_note-RollbackOutcome v x t (some e) w =
    after_rollback-RollbackOutcome v x t (some e) (log t.transfer_id rollback_failed w)

pub failure_settles :
    (v : Env) (ev : ValidationEvent) (t : ActiveTransfer) (w : World)
    → ev.success ≡ false
    → get t.transfer_id w.transfers ≡ some t
    → ev.transfer_id ≡ t.transfer_id
    → t.status ≡ awaiting_validation
    → UpToPruning
        (RollbackOutcome ev.validation
          (unlock_error (v.reply (unlock_trace ev t w) t.source_instance_id (unlock_command t).1))
          (judged v ev t w)
          w)
        (handle_transfer_validation v ev w)
unfolding end_phase validation_failure try_unlock_source
failure_settles v ev t w bad found same waits =
    let t' = judged v ev t w in
    let w' = judged_world v ev t w in
    let o =
      unlock_error (v.reply (unlock_trace ev t w) t.source_instance_id (unlock_command t).1) in
    let (u, r, way) = after_note-RollbackOutcome v ev.validation t' o _ in
    subst (UpToPruning (RollbackOutcome ev.validation o t' w))
      (sym (
        handle-settle v ev t w (ap (λ k. get k w.transfers) same ∙ found) waits
        ∙ settle_failure v ev t w bad))
      (u, Outcome-store t' _ _ _ t' w u r, way)

pub failure_outcome :
    (v : Env) (ev : ValidationEvent) (t : ActiveTransfer) (w : World)
    → ev.success ≡ false
    → get t.transfer_id w.transfers ≡ some t
    → ev.transfer_id ≡ t.transfer_id
    → t.status ≡ awaiting_validation
    → KeysOnce w.transfers
    → started_since t.started_at w.transfers ≤ 100
    → KeptRollback ev.validation
        (unlock_error (v.reply (unlock_trace ev t w) t.source_instance_id (unlock_command t).1))
        (judged v ev t w)
        w
        (handle_transfer_validation v ev w)
unfolding end_phase
failure_outcome v ev t w bad found same waits once few =
    Outcome-kept (judged v ev t w) _ _ _ t w (handle_transfer_validation v ev w) once found refl few
      (failure_settles v ev t w bad found same waits)
