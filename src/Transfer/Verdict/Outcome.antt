-- ===== src/Transfer/Verdict/Outcome.antt =====
-- What a success makes of the record, the pending intents and the stored exports:
-- lib/transfer-orchestrator.ts, handleValidationSuccess.
use clusterio_surface_export.Prelude.{
  String, true, Option, none, some, List, ◌∷◌, ◌≡◌, refl, string_eq, ap, ◌∙◌, or_null, ◌≤◌, subst,
  sym, inl, inr,
}
use clusterio_surface_export.JsMap.{KeysOnce, JsMap, get, delete}
use clusterio_surface_export.Transfer.{
  ActiveTransfer, StoredExport, PendingIntent, ValidationEvent, Status, completed,
  awaiting_validation, cleanup_failed, error,
}
use clusterio_surface_export.Transfer.World.{
  World, Env, Effect, sent, logged, transfer_status, validation_received, Reply, accepted, rejected,
  session_lost, send_failed, end_phase, send, start_phase, broadcast_transfer_status, store,
}
use clusterio_surface_export.Transfer.Verdict.{
  drop_export, complete, cleanup_refused, verdict_threw, after_delete, validation_success,
  handle_transfer_validation, remove_pending,
}
use clusterio_surface_export.Transfer.Verdict.Commands.{delete_command}
use clusterio_surface_export.Transfer.Verdict.Retained.{started_since}
use clusterio_surface_export.Transfer.Verdict.Written.{
  Outcome, KeptOutcome, UpToPruning, Outcome-store, Outcome-kept,
}
use clusterio_surface_export.Transfer.Verdict.Settle.{
  judged, judged_world, handle-settle, settle_success,
}

-- The status that the answer to the delete request leads to.
abbrev pub delete_status : Reply → Status
delete_status (accepted e) = completed
delete_status (rejected e) = cleanup_failed
delete_status (session_lost e) = error
delete_status (send_failed e) = error

-- The intent goes only when the source is deleted, and so does the stored export.
abbrev pub pending_after : Reply → String → JsMap String PendingIntent → JsMap String PendingIntent
pending_after (accepted e) k m = delete k m
pending_after (rejected e) k m = m
pending_after (session_lost e) k m = m
pending_after (send_failed e) k m = m

abbrev pub delete_if : Option String → JsMap String StoredExport → JsMap String StoredExport
delete_if none m = m
delete_if (some k) m = delete k m

abbrev pub storage_after :
    Reply → Option String → JsMap String StoredExport → JsMap String StoredExport
storage_after (accepted e) k m = delete_if k m
storage_after (rejected e) k m = m
storage_after (session_lost e) k m = m
storage_after (send_failed e) k m = m

storage-drop_export :
    (k : Option String) (w : World) → drop_export k w ≡ record w { storage = delete_if k w.storage }
storage-drop_export none w = refl
storage-drop_export (some k) w = refl

-- The world that the handler leaves, before it prunes, by the answer to the delete request.
abbrev pub DeleteOutcome : Reply → ActiveTransfer → World → World → Type 0
DeleteOutcome r t w =
    Outcome t (delete_status r) (pending_after r t.transfer_id w.pending)
      (storage_after r (or_null t.export_id) w.storage) w

-- The same where other records may be pruned.
abbrev pub KeptDelete : Reply → ActiveTransfer → World → World → Type 0
KeptDelete r t w =
    KeptOutcome t (delete_status r) (pending_after r t.transfer_id w.pending)
      (storage_after r (or_null t.export_id) w.storage) w

complete-DeleteOutcome :
    (v : Env) (e : Option String) (t : ActiveTransfer) (w : World)
    → DeleteOutcome (accepted e) t w (remove_pending t.transfer_id (complete v t w))
unfolding complete
complete-DeleteOutcome v e t w = rw storage-drop_export (
  record t { status = completed; completed_at = some (v.clock w.trace) },
  refl,
  refl,
  refl,
  refl,
  refl,
)

cleanup_refused-DeleteOutcome :
    (e : Option String) (t : ActiveTransfer) (w : World)
    → DeleteOutcome (rejected e) t w (cleanup_refused e t w)
unfolding cleanup_refused
cleanup_refused-DeleteOutcome e t w =
    (record t { status = cleanup_failed; error_text = e }, refl, refl, refl, refl, refl)

after_delete-DeleteOutcome :
    (v : Env) (r : Reply) (t : ActiveTransfer) (w : World)
    → UpToPruning (DeleteOutcome r t w) (after_delete v r t w)
unfolding after_delete verdict_threw end_phase
after_delete-DeleteOutcome v (accepted e) t w =
    let t' = end_phase "cleanup" (v.clock w.trace) t in
    (remove_pending t.transfer_id (complete v t' w), complete-DeleteOutcome v e t' w, inr refl)
after_delete-DeleteOutcome v (rejected e) t w =
    let t' = end_phase "cleanup" (v.clock w.trace) t in
    (cleanup_refused e t' w, cleanup_refused-DeleteOutcome e t' w, inr refl)
after_delete-DeleteOutcome v (session_lost e) t w = (
  after_delete v (session_lost e) t w,
  (record t { status = error; error_text = some e }, refl, refl, refl, refl, refl),
  inl refl,
)
after_delete-DeleteOutcome v (send_failed e) t w = (
  after_delete v (send_failed e) t w,
  (record t { status = error; error_text = some e }, refl, refl, refl, refl, refl),
  inl refl,
)

-- The trace at which the source is asked to delete its platform.
abbrev pub delete_trace : ValidationEvent → ActiveTransfer → World → List Effect
delete_trace ev t w =
    sent t.target_instance_id (transfer_status t.transfer_id)
    ∷ sent t.source_instance_id (transfer_status t.transfer_id)
    ∷ logged ev.transfer_id validation_received
    ∷ w.trace

validation_success-DeleteOutcome :
    (v : Env) (t : ActiveTransfer) (w : World)
    → let r =
        v.reply
          (sent t.target_instance_id (transfer_status t.transfer_id)
            ∷ sent t.source_instance_id (transfer_status t.transfer_id)
            ∷ w.trace)
          t.source_instance_id
          (delete_command t).1 in
      UpToPruning (DeleteOutcome r t w) (validation_success v t w)
unfolding validation_success start_phase
validation_success-DeleteOutcome v t w =
    let t' = start_phase "cleanup" (v.clock w.trace) t in
    let w' =
      send t.source_instance_id (delete_command t).1 (broadcast_transfer_status t' (store t' w)) in
    let (u, o, way) = after_delete-DeleteOutcome v _ t' w' in
    (u, Outcome-store t _ _ _ t' w u o, way)

-- The handler's world is that of a settled record, and then of pruning.
pub success_settles :
    (v : Env) (ev : ValidationEvent) (t : ActiveTransfer) (w : World)
    → ev.success ≡ true
    → get t.transfer_id w.transfers ≡ some t
    → ev.transfer_id ≡ t.transfer_id
    → t.status ≡ awaiting_validation
    → UpToPruning
        (DeleteOutcome
          (v.reply (delete_trace ev t w) t.source_instance_id (delete_command t).1)
          (judged v ev t w)
          w)
        (handle_transfer_validation v ev w)
unfolding end_phase
success_settles v ev t w good found same waits =
    let t' = judged v ev t w in
    let w' = judged_world v ev t w in
    let (u, o, way) = validation_success-DeleteOutcome v t' w' in
    subst (UpToPruning (DeleteOutcome _ t' w))
      (sym (
        handle-settle v ev t w (ap (λ k. get k w.transfers) same ∙ found) waits
        ∙ settle_success v ev t w good))
      (u, Outcome-store t' _ _ _ t' w u o, way)

-- A success verdict for a transfer that awaits one settles its record by the answer to the delete
-- request: completed where the source is deleted, cleanup_failed where the source refuses, error where
-- the request throws. Beside its status, error, phases and time of completion the record keeps all its
-- fields but for the verdict's validation and failed stage, which it takes, and its timer, which is
-- cleared. The pending intent and the stored export go where the source is deleted, and only then. The
-- record is not pruned, and each other record stays as it was or is pruned. The conditions: ids are keys
-- of one record each, the record stands under its own id, and of all records at most a hundred, itself
-- among them, started when it did or later.
pub success_outcome :
    (v : Env) (ev : ValidationEvent) (t : ActiveTransfer) (w : World)
    → ev.success ≡ true
    → get t.transfer_id w.transfers ≡ some t
    → ev.transfer_id ≡ t.transfer_id
    → t.status ≡ awaiting_validation
    → KeysOnce w.transfers
    → started_since t.started_at w.transfers ≤ 100
    → KeptDelete
        (v.reply (delete_trace ev t w) t.source_instance_id (delete_command t).1)
        (judged v ev t w)
        w
        (handle_transfer_validation v ev w)
unfolding end_phase
success_outcome v ev t w good found same waits once few =
    Outcome-kept (judged v ev t w) _ _ _ t w (handle_transfer_validation v ev w) once found refl few
      (success_settles v ev t w good found same waits)
