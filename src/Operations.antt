-- ===== src/Operations.antt =====
-- Operations of the web page that are no transfers: controller.ts, createOperationRecord,
-- failOperation, handleImportUploadedExportRequest and handleImportOperationCompleteEvent, over the
-- world of the transfers. The payload is left out but for its name, force and size.
pub mod Complete
pub mod Download
pub mod Ready
mod Tests
use clusterio_surface_export.Prelude.{
  ℕ, zero, String, Bool, true, false, not, Option, none, some, List, [], ◌∷◌, string_eq,
  if◌then◌else◌, is_empty, or_text, given_or, or_option, eqb,
}
use clusterio_surface_export.Prelude.Int.{ℤ, pos, negsuc, int_eq}
use clusterio_surface_export.JsMap.{get}
use clusterio_surface_export.Cluster.{
  Cluster, Instance, resolve_instance_name, resolve_target_instance,
}
use clusterio_surface_export.Transfer.{
  ActiveTransfer, OperationType, import, Validation, Stage, failed, completed, cleanup_failed,
  awaiting_completion,
}
use clusterio_surface_export.Transfer.World.{
  World, Env, Event, Reply, accepted, rejected, session_lost, send_failed, import_platform, emit,
  send, answer, now, log, store, updated, tree_broadcast, archived, start_recorded, log_persisted,
  import_requested, import_queued, import_completed, import_recovered, import_failed,
}
use clusterio_surface_export.Transfer.Operation.{OperationOptions, create_operation_record}
use clusterio_surface_export.Transfer.Verdict.{prune_old_transfers}

-- The controller's createOperationRecord, on the record that lib/operation-record.ts builds.
abbrev pub register_operation : ActiveTransfer → World → World
register_operation t w =
    emit (start_recorded t) (store t (emit (archived t.transfer_id t.started_at) w))

-- failOperation, after the caller has set the error.
unfoldable pub fail_operation : Env → Event → String → ActiveTransfer → World → World
unfolding prune_old_transfers
fail_operation v ev reason t w =
    let t' = record t { status = failed; error_text = some reason; failed_at = some (now v w) } in
    prune_old_transfers
      (emit (log_persisted t') (emit (updated t') (log t'.transfer_id ev (store t' w))))

pub record Upload : Type 0 where
  pub target_instance_id : ℤ
  pub is_object : Bool  -- of the payload
  pub force_name : Option String
  pub platform_name : Option String  -- trimmed
  pub payload_name : Option String
  pub payload_force : Option String
  pub payload_size : String → ℕ  -- with the operation's id in it
  pub operation_id : String  -- as generateOperationId makes them
  pub upload_id : String

pub data UploadAnswer : Type 0 where
  bad_payload : UploadAnswer
  target_not_found : ℤ → UploadAnswer
  not_created : UploadAnswer
  import_refused : String → UploadAnswer
  queued : String → String → ℤ → UploadAnswer

-- `platformName` where it is given, else the payload's.
abbrev upload_name : Upload → Option String
upload_name u = or_option (given u.platform_name) u.payload_name
  where
    given : Option String → Option String
    given none = none
    given (some n) = if is_empty n then none else some n

abbrev upload_force : Upload → String
upload_force u = given_or u.force_name (given_or u.payload_force "player")

upload_options : Upload → ℤ → OperationOptions
upload_options u target = record {
  operation_id = none;
  export_id = none;
  source_export_id = none;
  artifact_size_bytes = none;
  platform_name = some (given_or (upload_name u) "Uploaded platform");
  platform_index = none;
  force_name = some (upload_force u);
  source_instance_id = some (negsuc 0);
  source_instance_name = some "Uploaded JSON";
  target_instance_id = some target;
  target_instance_name = none;
  status = none;
  started_at = none;
}

abbrev pub upload_threw : Env → String → ActiveTransfer → World → World × UploadAnswer
upload_threw v reason t w = (fail_operation v import_failed reason t w, import_refused reason)

pub after_upload : Env → Upload → Reply → ActiveTransfer → World → World × UploadAnswer
unfolding fail_operation
after_upload v u (accepted name) t w =
    let shown = given_or name (given_or (upload_name u) t.platform_name) in
    let t' = record t { status = awaiting_completion; platform_name = shown } in
    (
      emit (log_persisted t') (emit (updated t') (log t'.transfer_id import_queued (store t' w))),
      queued t'.transfer_id (given_or name (given_or (upload_name u) "Unknown"))
          t'.target_instance_id,
    )
after_upload v u (rejected reason) t w =
    upload_threw v (given_or reason "Import failed on target instance") t w
after_upload v u (session_lost reason) t w = upload_threw v reason t w
after_upload v u (send_failed reason) t w = upload_threw v reason t w

-- `none` is the error that createOperationRecord throws, which it does for transfers alone.
send_upload : Env → Upload → Option ActiveTransfer → World → World × UploadAnswer
unfolding after_upload
send_upload v u none w = (w, not_created)
send_upload v u (some o) w =
    let t = record o { artifact_size_bytes = some (u.payload_size o.transfer_id) } in
    let w' =
      emit (updated t) (log t.transfer_id import_requested (store t (register_operation o w))) in
    let m = import_platform u.upload_id t.transfer_id in
    after_upload v u (answer v w' t.target_instance_id m) t (send t.target_instance_id m w')

abbrev is_live_instance : Option Instance → Bool
is_live_instance none = false
is_live_instance (some i) = not i.is_deleted

upload_to : Env → Upload → Option ℤ → World → World × UploadAnswer
unfolding send_upload create_operation_record resolve_instance_name upload_options
upload_to v u none w = (w, target_not_found u.target_instance_id)
upload_to v u (some target) w =
    if is_live_instance (get target v.cluster.instances)
    then send_upload v u
        (create_operation_record import (upload_options u target) (resolve_instance_name v.cluster)
          u.operation_id (now v w))
        w
    else (w, target_not_found u.target_instance_id)

-- handleImportUploadedExportRequest
unfoldable pub handle_import_uploaded_export : Env → Upload → World → World × UploadAnswer
unfolding upload_to resolve_target_instance
handle_import_uploaded_export v u w =
    if u.is_object
    then upload_to v u (resolve_target_instance v.cluster u.target_instance_id) w
    else (w, bad_payload)

-- What an instance reports when an import is over; an instance id that is no integer is missing.
pub record ImportComplete : Type 0 where
  pub operation_id : String  -- trimmed
  pub platform_name : Option String
  pub instance_id : Option ℤ
  pub success : Bool
  pub error : Option String
  pub cleanup_has_failed : Bool
  pub failed_stage : Option Stage
  pub validation : Option Validation

unfoldable pub recovered_options : ImportComplete → OperationOptions
recovered_options e = record {
  operation_id = some e.operation_id;
  export_id = none;
  source_export_id = none;
  artifact_size_bytes = none;
  platform_name = some (given_or e.platform_name "Imported platform");
  platform_index = none;
  force_name = none;
  source_instance_id = some (negsuc 0);
  source_instance_name = some "Uploaded JSON";
  target_instance_id = e.instance_id;
  target_instance_name = none;
  status = none;
  started_at = none;
}

-- The instance, where its id is positive.
abbrev pub with_instance : Cluster → Option ℤ → ActiveTransfer → ActiveTransfer
with_instance c none t = t
with_instance c (some (negsuc n)) t = t
with_instance c (some (pos n)) t = if eqb n 0 then t else record t {
  target_instance_id = pos n;
  target_instance_name = resolve_instance_name c (pos n);
}

abbrev pub reported : Cluster → ImportComplete → ActiveTransfer → ActiveTransfer
reported c e t =
    let t' = with_instance c e.instance_id t in
    record t' {
      platform_name = given_or e.platform_name t.platform_name;
      validation_result = or_option e.validation t.validation_result;
    }

abbrev pub finished : ℕ → ImportComplete → ActiveTransfer → ActiveTransfer
finished at e t =
    if e.success then record t { status = completed; completed_at = some at } else record t {
      status = (if e.cleanup_has_failed then cleanup_failed else failed);
      error_text = some (given_or e.error "Import failed");
      failed_at = some at;
      failed_stage = or_option e.failed_stage t.failed_stage;
    }

unfoldable pub complete_operation : Env → ImportComplete → ActiveTransfer → World → World
unfolding prune_old_transfers resolve_instance_name
complete_operation v e t w =
    let t' = finished (now v w) e (reported v.cluster e t) in
    let event = (if e.success then import_completed else import_failed) in
    prune_old_transfers (
      emit (log_persisted t') (
        emit (tree_broadcast (or_text t'.force_name "player"))
          (emit (updated t') (log t'.transfer_id event (store t' w)))))

unfoldable pub complete_recovered : Env → ImportComplete → Option ActiveTransfer → World → World
unfolding complete_operation
complete_recovered v e none w = w
complete_recovered v e (some t) w =
    complete_operation v e t (log t.transfer_id import_recovered (register_operation t w))

unfoldable pub complete_found : Env → ImportComplete → Option ActiveTransfer → World → World
unfolding complete_recovered complete_operation create_operation_record resolve_instance_name
    recovered_options
complete_found v e (some t) w = complete_operation v e t w
complete_found v e none w =
    complete_recovered v e
      (create_operation_record import (recovered_options e) (resolve_instance_name v.cluster)
        e.operation_id (now v w))
      w

-- handleImportOperationCompleteEvent
unfoldable pub handle_import_operation_complete : Env → ImportComplete → World → World
unfolding complete_found
handle_import_operation_complete v e w =
    if is_empty e.operation_id then w else complete_found v e (get e.operation_id w.transfers) w
