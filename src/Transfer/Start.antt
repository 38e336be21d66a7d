-- ===== src/Transfer/Start.antt =====
-- lib/transfer-orchestrator.ts: transferPlatform with handleImportFailure, enterAwaitingValidation,
-- getValidationTimeoutMs and scheduleValidationTimeout. Refusals are values, their wording left out.
pub mod Commands
pub mod Retry
pub mod Unlocks
use clusterio_surface_export.Prelude.{
  ℕ, String, ◌*◌, ◌≤◌, ◌≡◌, Bool, true, false, not, Option, none, some, List, [], ◌∷◌, min, max,
  ltb, is_some, or_else, or_text, or_option, given_or, concat, is_empty, if◌then◌else◌, string_eq,
}
use clusterio_surface_export.Prelude.Int.{ℤ, pos, negsuc}
use clusterio_surface_export.JsMap.{JsMap, get}
use clusterio_surface_export.CanonicalId.{parse_canonical_transfer_id}
use clusterio_surface_export.Cluster.{resolve_instance_name, is_instance_online}
use clusterio_surface_export.Transfer.{
  Status, in_progress, transporting, awaiting_validation, awaiting_completion, failed,
  ActiveTransfer, transfer, StoredExport, PendingIntent, Validation,
}
use clusterio_surface_export.Transfer.World.{
  World, Env, Setting, unreadable, not_positive, seconds, Reply, accepted, rejected, session_lost,
  send_failed, import_platform, transfer_created, import_started, import_delivery_uncertain,
  import_failed, archived, start_recorded, log_persisted, timer_armed, emit, send, answer, now, log,
  store, update_transfer, start_phase, end_phase,
}
use clusterio_surface_export.Transfer.Operation.{create_operation_record}
use clusterio_surface_export.Transfer.Pending.{persist_pending_transfer}
use clusterio_surface_export.Transfer.Unlock.{try_unlock_source}
use clusterio_surface_export.Transfer.Verdict.{has_failed, reports_preserved}

abbrev default_validation_timeout_seconds : ℕ
default_validation_timeout_seconds = 30

abbrev min_validation_timeout_seconds : ℕ
min_validation_timeout_seconds = 5

abbrev max_validation_timeout_seconds : ℕ
max_validation_timeout_seconds = 120

-- getValidationTimeoutMs
unfoldable pub validation_timeout_ms : Setting → ℕ
validation_timeout_ms unreadable = default_validation_timeout_seconds * 1000
validation_timeout_ms not_positive = default_validation_timeout_seconds * 1000
validation_timeout_ms (seconds s) =
    min max_validation_timeout_seconds (max min_validation_timeout_seconds s) * 1000

-- Why a transfer did not start.
pub data Refusal : Type 0 where
  export_not_found : String → Refusal
  unknown_instance : ℤ → Refusal
  destination_offline : ℤ → Refusal
  settled_transfer : String → Status → Refusal
  destination_preserved : String → Refusal
  index_unavailable : Option ℤ → Refusal
  import_refused : String → Refusal
  import_threw : String → Refusal
  with_rollback_error : Refusal → String → Refusal

-- The answer: the transfer is under way, or an error and whether the caller may unlock the source.
pub data Result : Type 0 where
  started already_active delivery_uncertain : String → Result
  refused : Refusal → Bool → Result

-- What transferPlatform makes of a record that is there already; `none` lets the transfer go on.
abbrev is_live : Status → Bool
is_live transporting = true
is_live awaiting_validation = true
is_live awaiting_completion = true
is_live in_progress = true
is_live _ = false

pub retry_guard : String → Option ActiveTransfer → Option Result
retry_guard id none = none
retry_guard id (some t) =
    if is_live t.status
    then some (already_active id)
    else if not (has_failed t.status)
    then some (refused (settled_transfer id t.status) true)
    else if reports_preserved t.validation_result
    then some (refused (destination_preserved id) true)
    else none

-- scheduleValidationTimeout
abbrev arm_timer : Env → ActiveTransfer → ActiveTransfer
arm_timer v t =
    let ms = validation_timeout_ms v.timeout_setting in
    record t { armed_validation_timeout_ms = some ms; validation_timeout = some ms }

abbrev intent_of : ActiveTransfer → PendingIntent
intent_of t = record {
  transfer_id = t.transfer_id;
  source_instance_id = t.source_instance_id;
  source_platform_index = t.platform_index;
  source_platform_name = t.platform_name;
  force_name = t.force_name;
  target_instance_id = t.target_instance_id;
  started_at = t.started_at;
  export_id = t.export_id;
}

unfoldable pub enter_awaiting_validation : Env → ActiveTransfer → World → World
unfolding start_phase update_transfer validation_timeout_ms
enter_awaiting_validation v t w =
    let t' =
      arm_timer v
        (record (start_phase "validation" (now v w) t) { status = awaiting_validation }) in
    let w' =
      update_transfer t'
        (emit (timer_armed t.transfer_id (validation_timeout_ms v.timeout_setting)) w) in
    record w' { pending = persist_pending_transfer (now v w') (intent_of t') w'.pending }

abbrev add_rollback_error : Option String → String → String
add_rollback_error none e = e
add_rollback_error (some r) e = concat e (concat "; rollback failed: " r)

after_import_rollback : ActiveTransfer → Option String × World → World
unfolding update_transfer
after_import_rollback t (rollback_error, w) =
    let t' = record t {
      error_text = some (add_rollback_error rollback_error (or_else t.error_text ""));
    } in
    emit (log_persisted t') (update_transfer t' w)

-- handleImportFailure
pub handle_import_failure : Env → String → ActiveTransfer → World → Result × World
unfolding after_import_rollback
handle_import_failure v e t w =
    let t' = record t {
      status = failed;
      error_text = some (or_text e "Import failed");
      failed_at = some (now v w);
    } in
    let w' = log t.transfer_id import_failed (store t' w) in
    (refused (import_refused e) false, after_import_rollback t' (try_unlock_source v t' w'))

abbrev threw_result : String → Option String × World → Result × World
threw_result e (none, w) = (refused (import_threw e) false, w)
threw_result e (some r, w) = (refused (with_rollback_error (import_threw e) r) false, w)

-- The rest of transferPlatform behind the answer to its import request.
unfoldable pub after_import : Env → Reply → ActiveTransfer → World → Result × World
after_import v (accepted _) t w =
    let t' = end_phase "transmission" (now v w) t in
    (started t.transfer_id, log t.transfer_id import_started (enter_awaiting_validation v t' w))
after_import v (rejected e) t w =
    handle_import_failure v (given_or e "Import failed") (end_phase "transmission" (now v w) t) w
after_import v (session_lost e) t w =
    let t' = end_phase "transmission" (now v w) t in
    (
      delivery_uncertain t.transfer_id,
      log t.transfer_id import_delivery_uncertain (enter_awaiting_validation v t' w),
    )
after_import v (send_failed e) t w = threw_result e (try_unlock_source v t w)

-- The transfer is recorded, logged and shown, and the import is sent.
unfoldable pub launch : Env → ActiveTransfer → String → World → Result × World
unfolding update_transfer start_phase
launch v t export_id w =
    let w' = update_transfer t (
      emit (start_recorded t) (
        log t.transfer_id transfer_created
          (store t (emit (archived t.transfer_id t.started_at) w)))) in
    let t' = start_phase "transmission" (now v w') t in
    let m = import_platform export_id t.transfer_id in
    after_import v (answer v w' t.target_instance_id m) t'
      (send t.target_instance_id m (store t' w'))

-- The record is `none` only for an index that `guarded` has refused before.
abbrev launch_if : Env → Option ActiveTransfer → String → World → Result × World
launch_if v none export_id w = (refused (index_unavailable none) true, w)
launch_if v (some t) export_id w = launch v t export_id w

-- `stored.sourceExportId || parse(id)?.sourceJobId || id`
abbrev source_job : Option (ℕ × String) → String → String
source_job none id = id
source_job (some (_, job)) id = or_text job id

pub transfer_record :
    Env → StoredExport → String → String → ℤ → Option ℕ → World → Option ActiveTransfer
unfolding create_operation_record parse_canonical_transfer_id resolve_instance_name
transfer_record v e id export_id target started_at w =
    create_operation_record transfer
      (record {
        operation_id = some id;
        export_id = some export_id;
        source_export_id =
            some (
              or_text e.source_export_id (source_job (parse_canonical_transfer_id v.number id) id));
        artifact_size_bytes = e.size;
        platform_name = some (or_text e.platform_name "Unknown");
        platform_index = e.platform_index;
        force_name = some (given_or e.force "player");
        source_instance_id = some e.instance_id;
        source_instance_name = resolve_instance_name v.cluster e.instance_id;
        target_instance_id = some target;
        target_instance_name = resolve_instance_name v.cluster target;
        status = some transporting;
        started_at = some (or_else started_at (now v w));
      })
      (λ i. none) id (now v w)

abbrev index_is_given : Option ℤ → Bool
index_is_given none = false
index_is_given (some (negsuc n)) = false
index_is_given (some (pos n)) = ltb 0 n

abbrev guarded :
    Env → StoredExport → String → String → ℤ → Option ℕ → World → Option Result → Result × World
guarded v e id export_id target started_at w (some r) = (r, w)
guarded v e id export_id target started_at w none =
    if index_is_given e.platform_index
    then launch_if v (transfer_record v e id export_id target started_at w) export_id w
    else (refused (index_unavailable e.platform_index) true, w)

abbrev from_stored : Env → String → ℤ → Option ℕ → World → Option StoredExport → Result × World
from_stored v export_id target started_at w none = (refused (export_not_found export_id) true, w)
from_stored v export_id target started_at w (some e) =
    let id = or_text e.export_id export_id in
    if is_instance_online v.cluster target
    then guarded v e id export_id target started_at w (retry_guard id (get id w.transfers))
    else (refused (destination_offline target) true, w)

-- transferPlatform
unfoldable pub transfer_platform : Env → String → ℤ → Option ℕ → World → Result × World
transfer_platform v export_id target started_at w =
    from_stored v export_id target started_at w (get export_id w.storage)
