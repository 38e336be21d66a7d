-- ===== src/LogView.antt =====
-- The log as the pages see it: lib/transaction-logger.ts, buildTransferInfo, buildTransferSummary,
-- getTransferSummaries, resolveTransferResult; controller.ts, handleListTransactionLogsRequest and
-- handleGetTransactionLog. Metrics and the detailed summary's counts are left out.
pub mod Merged
mod Tests
use clusterio_surface_export.Prelude.{
  ℕ, String, Bool, true, false, ◌||◌, Option, none, some, List, [], ◌∷◌, map, take, find, get_last?,
  ltb, eqb, is_some, is_empty, or_else, or_null, or_option, given_or, string_eq, ◌==◌,
  if◌then◌else◌,
}
use clusterio_surface_export.Prelude.Int.{ℤ, negsuc}
use clusterio_surface_export.Prelude.Sort.{sort_by}
use clusterio_surface_export.JsMap.{JsMap, get, has, set, values}
use clusterio_surface_export.Cluster.{Cluster, resolve_instance_name}
use clusterio_surface_export.Transfer.{
  Status, in_progress, transporting, awaiting_validation, awaiting_completion, completed, failed,
  cleanup_failed, error, unknown, OperationType, transfer, export, import, ActiveTransfer,
  StoredExport,
}
use clusterio_surface_export.Ledger.{AuditRow, RowInfo}
use clusterio_surface_export.Log.{LogEvent, Logs, get_last_event_timestamp}

-- A persisted log: its info, and its events.
pub record SavedLog : Type 0 where
  pub transfer_id : String
  pub saved_at : Option ℕ
  pub info : RowInfo
  pub events : List LogEvent

pub data RegistrySource : Type 0 where
  active persisted : RegistrySource

pub record TransferSummary : Type 0 where
  pub transfer_id : String
  pub operation_type : String
  pub export_id : Option String
  pub artifact_size_bytes : Option ℕ
  pub downloadable : Bool
  pub platform_name : String
  pub source_instance_id : ℤ
  pub source_instance_name : Option String
  pub target_instance_id : ℤ
  pub target_instance_name : Option String
  pub status : String
  pub started_at : ℕ
  pub completed_at : Option ℕ
  pub failed_at : Option ℕ
  pub error_text : Option String
  pub last_event_at : Option ℕ
  pub registry_source : RegistrySource
  pub revisions : Option ℕ

-- What the controller keeps, and the time.
pub record Registries : Type 0 where
  pub cluster : Cluster
  pub transfers : JsMap String ActiveTransfer
  pub audit_index : JsMap String AuditRow
  pub audit_revisions : JsMap String ℕ
  pub persisted_logs : List SavedLog
  pub logs : Logs
  pub storage : JsMap String StoredExport
  pub now : ℕ
  pub payload_size : ActiveTransfer → Option ℕ  -- from `payloadMetrics`

pub status_text : Status → String
status_text in_progress = "in_progress"
status_text transporting = "transporting"
status_text awaiting_validation = "awaiting_validation"
status_text awaiting_completion = "awaiting_completion"
status_text completed = "completed"
status_text failed = "failed"
status_text cleanup_failed = "cleanup_failed"
status_text error = "error"
status_text unknown = "unknown"

pub operation_text : OperationType → String
operation_text transfer = "transfer"
operation_text export = "export"
operation_text import = "import"

-- `t || null`
abbrev time_or_null : Option ℕ → Option ℕ
time_or_null none = none
time_or_null (some t) = if eqb t 0 then none else some t

abbrev stored_for : Registries → Option String → Option StoredExport
stored_for r none = none
stored_for r (some id) = if is_empty id then none else get id r.storage

abbrev size_of : Option StoredExport → Option ℕ
size_of none = none
size_of (some e) = e.size

-- buildTransferInfo and buildTransferSummary; a stored export always has its data.
pub active_summary : Registries → String → ActiveTransfer → TransferSummary
unfolding status_text operation_text resolve_instance_name
active_summary r id t =
    let name : Option String → ℤ → Option String =
      λ given i. or_option (or_null given) (resolve_instance_name r.cluster i) in
    record {
      transfer_id = id;
      operation_type = operation_text t.operation_type;
      export_id = or_null t.export_id;
      artifact_size_bytes =
          or_option t.artifact_size_bytes
            (or_option (size_of (stored_for r t.export_id)) (r.payload_size t));
      downloadable = is_some (stored_for r t.export_id);
      platform_name = t.platform_name;
      source_instance_id = t.source_instance_id;
      source_instance_name = name t.source_instance_name t.source_instance_id;
      target_instance_id = t.target_instance_id;
      target_instance_name = name t.target_instance_name t.target_instance_id;
      status = status_text t.status;
      started_at = or_else (time_or_null (some t.started_at)) r.now;
      completed_at = time_or_null t.completed_at;
      failed_at = time_or_null t.failed_at;
      error_text = or_null t.error_text;
      last_event_at = get_last_event_timestamp id r.logs;
      registry_source = active;
      revisions = none;
    }

pub ledger_summary : Registries → AuditRow → TransferSummary
ledger_summary r row = record {
  transfer_id = row.transfer_id;
  operation_type = row.operation_type;
  export_id = or_null row.export_id;
  artifact_size_bytes = row.artifact_size_bytes;
  downloadable = false;
  platform_name = given_or (some row.platform_name) "Unknown";
  source_instance_id = row.source_instance_id;
  source_instance_name = row.source_instance_name;
  target_instance_id = row.target_instance_id;
  target_instance_name = row.target_instance_name;
  status = given_or (some row.status) "unknown";
  started_at =
      or_else (or_option (time_or_null row.started_at) (time_or_null (some row.saved_at))) r.now;
  completed_at = time_or_null row.completed_at;
  failed_at = time_or_null row.failed_at;
  error_text = or_null row.error_text;
  last_event_at = row.last_event_at;
  registry_source = persisted;
  revisions = some (or_else (get row.transfer_id r.audit_revisions) 0);
}

abbrev stamp_of : Option LogEvent → Option ℕ
stamp_of none = none
stamp_of (some e) = time_or_null (some e.timestamp_ms)

pub saved_summary : Registries → SavedLog → TransferSummary
saved_summary r l = record {
  transfer_id = l.transfer_id;
  operation_type = or_else l.info.operation_type "transfer";
  export_id = or_null l.info.export_id;
  artifact_size_bytes = l.info.artifact_size_bytes;
  downloadable = false;
  platform_name = given_or l.info.platform_name "Unknown";
  source_instance_id = or_else l.info.source_instance_id (negsuc 0);
  source_instance_name = l.info.source_instance_name;
  target_instance_id = or_else l.info.target_instance_id (negsuc 0);
  target_instance_name = l.info.target_instance_name;
  status = given_or l.info.status "unknown";
  started_at = or_else (or_option (time_or_null l.info.started_at) (time_or_null l.saved_at)) r.now;
  completed_at = time_or_null l.info.completed_at;
  failed_at = time_or_null l.info.failed_at;
  error_text = or_null l.info.error_text;
  last_event_at = stamp_of (get_last? l.events);
  registry_source = persisted;
  revisions = some (or_else (get l.transfer_id r.audit_revisions) 0);
}

-- The three loops that fill the map: the first one writes, the others only add what is missing.
abbrev pub Summaries : Type 0
Summaries = JsMap String TransferSummary

abbrev pub set_active : Registries → JsMap String ActiveTransfer → Summaries → Summaries
set_active r [] m = m
set_active r ((id, t) ∷ ts) m = set_active r ts (set id (active_summary r id t) m)

abbrev pub add_ledger : Registries → List AuditRow → Summaries → Summaries
add_ledger r [] m = m
add_ledger r (row ∷ rows) m =
    add_ledger r rows
      (if has row.transfer_id m then m else set row.transfer_id (ledger_summary r row) m)

abbrev pub add_saved : Registries → List SavedLog → Summaries → Summaries
add_saved r [] m = m
add_saved r (l ∷ ls) m =
    add_saved r ls (if has l.transfer_id m then m else set l.transfer_id (saved_summary r l) m)

unfoldable pub summaries_by_id : Registries → Summaries
unfolding active_summary ledger_summary saved_summary
summaries_by_id r =
    add_saved r r.persisted_logs (add_ledger r (values r.audit_index) (set_active r r.transfers []))

-- The export as it is stored now.
abbrev with_stored : Registries → TransferSummary → TransferSummary
with_stored r s =
    let e = stored_for r s.export_id in
    record s {
      artifact_size_bytes = or_option s.artifact_size_bytes (size_of e);
      downloadable = is_some e;
    }

abbrev pub later_start : TransferSummary → TransferSummary → Bool
later_start a b = ltb b.started_at a.started_at

unfoldable pub get_transfer_summaries : Registries → ℕ → List TransferSummary
unfolding summaries_by_id sort_by
get_transfer_summaries r limit =
    take limit (sort_by later_start (map (with_stored r) (values (summaries_by_id r))))

-- handleListTransactionLogsRequest: 50 where no limit is given, or 0.
unfoldable pub handle_list_transaction_logs_request : Registries → Option ℕ → List TransferSummary
unfolding get_transfer_summaries
handle_list_transaction_logs_request r limit =
    get_transfer_summaries r (or_else (time_or_null limit) 50)

-- Where the answer of handleGetTransactionLog is taken from.
pub data LogAnswer : Type 0 where
  no_logs : LogAnswer
  from_saved : SavedLog → LogAnswer
  from_memory : String → List LogEvent → Option ActiveTransfer → LogAnswer
  from_ledger : AuditRow → LogAnswer
  not_found : String → LogAnswer

abbrev latest_of : Option SavedLog → LogAnswer
latest_of none = no_logs
latest_of (some l) = from_saved l

abbrev ledger_or_none : String → Option AuditRow → LogAnswer
ledger_or_none id none = not_found id
ledger_or_none id (some row) = from_ledger row

abbrev saved_or_ledger : Registries → String → Option SavedLog → LogAnswer
saved_or_ledger r id none = ledger_or_none id (get id r.audit_index)
saved_or_ledger r id (some l) = from_saved l

abbrev memory_or_saved : Registries → String → Option (List LogEvent) → LogAnswer
memory_or_saved r id none = saved_or_ledger r id (find (λ l. l.transfer_id == id) r.persisted_logs)
memory_or_saved r id (some es) = from_memory id es (get id r.transfers)

unfoldable pub handle_get_transaction_log : Registries → Option String → LogAnswer
handle_get_transaction_log r none = latest_of (get_last? r.persisted_logs)
handle_get_transaction_log r (some id) =
    if is_empty id || id == "latest"
    then latest_of (get_last? r.persisted_logs)
    else memory_or_saved r id (get id r.logs)
