-- ===== src/LogView/Tests.antt =====
-- A transfer that all three registries know, and one that is only in the ledger.
use clusterio_surface_export.Prelude.{
  String, ◌≡◌, refl, none, some, [], ◌∷◌, find, or_option, string_eq, ◌==◌, false,
}
use clusterio_surface_export.Prelude.Int.{pos, int_eq}
use clusterio_surface_export.JsMap.{get, values}
use clusterio_surface_export.Transfer.{transporting}
use clusterio_surface_export.Transfer.Tests.{ship, two_instances}
use clusterio_surface_export.Ledger.{AuditRow, terminal, RowInfo}
use clusterio_surface_export.LogView.{
  SavedLog, Registries, summaries_by_id, handle_get_transaction_log, from_ledger,
}
use clusterio_surface_export.LogView.Merged.{of_active, of_ledger, of_saved, get-summaries_by_id}

abbrev no_info : RowInfo
no_info = record {
  operation_type = none;
  platform_name = none;
  platform_index = none;
  source_instance_id = none;
  source_instance_name = none;
  target_instance_id = none;
  target_instance_name = none;
  export_id = none;
  artifact_size_bytes = none;
  status = none;
  started_at = none;
  completed_at = none;
  failed_at = none;
  error_text = none;
}

abbrev row_of : String → AuditRow
row_of id = record {
  transfer_id = id;
  row_kind = terminal;
  saved_at = 5;
  operation_type = "transfer";
  platform_name = "Hauler";
  platform_index = some 4;
  source_instance_id = pos 1;
  source_instance_name = none;
  target_instance_id = pos 2;
  target_instance_name = none;
  export_id = none;
  artifact_size_bytes = none;
  status = "completed";
  started_at = some 1;
  completed_at = some 5;
  failed_at = none;
  last_event_at = some 5;
  event_count = 2;
  error_text = none;
  error_truncated = false;
}

abbrev saved_log : SavedLog
saved_log = record { transfer_id = "11:7"; saved_at = some 3; info = no_info; events = [] }

abbrev registries : Registries
registries = record {
  cluster = two_instances;
  transfers = ("11:7", ship transporting) ∷ [];
  audit_index = ("11:7", row_of "11:7") ∷ ("11:6", row_of "11:6") ∷ [];
  audit_revisions = [];
  persisted_logs = saved_log ∷ [];
  logs = [];
  storage = [];
  now = 9;
  payload_size = λ t. none;
}

get-summaries_by_id_example :
    get "11:7" (summaries_by_id registries)
    ≡ or_option
        (or_option (of_active registries "11:7" (get "11:7" registries.transfers)) (
          of_ledger registries
            (find (λ row. row.transfer_id == "11:7") (values registries.audit_index))))
        (of_saved registries (find (λ l. l.transfer_id == "11:7") registries.persisted_logs))
get-summaries_by_id_example = get-summaries_by_id registries "11:7" (refl, tt)

ledger_answers : handle_get_transaction_log registries (some "11:6") ≡ from_ledger (row_of "11:6")
unfolding handle_get_transaction_log
ledger_answers = refl
