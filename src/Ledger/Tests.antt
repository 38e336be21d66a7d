-- ===== src/Ledger/Tests.antt =====
-- A small ledger on which the theorems about it run.
use clusterio_surface_export.Prelude.{
  ℕ, zero, suc, ◌≡◌, refl, true, false, none, some, List, [], ◌∷◌, length, or_else, string_eq,
}
use clusterio_surface_export.Prelude.Int.{pos}
use clusterio_surface_export.JsMap.{get}
use clusterio_surface_export.Ledger.{
  AuditRow, RowKind, start, terminal, TextUnits, fold_audit_rows, count_revisions,
}
use clusterio_surface_export.Ledger.Fold.{get-fold_audit_rows, get-count_revisions}
use clusterio_surface_export.Ledger.Rotation.{
  row_line, Files, RotationOptions, rotate_if_needed, append_audit_row, load_audit_ledger,
}
use clusterio_surface_export.Ledger.Rotation.Shift.{rotate_if_needed_at}
use clusterio_surface_export.Ledger.Rotation.Append.{load_audit_ledger-append_audit_row}
use clusterio_surface_export.Ledger.Index.{IndexState, load_audit_index, record_audit_row}
use clusterio_surface_export.Ledger.Index.Reload.{
  IsCurrent, load_audit_index-IsCurrent, record_audit_row-IsCurrent,
}

abbrev row_of : RowKind → ℕ → AuditRow
row_of k at = record {
  transfer_id = "1:7";
  row_kind = k;
  saved_at = at;
  operation_type = "transfer";
  platform_name = "Hauler";
  platform_index = none;
  source_instance_id = pos 1;
  source_instance_name = none;
  target_instance_id = pos 2;
  target_instance_name = none;
  export_id = none;
  artifact_size_bytes = none;
  status = "completed";
  started_at = none;
  completed_at = none;
  failed_at = none;
  last_event_at = none;
  event_count = 0;
  error_text = none;
  error_truncated = false;
}

abbrev three_rows : List AuditRow
three_rows = row_of start 1 ∷ row_of terminal 2 ∷ row_of start 3 ∷ []

get-fold_audit_rows_example : get "1:7" (fold_audit_rows three_rows) ≡ some (row_of terminal 2)
get-fold_audit_rows_example = get-fold_audit_rows "1:7" three_rows

revisions_of_first : or_else (get "1:7" (count_revisions three_rows)) 0 ≡ 1
revisions_of_first = get-count_revisions "1:7" three_rows

-- A ledger of one line, and a file of one line before it.
abbrev two_files : Files
two_files zero = some (row_line (row_of start 3) ∷ [])
two_files (suc zero) = some (row_line (row_of terminal 2) ∷ [])
two_files (suc (suc n)) = none

abbrev no_limit : RotationOptions
no_limit = record { max_bytes = 0; max_files = 1 }

abbrev one_line : RotationOptions
one_line = record { max_bytes = 1; max_files = 1 }

load_audit_ledger-append_audit_row_example :
    load_audit_ledger one_line (append_audit_row length one_line (row_of terminal 4) two_files)
    ≡ row_of start 3 ∷ row_of terminal 4 ∷ []
load_audit_ledger-append_audit_row_example =
    load_audit_ledger-append_audit_row length 1 0 (row_of terminal 4) two_files

abbrev plain_text : TextUnits
plain_text = record { units = λ s. 0; clip = λ n s. s }

index_loaded_once : IsCurrent no_limit (load_audit_index plain_text no_limit [] two_files)
index_loaded_once = load_audit_index-IsCurrent plain_text no_limit [] two_files

abbrev two_rows : List AuditRow
two_rows = row_of terminal 2 ∷ row_of start 3 ∷ []

abbrev loaded : IndexState
loaded = record {
  files = two_files;
  audit_index = fold_audit_rows two_rows;
  audit_revisions = count_revisions two_rows;
}

loaded-IsCurrent : IsCurrent no_limit loaded
unfolding load_audit_ledger
loaded-IsCurrent = record { index_current = refl; revisions_current = refl }

record_audit_row-IsCurrent_example :
    IsCurrent no_limit (record_audit_row length no_limit true (row_of terminal 4) loaded)
record_audit_row-IsCurrent_example =
    record_audit_row-IsCurrent length 0 0 true (row_of terminal 4) loaded refl loaded-IsCurrent

first_file_moved :
    rotate_if_needed length one_line two_files 1 ≡ some (row_line (row_of start 3) ∷ [])
first_file_moved = rotate_if_needed_at length 1 0 two_files 1
