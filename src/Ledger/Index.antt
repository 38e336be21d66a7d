-- ===== src/Ledger/Index.antt =====
-- The controller's index of the audit ledger: loadAuditIndex, migrateAuditLedger and recordAuditRow
-- of controller.ts.
pub mod Reload
use clusterio_surface_export.Prelude.{
  ℕ, zero, suc, ◌+◌, String, ◌≡◌, Bool, true, false, Option, none, some, List, [], ◌∷◌, or_else,
  length, map, get_last?, if◌then◌else◌, eqb, ltb, leb,
}
use clusterio_surface_export.Prelude.Sort.{sort_by}
use clusterio_surface_export.JsMap.{JsMap}
use clusterio_surface_export.Ledger.{
  AuditRow, RowInfo, RowInput, terminal, TextUnits, build_audit_row, fold_row, fold_audit_rows,
  count_row, count_revisions,
}
use clusterio_surface_export.Ledger.Rotation.{
  Line, row_line, File, Files, write_path, RotationOptions, rotate_if_needed, append_audit_row,
  load_audit_ledger,
}

-- PersistedTransactionLog, with the time of each event; no list of events is none.
pub record PersistedLog : Type 0 where
  pub transfer_id : String
  pub saved_at : Option ℕ
  pub event_times : Option (List (Option ℕ))
  pub transfer_info : RowInfo

pub record IndexState : Type 0 where
  pub files : Files
  pub audit_index : JsMap String AuditRow
  pub audit_revisions : JsMap String ℕ

saved_at_or_0 : PersistedLog → ℕ
saved_at_or_0 log = or_else log.saved_at 0

last_time : Option (Option ℕ) → Option ℕ
last_time none = none
last_time (some t) = t

migrated_input : PersistedLog → RowInput
unfolding saved_at_or_0 last_time
migrated_input log =
    let events = or_else log.event_times [] in
    record {
      transfer_id = log.transfer_id;
      row_kind = terminal;
      saved_at = saved_at_or_0 log;
      event_count = length events;
      last_event_at = last_time (get_last? events);
      info = log.transfer_info;
    }

-- migrateAuditLedger: its rows, oldest first, which it also writes as the whole ledger
pub migrated_rows : TextUnits → List PersistedLog → List AuditRow
unfolding saved_at_or_0
migrated_rows u logs =
    map (λ log. build_audit_row u (migrated_input log))
      (sort_by (λ a b. ltb (saved_at_or_0 a) (saved_at_or_0 b)) logs)

abbrev index_of : Files → List AuditRow → IndexState
index_of fs rows = record {
  files = fs;
  audit_index = fold_audit_rows rows;
  audit_revisions = count_revisions rows;
}

-- The rest of loadAuditIndex, by the rows it loaded and the persisted logs.
index_loaded : TextUnits → List PersistedLog → List AuditRow → Files → IndexState
index_loaded u [] rows fs = index_of fs rows
index_loaded u logs (row ∷ rows) fs = index_of fs (row ∷ rows)
index_loaded u (log ∷ logs) [] fs =
    let rows = migrated_rows u (log ∷ logs) in
    index_of (write_path 0 (some (map row_line rows)) fs) rows

-- loadAuditIndex, where the files can be read and written
pub load_audit_index : TextUnits → RotationOptions → List PersistedLog → Files → IndexState
unfolding index_loaded
load_audit_index u o logs fs = index_loaded u logs (load_audit_ledger o fs) fs

-- recordAuditRow; `written` tells whether the append to the ledger succeeds. Where it does not, the
-- rotation before it may have been done.
pub record_audit_row : (File → ℕ) → RotationOptions → Bool → AuditRow → IndexState → IndexState
record_audit_row size o false row s = record {
  files = rotate_if_needed size o s.files;
  audit_index = s.audit_index;
  audit_revisions = s.audit_revisions;
}
record_audit_row size o true row s = record {
  files = append_audit_row size o row s.files;
  audit_index = fold_row s.audit_index row;
  audit_revisions = count_row s.audit_revisions row;
}
