-- ===== src/Ledger.antt =====
-- The audit ledger: lib/audit-ledger.ts, and the index that controller.ts keeps of it. A file is its
-- lines, oldest first; a line is an audit row, blank, or damaged. JSON.stringify and JSON.parse
-- undo one another on a row, so a row that is written is a row that is read.
pub mod Fold
pub mod Index
pub mod Rotation
mod Tests
use clusterio_surface_export.Prelude.{
  ℕ, suc, String, ◌+◌, ◌≡◌, refl, Bool, true, false, ◌&&◌, Option, none, some, List, [], ◌∷◌, ◌++◌,
  or_else, string_eq, ltb, if◌then◌else◌, given_or,
}
use clusterio_surface_export.Prelude.Int.{ℤ, negsuc}
use clusterio_surface_export.JsMap.{JsMap, get, set}

pub data RowKind : Type 0 where
  start terminal : RowKind

-- A text and how many UTF-16 units it has; `slice` is `text.slice(0, n)`.
pub record TextUnits : Type 0 where
  pub units : String → ℕ
  pub clip : ℕ → String → String

pub record AuditRow : Type 0 where
  pub transfer_id : String
  pub row_kind : RowKind
  pub saved_at : ℕ
  pub operation_type : String
  pub platform_name : String
  pub platform_index : Option ℕ
  pub source_instance_id : ℤ
  pub source_instance_name : Option String
  pub target_instance_id : ℤ
  pub target_instance_name : Option String
  pub export_id : Option String
  pub artifact_size_bytes : Option ℕ
  pub status : String
  pub started_at : Option ℕ
  pub completed_at : Option ℕ
  pub failed_at : Option ℕ
  pub last_event_at : Option ℕ
  pub event_count : ℕ
  pub error_text : Option String
  pub error_truncated : Bool

-- RowInput and its `info`; a missing or null field is none.
pub record RowInfo : Type 0 where
  pub operation_type : Option String
  pub platform_name : Option String
  pub platform_index : Option ℕ
  pub source_instance_id : Option ℤ
  pub source_instance_name : Option String
  pub target_instance_id : Option ℤ
  pub target_instance_name : Option String
  pub export_id : Option String
  pub artifact_size_bytes : Option ℕ
  pub status : Option String
  pub started_at : Option ℕ
  pub completed_at : Option ℕ
  pub failed_at : Option ℕ
  pub error_text : Option String

pub record RowInput : Type 0 where
  pub transfer_id : String
  pub row_kind : RowKind
  pub saved_at : ℕ
  pub event_count : ℕ
  pub last_event_at : Option ℕ
  pub info : RowInfo

abbrev audit_error_max_chars : ℕ
audit_error_max_chars = 512

is_truncated : TextUnits → Option String → Bool
is_truncated u none = false
is_truncated u (some e) = ltb audit_error_max_chars (u.units e)

clipped : TextUnits → Bool → Option String → Option String
clipped u true (some e) = some (Prim.Native.String.◌++◌ (u.clip audit_error_max_chars e) "…")
clipped u _ e = e

-- buildAuditRow; its version field, a constant, is left out.
unfoldable pub build_audit_row : TextUnits → RowInput → AuditRow
unfolding is_truncated clipped
build_audit_row u i = record {
  transfer_id = i.transfer_id;
  row_kind = i.row_kind;
  saved_at = i.saved_at;
  operation_type = given_or i.info.operation_type "transfer";
  platform_name = given_or i.info.platform_name "Unknown";
  platform_index = i.info.platform_index;
  source_instance_id = or_else i.info.source_instance_id (negsuc 0);
  source_instance_name = i.info.source_instance_name;
  target_instance_id = or_else i.info.target_instance_id (negsuc 0);
  target_instance_name = i.info.target_instance_name;
  export_id = i.info.export_id;
  artifact_size_bytes = i.info.artifact_size_bytes;
  status = given_or i.info.status "unknown";
  started_at = i.info.started_at;
  completed_at = i.info.completed_at;
  failed_at = i.info.failed_at;
  last_event_at = i.last_event_at;
  event_count = i.event_count;
  error_text = clipped u (is_truncated u i.info.error_text) i.info.error_text;
  error_truncated = is_truncated u i.info.error_text;
}

abbrev pub is_terminal : RowKind → Bool
is_terminal terminal = true
is_terminal start = false

abbrev keeps_terminal : Option AuditRow → AuditRow → Bool
keeps_terminal none row = false
keeps_terminal (some old) row =
    is_terminal old.row_kind && (if is_terminal row.row_kind then false else true)

-- One round of foldAuditRows: a start never replaces a terminal row.
unfoldable pub fold_row : JsMap String AuditRow → AuditRow → JsMap String AuditRow
fold_row m row = if keeps_terminal (get row.transfer_id m) row then m else set row.transfer_id row m

pub fold_from : JsMap String AuditRow → List AuditRow → JsMap String AuditRow
fold_from m [] = m
fold_from m (row ∷ rows) = fold_from (fold_row m row) rows

-- foldAuditRows
unfoldable pub fold_audit_rows : List AuditRow → JsMap String AuditRow
unfolding fold_from
fold_audit_rows rows = fold_from [] rows

unfoldable pub count_row : JsMap String ℕ → AuditRow → JsMap String ℕ
count_row m row =
    if is_terminal row.row_kind
    then set row.transfer_id (or_else (get row.transfer_id m) 0 + 1) m
    else m

pub count_from : JsMap String ℕ → List AuditRow → JsMap String ℕ
count_from m [] = m
count_from m (row ∷ rows) = count_from (count_row m row) rows

-- countRevisions
unfoldable pub count_revisions : List AuditRow → JsMap String ℕ
unfolding count_from
count_revisions rows = count_from [] rows
