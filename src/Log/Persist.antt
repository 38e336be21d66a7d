-- ===== src/Log/Persist.antt =====
-- The detail store on disk: persistTransactionLog and loadTransactionLogs of
-- lib/transaction-logger.ts. The audit row that a persisted log records is the ledger's part.
pub mod Bounded
pub mod Damaged
use clusterio_surface_export.Prelude.{
  ℕ, String, Bool, true, false, Option, none, some, List, [], ◌∷◌, ◌==◌, string_eq, if◌then◌else◌,
  any, is_some,
}
use clusterio_surface_export.JsMap.{JsMap, get}
use clusterio_surface_export.Ledger.{AuditRow}
use clusterio_surface_export.Detail.{DetailEntry, apply_detail_retention}
use clusterio_surface_export.Log.{Logs, prune_transaction_logs_map}

-- What `fs.readFile` and `JSON.parse` find at the path of the store.
pub data StoredLogs : Type 0 where
  missing : StoredLogs
  unreadable : String → StoredLogs
  not_an_array : String → StoredLogs
  array : List DetailEntry → StoredLogs

pub record DetailStore : Type 0 where
  pub persisted : List DetailEntry
  pub logs : Logs
  pub load_error : Option String
  pub on_disk : StoredLogs

-- The entry replaces the first one of its id, or goes to the end.
pub upsert : DetailEntry → List DetailEntry → List DetailEntry
upsert entry [] = entry ∷ []
upsert entry (e ∷ es) =
    let rest = upsert entry es in
    if e.transfer_id == entry.transfer_id then entry ∷ es else e ∷ rest

-- The `writes` of the file may fail, which is caught.
abbrev written_if : Bool → List DetailEntry → StoredLogs → StoredLogs
written_if true es d = array es
written_if false es d = d

abbrev keep_entry :
    (DetailEntry → Bool)
    → Option ℕ
    → Bool
    → List String
    → JsMap String AuditRow
    → DetailEntry
    → DetailStore
    → DetailStore
keep_entry is_pinned configured writes active index entry s =
    let retained = apply_detail_retention is_pinned configured (upsert entry s.persisted) in
    record s {
      persisted = retained;
      logs = prune_transaction_logs_map active retained index s.logs;
      on_disk = written_if writes retained s.on_disk;
    }

-- persistTransactionLog, by the entry that it makes of the transfer. Without events, without an active
-- transfer, or after a failed load, nothing is kept.
pub persist_transaction_log :
    (DetailEntry → Bool)
    → Option ℕ
    → Bool
    → List String
    → JsMap String AuditRow
    → DetailEntry
    → DetailStore
    → DetailStore
persist_transaction_log is_pinned configured writes active index entry s =
    if is_some (get entry.transfer_id s.logs)
    then if any (λ a. a == entry.transfer_id) active
      then if is_some s.load_error
        then s
        else keep_entry is_pinned configured writes active index entry s
      else s
    else s

-- loadTransactionLogs; what kind of value stands in place of the array is left in its text
pub load_transaction_logs : StoredLogs → DetailStore → DetailStore
load_transaction_logs (array es) s = record s { persisted = es; load_error = none }
load_transaction_logs (not_an_array kind) s = record s { persisted = []; load_error = some kind }
load_transaction_logs missing s = record s { persisted = []; load_error = none }
load_transaction_logs (unreadable e) s = record s { load_error = some e }
