-- ===== src/Log.antt =====
-- The transaction log in memory: logTransactionEvent, getLastEventTimestamp,
-- archiveRecycledTransferId and pruneTransactionLogsMap of lib/transaction-logger.ts. An event keeps
-- its times and its type; its message and its data are left out.
pub mod Persist
pub mod Reach
pub mod Times
mod Tests
use clusterio_surface_export.Prelude.{
  ℕ, String, Bool, true, false, not, ◌&&◌, ◌||◌, Option, none, some, List, [], ◌∷◌, ◌++◌, ◌==◌,
  string_eq, eqb, if◌then◌else◌, any, filter, find, get_last?, or_else, map, concat,
}
use clusterio_surface_export.Prelude.Int.{ℤ, pos, ◌-ℤ◌}
use clusterio_surface_export.JsMap.{JsMap, get, has, set, delete, keys, values}
use clusterio_surface_export.Ledger.{AuditRow, is_terminal}
use clusterio_surface_export.Detail.{DetailEntry}

pub record LogEvent : Type 0 where
  pub timestamp_ms : ℕ
  pub elapsed_ms : ℤ
  pub delta_ms : ℤ
  pub event_type : String

abbrev pub Logs : Type 0
Logs = JsMap String (List LogEvent)

abbrev pub events_of : String → Logs → List LogEvent
events_of id logs = or_else (get id logs) []

-- `now - startedAt`, or 0 where the transfer or its start is missing or 0
abbrev pub since : ℕ → Option ℕ → ℤ
since at none = pos 0
since at (some t) = if eqb t 0 then pos 0 else pos at -ℤ pos t

abbrev pub time_of : Option LogEvent → Option ℕ
time_of none = none
time_of (some e) = some e.timestamp_ms

-- logTransactionEvent: `at` is the time, `started` the start of the active transfer of that id.
pub log_transaction_event : ℕ → Option ℕ → String → String → Logs → Logs
log_transaction_event at started id event_type logs =
    let events = events_of id logs in
    let e : LogEvent = record {
      timestamp_ms = at;
      elapsed_ms = since at started;
      delta_ms = since at (time_of (get_last? events));
      event_type = event_type;
    } in
    set id (events ++ e ∷ []) logs

-- `a || null` on a time
abbrev time_or_none : Option ℕ → Option ℕ
time_or_none none = none
time_or_none (some t) = if eqb t 0 then none else some t

pub get_last_event_timestamp : String → Logs → Option ℕ
get_last_event_timestamp id logs = time_or_none (time_of (get_last? (events_of id logs)))

-- The ids that pruneTransactionLogsMap keeps: of active transfers, of retained entries, and of transfers
-- that the ledger knows to have started and not to have ended.
abbrev pub is_reachable : List String → List DetailEntry → JsMap String AuditRow → String → Bool
is_reachable active retained index id =
    any (λ a. a == id) active
    || (any (λ e. e.transfer_id == id) retained
        || any (λ row. row.transfer_id == id)
            (filter (λ row. not (is_terminal row.row_kind)) (values index)))

abbrev delete_each : List String → Logs → Logs
delete_each [] m = m
delete_each (k ∷ ks) m = delete_each ks (delete k m)

pub prune_transaction_logs_map :
    List String → List DetailEntry → JsMap String AuditRow → Logs → Logs
prune_transaction_logs_map active retained index logs =
    delete_each (filter (λ id. not (is_reachable active retained index id)) (keys logs)) logs

-- The persisted entries after archiveRecycledTransferId: the first entry of that id takes the id with
-- its time of saving behind it. `write` is `String(n)`.
abbrev archival_id : (ℕ → String) → ℕ → DetailEntry → String
archival_id write at e =
    concat e.transfer_id (concat "@" (write (or_else (time_or_none e.saved_at) at)))

abbrev rename_first : (ℕ → String) → ℕ → String → List DetailEntry → List DetailEntry
rename_first write at id [] = []
rename_first write at id (e ∷ es) =
    let rest = rename_first write at id es in
    if e.transfer_id == id then record e { transfer_id = archival_id write at e } ∷ es else e ∷ rest

abbrev same_start : Option ℕ → Option ℕ → Bool
same_start (some a) (some b) = eqb a b
same_start _ _ = false

-- Whether an entry is of the operation that is starting: its start is the same, or none is given.
abbrev is_same_operation : Option ℕ → Option DetailEntry → Bool
is_same_operation started none = false
is_same_operation started (some e) =
    same_start (time_or_none started) e.started_at || is_no_start (time_or_none started)
  where
    is_no_start : Option ℕ → Bool
    is_no_start none = true
    is_no_start (some t) = false

-- archiveRecycledTransferId, but for the audit row of the entry under its new id
pub archive_recycled_transfer_id :
    (ℕ → String) → ℕ → String → Option ℕ → List DetailEntry × Logs → List DetailEntry × Logs
archive_recycled_transfer_id write at id started (entries, logs) =
    if is_same_operation started (find (λ e. e.transfer_id == id) entries)
    then (entries, logs)
    else (rename_first write at id entries, delete id logs)
