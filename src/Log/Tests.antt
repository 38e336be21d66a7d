-- ===== src/Log/Tests.antt =====
-- A log with two events of one transfer.
use clusterio_surface_export.Prelude.{
  ℕ, String, ◌≡◌, refl, arith, Bool, true, false, Option, none, some, List, [], ◌∷◌, string_eq,
}
use clusterio_surface_export.Prelude.Int.{pos}
use clusterio_surface_export.JsMap.{get}
use clusterio_surface_export.Log.{
  Logs, events_of, log_transaction_event, prune_transaction_logs_map,
}
use clusterio_surface_export.Detail.{DetailEntry}
use clusterio_surface_export.Log.Persist.{
  StoredLogs, missing, unreadable, DetailStore, persist_transaction_log, load_transaction_logs,
}
use clusterio_surface_export.Log.Persist.Bounded.{IsBounded, persist_transaction_log-IsBounded}
use clusterio_surface_export.Log.Persist.Damaged.{persist_all, damaged_file_kept}
use clusterio_surface_export.Log.Times.{IsTimed, log_transaction_event-IsTimed}
use clusterio_surface_export.Log.Reach.{get-prune_transaction_logs_map}

abbrev one_event : Logs
one_event =
    (
      "1:7",
      record { timestamp_ms = 12; elapsed_ms = pos 2; delta_ms = pos 0; event_type = "created" }
          ∷ [],
    )
    ∷ []

one_event_logged :
    let logs = log_transaction_event 15 (some 10) "1:7" "import_started" one_event in
    IsTimed 10 (events_of "1:7" logs) × (events_of "2:9" logs ≡ [])
unfolding clusterio_surface_export.Prelude.Int.◌-ℤ◌
one_event_logged =
    log_transaction_event-IsTimed 15 10 "1:7" "import_started" one_event "2:9"
      ((refl, tt), (refl, tt)) refl

old_log_pruned : get "1:7" (prune_transaction_logs_map ("2:9" ∷ []) [] [] one_event) ≡ none
old_log_pruned = get-prune_transaction_logs_map ("2:9" ∷ []) [] [] one_event "1:7"

abbrev entry : ℕ → DetailEntry
entry n = record {
  identity = n;
  transfer_id = "1:7";
  saved_at = some n;
  started_at = none;
  status = "failed";
}

abbrev store_with : StoredLogs → DetailStore
store_with d = record { persisted = entry 1 ∷ []; logs = one_event; load_error = none; on_disk = d }

persist_transaction_log-IsBounded_example :
    IsBounded
      (some 20)
      (persist_transaction_log
        (λ e. false)
        (some 20)
        true
        ("1:7" ∷ [])
        []
        (entry 2)
        (store_with missing)).persisted
persist_transaction_log-IsBounded_example =
    persist_transaction_log-IsBounded (λ e. false) (some 20) true ("1:7" ∷ []) [] (entry 2)
      (store_with missing) refl ((refl, tt), omega arith)

damaged_file_kept_example :
    (persist_all
      (λ e. false)
      (some 20)
      ("1:7" ∷ [])
      []
      (entry 2 ∷ [])
      (load_transaction_logs (unreadable "EIO") (store_with (unreadable "EIO")))).on_disk
    ≡ unreadable "EIO"
damaged_file_kept_example =
    damaged_file_kept (λ e. false) (some 20) ("1:7" ∷ []) [] (entry 2 ∷ [])
      (store_with (unreadable "EIO")) refl
