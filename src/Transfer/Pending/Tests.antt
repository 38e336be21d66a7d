-- ===== src/Transfer/Pending/Tests.antt =====
-- An intent that is stored while another one has become stale.
use clusterio_surface_export.Prelude.{
  ℕ, String, ◌+◌, ◌≡◌, refl, true, none, some, [], ◌∷◌, string_eq,
}
use clusterio_surface_export.Prelude.Int.{pos}
use clusterio_surface_export.JsMap.{get}
use clusterio_surface_export.Transfer.{PendingIntent}
use clusterio_surface_export.Transfer.Pending.{pending_transfer_intent_retention_ms}
use clusterio_surface_export.Transfer.Pending.Restart.{
  PendingStore, missing, store_pending_transfer, load_pending_transfers, get-load_pending_transfers,
}

abbrev intent_of : String → ℕ → PendingIntent
intent_of id started = record {
  transfer_id = id;
  source_instance_id = pos 1;
  source_platform_index = 2;
  source_platform_name = "Hauler";
  force_name = "player";
  target_instance_id = pos 2;
  started_at = started;
  export_id = none;
}

abbrev one_old : PendingStore
one_old = record { pending = ("old", intent_of "old" 0) ∷ []; on_disk = missing }

abbrev stored_at : ℕ
stored_at = pending_transfer_intent_retention_ms + 1

abbrev loaded_at : ℕ
loaded_at = pending_transfer_intent_retention_ms + 9

get-load_pending_transfers_example :
    get "new"
      (load_pending_transfers loaded_at true (record {
        pending = [];
        on_disk = (store_pending_transfer stored_at true (intent_of "new" 9) one_old).on_disk;
      })).pending
    ≡ some (intent_of "new" 9)
get-load_pending_transfers_example =
    get-load_pending_transfers stored_at loaded_at true (intent_of "new" 9) one_old "new"
      ((refl, tt), (refl, tt))

-- The stale one is dropped, though it was in the map when the other one was stored.
old_is_dropped :
    get "old"
      (load_pending_transfers loaded_at true (record {
        pending = [];
        on_disk = (store_pending_transfer stored_at true (intent_of "new" 9) one_old).on_disk;
      })).pending
    ≡ none
old_is_dropped =
    get-load_pending_transfers stored_at loaded_at true (intent_of "new" 9) one_old "old"
      ((refl, tt), (refl, tt))
