-- ===== src/Transfer/Pending.antt =====
-- controller.ts: the pending transfer intents, persistPendingTransfer, removePendingTransfer and
-- prunePendingTransfersInMemory. Start times are whole numbers, so the test for a finite one passes.
pub mod Restart
mod Tests
use clusterio_surface_export.Prelude.{
  ℕ, String, Bool, ◌*◌, ◌+◌, [], ◌∷◌, ltb, string_eq, if◌then◌else◌,
}
use clusterio_surface_export.JsMap.{JsMap, set}
use clusterio_surface_export.Transfer.{PendingIntent}

abbrev pub pending_transfer_intent_retention_ms : ℕ
pending_transfer_intent_retention_ms = 15 * 60 * 1000

-- `now - startedAt > retention`, on integers
abbrev pub is_stale : ℕ → PendingIntent → Bool
is_stale at i = ltb (i.started_at + pending_transfer_intent_retention_ms) at

-- The intents that stay, and how many went.
unfoldable pub prune_pending : ℕ → JsMap String PendingIntent → JsMap String PendingIntent × ℕ
prune_pending at [] = ([], 0)
prune_pending at ((k, i) ∷ m) =
    let (kept, pruned) = prune_pending at m in
    if is_stale at i then (kept, pruned + 1) else ((k, i) ∷ kept, pruned)

unfoldable pub persist_pending_transfer :
    ℕ → PendingIntent → JsMap String PendingIntent → JsMap String PendingIntent
unfolding prune_pending
persist_pending_transfer at i m = set i.transfer_id i (prune_pending at m).0
