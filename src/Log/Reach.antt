-- ===== src/Log/Reach.antt =====
-- Which logs stay in memory: lib/transaction-logger.ts, pruneTransactionLogsMap.
use text.Mathlib.TextEquality.{eq_iff}
use clusterio_surface_export.Prelude.{
  String, ◌≡◌, refl, ap, Bool, not, ◌&&◌, none, List, [], ◌∷◌, ◌==◌, string_eq, if◌then◌else◌, any,
  filter, arith, Bool-cases, inl, inr,
}
use clusterio_surface_export.JsMap.{JsMap, get, has, delete, keys, get-delete}
use clusterio_surface_export.Ledger.{AuditRow}
use clusterio_surface_export.Detail.{DetailEntry}
use clusterio_surface_export.Log.{Logs, is_reachable, delete_each, prune_transaction_logs_map}

get-delete_each :
    (ks : List String) (m : Logs) (id : String)
    → get id (delete_each ks m) ≡ (if any (λ k. k == id) ks then none else get id m)
get-delete_each [] m id = refl
get-delete_each (k ∷ ks) m id =
    ground (arith, get-delete_each ks (delete k m) id, get-delete k id m)

any-keys :
    (keep : String → Bool) (m : Logs) (id : String)
    → any (λ k. k == id) (filter (λ k. not (keep k)) (keys m)) ≡ has id m && not (keep id)
any-keys keep [] id = refl
any-keys keep ((k, es) ∷ m) id = elim (Bool-cases (k == id)) [
  | inl e ↦ let same = (eq_iff k id).0 e in ground (arith, any-keys keep m id, ap keep same)
  | inr e ↦ ground (arith, any-keys keep m id)
]

-- Pruning keeps the whole log of every id that is reachable - active, retained, or started and not
-- ended - and drops every other.
pub get-prune_transaction_logs_map :
    (active : List String) (retained : List DetailEntry) (index : JsMap String AuditRow)
    (logs : Logs) (id : String)
    → get id (prune_transaction_logs_map active retained index logs)
      ≡ (if is_reachable active retained index id then get id logs else none)
unfolding prune_transaction_logs_map
get-prune_transaction_logs_map active retained index logs id =
    let keep = is_reachable active retained index in
    ground (
      arith,
      get-delete_each (filter (λ k. not (keep k)) (keys logs)) logs id,
      any-keys keep logs id,
    )
