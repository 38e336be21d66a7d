-- ===== src/Transfer/Verdict/Stored.antt =====
-- A record that has just been written survives the pruning: lib/transfer-orchestrator.ts,
-- pruneOldTransfers.
use clusterio_surface_export.Prelude.{
  ℕ, ◌+◌, ◌≤◌, ◌≡◌, refl, sym, ap, ◌∙◌, subst, String, none, some, [], ◌∷◌, ◌==◌, string_eq, arith,
  Bool-cases, inl, inr,
}
use clusterio_surface_export.JsMap.{JsMap, get, set, delete, KeysOnce, set-KeysOnce, get-set_self}
use clusterio_surface_export.Transfer.{ActiveTransfer}
use clusterio_surface_export.Transfer.World.{World}
use clusterio_surface_export.Transfer.Verdict.{prune_old_transfers}
use clusterio_surface_export.Transfer.Verdict.Retained.{started_since, get-prune_old_transfers}

-- Ids are keys of one record each, and fewer than a hundred records under other ids started at this
-- time or later.
abbrev pub HasRoom : String → ℕ → JsMap String ActiveTransfer → Type 0
HasRoom k at m = KeysOnce m × (started_since at (delete k m) ≤ 99)

delete-absent : (k : String) (m : JsMap String ActiveTransfer) → get k m ≡ none → delete k m ≡ m
delete-absent k [] h = refl
delete-absent k ((j, x) ∷ m) h = elim (Bool-cases (j == k)) [
  | inl same ↦ ground (arith, h, same)
  | inr other ↦ rw other (ap (λ r. (j, x) ∷ r) (delete-absent k m (ground (arith, h, other))))
]

delete-set :
    (k : String) (t : ActiveTransfer) (m : JsMap String ActiveTransfer)
    → delete k (set k t m) ≡ delete k m
delete-set k t [] = ground (arith, string_eq.same_iff k k)
delete-set k t ((j, x) ∷ m) = elim (Bool-cases (j == k)) [
  | inl same ↦ rw same (rw same refl)
  | inr other ↦ rw other (rw other (ap (λ r. (j, x) ∷ r) (delete-set k t m)))
]

started_since-set_le :
    (at : ℕ) (k : String) (t : ActiveTransfer) (m : JsMap String ActiveTransfer)
    → KeysOnce m
    → started_since at (set k t m) ≤ started_since at (delete k m) + 1
started_since-set_le at k t [] once = ground arith
started_since-set_le at k t ((j, x) ∷ m) (fresh, once) = elim (Bool-cases (j == k)) [
  | inl same ↦
      let key : j ≡ k = (string_eq.same_iff j k).0 same in
      let gone = delete-absent k m (ap (λ i. get i m) (sym key) ∙ fresh) in
      let count = ap (started_since at) gone in rw same (ground (arith, count))
  | inr other ↦ let rest = started_since-set_le at k t m once in rw other (omega (arith, rest))
]

pub HasRoom-set :
    (k : String) (at : ℕ) (t : ActiveTransfer) (m : JsMap String ActiveTransfer)
    → HasRoom k at m
    → HasRoom k at (set k t m)
HasRoom-set k at t m (once, few) =
    (set-KeysOnce k t m once, omega (arith, few, ap (started_since at) (delete-set k t m)))

pub get-stored :
    (k : String) (at : ℕ) (t : ActiveTransfer) (w u : World)
    → HasRoom k at w.transfers
    → t.started_at ≡ at
    → u.transfers ≡ set k t w.transfers
    → get k (prune_old_transfers u).transfers ≡ some t
get-stored k at t w u (once, few) start written =
    let count : started_since t.started_at u.transfers ≤ 100 = omega (
      arith,
      few,
      ap (λ n. started_since n u.transfers) start,
      ap (started_since at) written,
      started_since-set_le at k t w.transfers once,
    ) in
    get-prune_old_transfers k t u (subst KeysOnce (sym written) (set-KeysOnce k t w.transfers once))
      (ap (get k) written ∙ get-set_self k t w.transfers) count
