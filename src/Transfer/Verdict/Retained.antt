-- ===== src/Transfer/Verdict/Retained.antt =====
-- Which records pruning keeps: lib/transfer-orchestrator.ts, pruneOldTransfers.
use clusterio_surface_export.Prelude.{
  ℕ, zero, suc, ◌≤◌, ◌<◌, ◌≡◌, refl, sym, ap, ◌∙◌, String, Bool, true, false, some, [], ◌∷◌, ◌==◌,
  string_eq, arith, Bool-cases, inl, inr, length, drop, map, sum, leb, All, if◌then◌else◌,
}
use clusterio_surface_export.Prelude.Sort.{
  sort_by, IsOrdered, sort_by-IsOrdered, All-sort_by, sum-sort_by,
}
use clusterio_surface_export.JsMap.{
  delete-KeysOnce, JsMap, get, delete, get-delete, KeysOnce, IsFound, IsFound-self,
}
use clusterio_surface_export.Transfer.{ActiveTransfer}
use clusterio_surface_export.Transfer.World.{World}
use clusterio_surface_export.Transfer.Verdict.{
  newer, delete_all, prune_old_transfers, max_active_transfers,
}

abbrev Records : Type 0
Records = JsMap String ActiveTransfer

abbrev one_from : ℕ → String × ActiveTransfer → ℕ
one_from at p = if leb at p.1.started_at then 1 else 0

-- How many records started at a time or later.
abbrev pub started_since : ℕ → Records → ℕ
started_since at m = sum (map (one_from at) m)

abbrev holds_key : String → Records → Bool
holds_key k [] = false
holds_key k ((j, t) ∷ m) = let rest = holds_key k m in if j == k then true else rest

-- Every entry under the key started at this time.
abbrev StartsAt : String → ℕ → Records → Type 0
StartsAt k at m = All (λ p. p.0 == k ≡ true → p.1.started_at ≡ at) m

get-delete_all :
    (k : String) (xs m : Records) → holds_key k xs ≡ false → get k (delete_all xs m) ≡ get k m
get-delete_all k [] m h = refl
get-delete_all k ((j, t) ∷ xs) m h = elim (Bool-cases (j == k)) [
  | inl same ↦ ground (arith, h, same)
  | inr other ↦
      get-delete_all k xs (delete j m) (ground (arith, h, other))
      ∙ ground (arith, get-delete j k m, other)
]

kept-delete_all :
    (k : String) (xs m : Records) (t : ActiveTransfer)
    → get k (delete_all xs m) ≡ some t
    → get k m ≡ some t
kept-delete_all k [] m t h = h
kept-delete_all k ((j, u) ∷ xs) m t h =
    ground (arith, kept-delete_all k xs (delete j m) t h, get-delete j k m)

held-since :
    (k : String) (at : ℕ) (xs : Records)
    → StartsAt k at xs
    → holds_key k xs ≡ true
    → 0 < started_since at xs
held-since k at [] s h = cc
held-since k at ((j, t) ∷ xs) (here, s) h = elim (Bool-cases (j == k)) [
  | inl same ↦ ground (arith, here same)
  | inr other ↦ omega (arith, held-since k at xs s (ground (arith, h, other)))
]

held-drop :
    (n : ℕ) (k : String) (xs : Records) → holds_key k (drop n xs) ≡ true → holds_key k xs ≡ true
held-drop zero k xs h = h
held-drop (suc n) k [] h = h
held-drop (suc n) k ((j, t) ∷ xs) h = ground (arith, held-drop n k xs h)

held-before :
    (k : String) (at : ℕ) (x : String × ActiveTransfer) (xs : Records)
    → All (λ y. newer y x ≡ false) xs
    → StartsAt k at xs
    → holds_key k xs ≡ true
    → at ≤ x.1.started_at
held-before k at x [] o s h = cc
held-before k at x ((j, t) ∷ xs) (first, o) (here, s) h = elim (Bool-cases (j == k)) [
  | inl same ↦ ground (arith, here same, first)
  | inr other ↦ held-before k at x xs o s (ground (arith, h, other))
]

-- In order, a record is among the last ones only behind all that started no earlier.
holds_key-drop :
    (n : ℕ) (k : String) (at : ℕ) (xs : Records)
    → IsOrdered newer xs
    → StartsAt k at xs
    → holds_key k (drop n xs) ≡ true
    → n < started_since at xs
holds_key-drop zero k at xs o s h = held-since k at xs s h
holds_key-drop (suc n) k at [] o s h = cc
holds_key-drop (suc n) k at (x ∷ xs) (first, o) (here, s) h =
    let before = held-before k at x xs first s (held-drop n k xs h) in
    ground (arith, before, holds_key-drop n k at xs o s h)

StartsAt-found :
    (k : String) (t : ActiveTransfer) (whole m : Records)
    → IsFound whole m
    → get k whole ≡ some t
    → StartsAt k t.started_at m
StartsAt-found k t whole [] f found = tt
StartsAt-found k t whole ((j, u) ∷ m) (here, f) found = (
  λ same.
      let there : get k whole ≡ some u =
        ap (λ i. get i whole) (sym ((string_eq.same_iff j k).0 same)) ∙ here in
      let one : u ≡ t = ground (arith, there, found) in ap (λ r. r.started_at) one,
  StartsAt-found k t whole m f found,
)

newer-IsOrdered : (m : Records) → IsOrdered newer (sort_by newer m)
newer-IsOrdered m =
    sort_by-IsOrdered newer (λ x y h. ground (arith, h)) (λ x y z h h'. ground (arith, h, h')) m

-- A record is kept where at most a hundred records, itself among them, started no earlier.
pub get-prune_old_transfers :
    (k : String) (t : ActiveTransfer) (w : World)
    → KeysOnce w.transfers
    → get k w.transfers ≡ some t
    → started_since t.started_at w.transfers ≤ 100
    → get k (prune_old_transfers w).transfers ≡ some t
unfolding prune_old_transfers
get-prune_old_transfers k t w once found few =
    elim (Bool-cases (leb (length w.transfers) max_active_transfers)) [
      | inl small ↦ rw small found
      | inr large ↦
          let m = w.transfers in
          let sorted = sort_by newer m in
          let starts =
            All-sort_by newer (λ p. p.0 == k ≡ true → p.1.started_at ≡ t.started_at) m
              (StartsAt-found k t m m (IsFound-self m once) found) in
          let count = sum-sort_by newer (one_from t.started_at) m in
          let stays : holds_key k (drop 100 sorted) ≡ false =
            elim (Bool-cases (holds_key k (drop 100 sorted))) [
              | inr absent ↦ absent
              | inl held ↦
                  let more =
                    holds_key-drop 100 k t.started_at sorted (newer-IsOrdered m) starts held in
                  let beyond : ⊥ = omega (arith, more, count, few) in absurd beyond
            ] in
          rw large (get-delete_all k (drop 100 sorted) m stays ∙ found)
    ]

-- Pruning changes no record that it keeps.
pub kept-prune_old_transfers :
    (j : String) (t : ActiveTransfer) (w : World)
    → get j (prune_old_transfers w).transfers ≡ some t
    → get j w.transfers ≡ some t
unfolding prune_old_transfers
kept-prune_old_transfers j t w h =
    elim (Bool-cases (leb (length w.transfers) max_active_transfers)) [
      | inl small ↦ ground (arith, h, small)
      | inr large ↦
          kept-delete_all j (drop max_active_transfers (sort_by newer w.transfers)) w.transfers t
            (ground (arith, h, large))
    ]

-- Pruning changes nothing but the records.
pub prune-rest :
    (u : World)
    → ((prune_old_transfers u).pending ≡ u.pending)
      × ((prune_old_transfers u).storage ≡ u.storage)
      × ((prune_old_transfers u).trace ≡ u.trace)
unfolding prune_old_transfers
prune-rest u = elim (Bool-cases (leb (length u.transfers) max_active_transfers)) [
  | inl small ↦ rw small (refl, refl, refl)
  | inr large ↦ rw large (refl, refl, refl)
]

started_since-delete_le :
    (at : ℕ) (k : String) (m : Records) → started_since at (delete k m) ≤ started_since at m
started_since-delete_le at k [] = omega arith
started_since-delete_le at k ((j, t) ∷ m) = ground (arith, started_since-delete_le at k m)

started_since-delete_all :
    (at : ℕ) (xs m : Records) → started_since at (delete_all xs m) ≤ started_since at m
started_since-delete_all at [] m = omega arith
started_since-delete_all at ((j, t) ∷ xs) m =
    omega (arith, started_since-delete_all at xs (delete j m), started_since-delete_le at j m)

pub started_since-prune_old_transfers :
    (at : ℕ) (w : World)
    → started_since at (prune_old_transfers w).transfers ≤ started_since at w.transfers
unfolding prune_old_transfers
started_since-prune_old_transfers at w =
    elim (Bool-cases (leb (length w.transfers) max_active_transfers)) [
      | inl small ↦ rw small (omega arith)
      | inr large ↦ rw large (
          started_since-delete_all at (drop max_active_transfers (sort_by newer w.transfers))
            w.transfers)
    ]

delete_all-KeysOnce : (xs m : Records) → KeysOnce m → KeysOnce (delete_all xs m)
delete_all-KeysOnce [] m h = h
delete_all-KeysOnce ((j, t) ∷ xs) m h = delete_all-KeysOnce xs (delete j m) (delete-KeysOnce j m h)

pub prune_old_transfers-KeysOnce :
    (w : World) → KeysOnce w.transfers → KeysOnce (prune_old_transfers w).transfers
unfolding prune_old_transfers
prune_old_transfers-KeysOnce w h =
    elim (Bool-cases (leb (length w.transfers) max_active_transfers)) [
      | inl small ↦ rw small h
      | inr large ↦ rw large (
          delete_all-KeysOnce (drop max_active_transfers (sort_by newer w.transfers)) w.transfers h)
    ]
