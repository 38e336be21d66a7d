-- ===== src/Prelude/Ascending.antt =====
-- A list sorted by a number that each element has.
use Prim.Native.Nat.{ℕ, ◌≤◌}
use mathlib.Core.List.{List, [], ◌∷◌}
use mathlib.Core.Logic.{inl, inr}
use mathlib.Core.Bool.{Bool}
use native.Mathlib.Omega.{arith}
use clusterio_surface_export.Prelude.Tests.{ltb, Bool-cases}
use clusterio_surface_export.Prelude.Lists.{All}
use clusterio_surface_export.Prelude.Sort.{insert_sorted, sort_by, All-insert_sorted}

module _ {ℓ} {A : Type ℓ} (key : A → ℕ) where
  abbrev pub Ascending : List A → Type 0
  Ascending [] = Unit
  Ascending (x ∷ xs) = All (λ y. key x ≤ key y) xs × Ascending xs

  All-le : (m n : ℕ) (xs : List A) → m ≤ n → All (λ y. n ≤ key y) xs → All (λ y. m ≤ key y) xs
  All-le m n [] le h = tt
  All-le m n (x ∷ xs) le h = (omega (arith, le, h.0), All-le m n xs le h.1)

  insert_sorted-Ascending :
      (x : A) (xs : List A)
      → Ascending xs
      → Ascending (insert_sorted (λ y. λ z. ltb (key y) (key z)) x xs)
  unfolding insert_sorted
  insert_sorted-Ascending x [] h = (tt, tt)
  insert_sorted-Ascending x (y ∷ ys) (all, h) =
      let before : A → A → Bool = λ y. λ z. ltb (key y) (key z) in
      elim (Bool-cases (ltb (key y) (key x))) [
        | inl e ↦ rw e (
          All-insert_sorted before (λ z. key y ≤ key z) x ys (ground arith) all,
          insert_sorted-Ascending x ys h,
        )
        | inr e ↦ rw e ((ground arith, All-le (key x) (key y) ys (ground arith) all), (all, h))
      ]

  pub sort_by-Ascending : (xs : List A) → Ascending (sort_by (λ y. λ z. ltb (key y) (key z)) xs)
  unfolding sort_by
  sort_by-Ascending [] = tt
  sort_by-Ascending (x ∷ xs) =
      insert_sorted-Ascending x (sort_by (λ y. λ z. ltb (key y) (key z)) xs) (sort_by-Ascending xs)
