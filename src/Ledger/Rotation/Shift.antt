-- ===== src/Ledger/Rotation/Shift.antt =====
-- What the rotation loop of rotateIfNeeded does to the files: lib/audit-ledger.ts.
use clusterio_surface_export.Prelude.{
  ℕ, zero, suc, ◌-◌, ◌≡◌, ◌<◌, refl, true, false, Option, none, some, eqb, leb, if◌then◌else◌,
  arith, ◌∙◌, Bool-cases, inl, inr,
}
use clusterio_surface_export.Ledger.Rotation.{
  File, Files, write_path, move, rename, shift_from, rotates, rotate_if_needed, RotationOptions,
}

move_at :
    (p q : ℕ) (f : Option File) (fs : Files) (k : ℕ)
    → fs p ≡ f
    → fs q ≡ none
    → (if eqb p q then false else true) ≡ true
    → move p q f fs k ≡ (if eqb q k then fs p else if eqb p k then none else fs k)
unfolding move
move_at p q none fs k e free ne = ground arith
move_at p q (some f) fs k e free ne = ground arith

rename_up :
    (g : ℕ) (fs : Files)
    → fs (suc (suc g)) ≡ none
    → (k : ℕ)
    → rename (suc g) (suc (suc g)) fs k
      ≡ (if eqb (suc (suc g)) k then fs (suc g) else if eqb (suc g) k then none else fs k)
unfolding rename
rename_up g fs free k = move_at (suc g) (suc (suc g)) (fs (suc g)) fs k refl free (ground arith)

-- The loop below the last generation moves each file up by one, when the place above is free.
shift_below :
    (m g : ℕ) (fs : Files) (k : ℕ)
    → g < m
    → fs (suc g) ≡ none
    → shift_from m g fs k ≡ (
        if eqb k 0
        then fs 0
        else if eqb k 1
        then (if eqb g 0 then fs 1 else none)
        else if leb k (suc g)
        then fs (k - 1)
        else fs k)
unfolding shift_from
shift_below m zero fs k lt free = ground arith
shift_below m (suc g) fs k lt free =
    let fs' = rename (suc g) (suc (suc g)) fs in
    let at = rename_up g fs free in
    let test : eqb (suc g) m ≡ false = ground arith in
    rw test (
      ground (
        arith,
        shift_below m g fs' k (omega arith) (at (suc g) ∙ ground arith),
        at 0,
        at 1,
        at k,
        at (k - 1),
      ))

rotated :
    (m : ℕ) (fs : Files) (k : ℕ)
    → rename 0 1 (shift_from (suc m) (suc m) fs) k
      ≡ (if eqb k 0 then none else if leb k (suc m) then fs (k - 1) else fs k)
unfolding shift_from rename
rotated m fs k =
    let fs₁ = write_path (suc m) none fs in
    let last : eqb (suc m) (suc m) ≡ true = ground arith in
    let below = λ (x : ℕ). shift_below (suc m) m fs₁ x (omega arith) (ground arith) in
    rw last (
      move_at 0 1 (shift_from (suc m) m fs₁ 0) (shift_from (suc m) m fs₁) k refl
        (below 1 ∙ ground arith) refl
      ∙ ground (arith, below 0, below k))

-- With at least one generation, a rotation moves the ledger to generation 1 and each generation up by one; the last one goes, and
-- every other file stays. Without one, all files stay.
pub rotate_if_needed_at :
    (size : File → ℕ) (bytes m : ℕ) (fs : Files) (k : ℕ)
    → rotate_if_needed size (record { max_bytes = bytes; max_files = suc m }) fs k ≡ (
        if rotates size (record { max_bytes = bytes; max_files = suc m }) (fs 0)
        then (if eqb k 0 then none else if leb k (suc m) then fs (k - 1) else fs k)
        else fs k)
unfolding rotate_if_needed shift_from
rotate_if_needed_at size bytes m fs k =
    let o : RotationOptions = record { max_bytes = bytes; max_files = suc m } in
    elim (Bool-cases (rotates size o (fs 0))) [ inl e ↦ rw e (rotated m fs k) | inr e ↦ rw e ]
