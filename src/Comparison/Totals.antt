-- ===== src/Comparison/Totals.antt =====
-- No count is lost or shown twice: web/utils.ts, buildExpectedActualRows.
use clusterio_surface_export.Prelude.{
  ℕ, ◌+◌, String, ◌≡◌, refl, sym, ap, subst, ◌∙◌, arith, Bool, true, false, not, none, List, [],
  ◌∷◌, ◌++◌, map, filter, sum, or_else, string_eq, ◌==◌, Bool-cases, inl, inr, if◌then◌else◌,
}
use clusterio_surface_export.Prelude.Sort.{sum-sort_by}
use clusterio_surface_export.JsMap.{get, has, keys, values, KeysOnce, IsFound, IsFound-self}
use clusterio_surface_export.Comparison.{
  Counts, ExpectedActualRow, names_of, number_of, row_for, differs_more, build_expected_actual_rows,
}

abbrev weighed : Bool → ℕ → ℕ
weighed b n = if b then n else 0

-- The sum of the counts whose names pass a test.
abbrev sum_if : (String → Bool) → Counts → ℕ
sum_if p [] = 0
sum_if p ((k, n) ∷ m) = weighed (p k) n + sum_if p m

abbrev tallied : Counts → List String → ℕ
tallied m ks = sum (map (number_of m) ks)

sum_if-absent : (id : String) (m : Counts) → get id m ≡ none → sum_if (λ k. k == id) m ≡ 0
sum_if-absent id [] h = refl
sum_if-absent id ((k, n) ∷ m) h = elim (Bool-cases (k == id)) [
  | inl same ↦ ground (arith, h, same)
  | inr other ↦ rw other (omega (arith, sum_if-absent id m (ground (arith, h, other))))
]

-- A name that stands once counts once.
sum_if-name : (id : String) (m : Counts) → KeysOnce m → sum_if (λ k. k == id) m ≡ number_of m id
sum_if-name id [] once = refl
sum_if-name id ((k, n) ∷ m) (fresh, once) = elim (Bool-cases (k == id)) [
  | inl same ↦
      let gone = subst (λ j. get j m ≡ none) ((string_eq.same_iff k id).0 same) fresh in
      rw same (omega (arith, sum_if-absent id m gone))
  | inr other ↦ rw other (omega (arith, sum_if-name id m once))
]

sum_if-none : (m : Counts) → sum_if (λ k. false) m ≡ 0
sum_if-none [] = refl
sum_if-none ((k, n) ∷ m) = omega (arith, sum_if-none m)

sum_if-split :
    (p q r : String → Bool) (m : Counts)
    → ((k : String) (n : ℕ) → weighed (p k) n ≡ weighed (q k) n + weighed (r k) n)
    → sum_if p m ≡ sum_if q m + sum_if r m
sum_if-split p q r [] h = refl
sum_if-split p q r ((k, n) ∷ m) h = omega (arith, h k n, sum_if-split p q r m h)

weighed-has :
    (k : String) (n : ℕ) (e : Counts) (j : String) (x : ℕ)
    → get k e ≡ none
    → weighed (has j ((k, n) ∷ e)) x ≡ weighed (j == k) x + weighed (has j e) x
weighed-has k n e j x fresh = ground (arith, fresh, string_eq.same_iff k j, string_eq.same_iff j k)

-- The names of one table, tallied in another.
tallied-keys :
    (e a : Counts) → KeysOnce e → KeysOnce a → tallied a (keys e) ≡ sum_if (λ k. has k e) a
tallied-keys [] a once other = sym (sum_if-none a)
tallied-keys ((k, n) ∷ e) a (fresh, once) other = omega (
  arith,
  tallied-keys e a once other,
  sum_if-name k a other,
  sum_if-split (λ j. has j ((k, n) ∷ e)) (λ j. j == k) (λ j. has j e) a
      (λ j x. weighed-has k n e j x fresh),
)

tallied-filter :
    (p : String → Bool) (whole m : Counts)
    → IsFound whole m
    → tallied whole (filter p (keys m)) ≡ sum_if p m
tallied-filter p whole [] h = refl
tallied-filter p whole ((k, n) ∷ m) (here, h) = elim (Bool-cases (p k)) [
  | inl hit ↦ rw hit (omega (arith, ap (λ o. or_else o 0) here, tallied-filter p whole m h))
  | inr miss ↦ rw miss (omega (arith, tallied-filter p whole m h))
]

tallied-values : (whole m : Counts) → IsFound whole m → tallied whole (keys m) ≡ sum (values m)
tallied-values whole [] h = refl
tallied-values whole ((k, n) ∷ m) (here, h) =
    omega (arith, ap (λ o. or_else o 0) here, tallied-values whole m h)

tallied-absent : (e : Counts) (ks : List String) → tallied e (filter (λ k. not (has k e)) ks) ≡ 0
tallied-absent e [] = refl
tallied-absent e (k ∷ ks) = ground (arith, tallied-absent e ks)

tallied-append :
    (m : Counts) (xs ys : List String) → tallied m (xs ++ ys) ≡ tallied m xs + tallied m ys
tallied-append m [] ys = omega arith
tallied-append m (x ∷ xs) ys = omega (arith, tallied-append m xs ys)

sum_if-all : (m : Counts) → sum_if (λ k. true) m ≡ sum (values m)
sum_if-all [] = refl
sum_if-all ((k, n) ∷ m) = omega (arith, sum_if-all m)

weighed-either : (b : Bool) (n : ℕ) → weighed true n ≡ weighed b n + weighed (not b) n
weighed-either true n = omega arith
weighed-either false n = omega arith

tallied-expected : (e a : Counts) → KeysOnce e → tallied e (names_of e a) ≡ sum (values e)
tallied-expected e a once = omega (
  arith,
  tallied-append e (keys e) (filter (λ k. not (has k e)) (keys a)),
  tallied-values e e (IsFound-self e once),
  tallied-absent e (keys a),
)

tallied-actual :
    (e a : Counts) → KeysOnce e → KeysOnce a → tallied a (names_of e a) ≡ sum (values a)
tallied-actual e a once other = omega (
  arith,
  tallied-append a (keys e) (filter (λ k. not (has k e)) (keys a)),
  tallied-keys e a once other,
  tallied-filter (λ k. not (has k e)) a a (IsFound-self a other),
  sum_if-split (λ k. true) (λ k. has k e) (λ k. not (has k e)) a
      (λ k n. weighed-either (has k e) n),
  sum_if-all a,
)

sum-rows :
    (f : ExpectedActualRow → ℕ) (e a m : Counts) (ks : List String)
    → ((k : String) → f (row_for e a k) ≡ number_of m k)
    → sum (map f (map (row_for e a) ks)) ≡ tallied m ks
sum-rows f e a m [] h = refl
sum-rows f e a m (k ∷ ks) h = omega (arith, h k, sum-rows f e a m ks h)

-- The expected counts of the rows add up to those of the expected table, and the actual ones to those of
-- the actual table, where each name stands once in each table.
pub totals-build_expected_actual_rows :
    (collates : String → String → Bool) (expected actual : Counts)
    → KeysOnce expected
    → KeysOnce actual
    → let rows = build_expected_actual_rows collates expected actual in
      (sum (map (λ r. r.expected) rows) ≡ sum (values expected))
      × (sum (map (λ r. r.actual) rows) ≡ sum (values actual))
unfolding build_expected_actual_rows
totals-build_expected_actual_rows collates e a once other =
    let ks = names_of e a in
    let rows = map (row_for e a) ks in
    (
      sum-sort_by (differs_more collates) (λ r. r.expected) rows
          ∙ sum-rows (λ r. r.expected) e a e ks (λ k. refl)
          ∙ tallied-expected e a once,
      sum-sort_by (differs_more collates) (λ r. r.actual) rows
          ∙ sum-rows (λ r. r.actual) e a a ks (λ k. refl)
          ∙ tallied-actual e a once other,
    )
