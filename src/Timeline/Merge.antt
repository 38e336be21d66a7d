-- ===== src/Timeline/Merge.antt =====
-- Merged intervals: shared/transfer-timeline.ts, mergeIntervals.
use clusterio_surface_export.Prelude.{
  ℕ, suc, ◌≤◌, ◌<◌, ◌≡◌, refl, ◌∙◌, Bool, ◌&&◌, ◌||◌, List, [], ◌∷◌, ltb, leb, filter, arith, any,
  All, Bool-cases, inl, inr,
}
use clusterio_surface_export.Prelude.Sort.{sort_by, All-sort_by, any-sort_by}
use clusterio_surface_export.Prelude.Ascending.{Ascending, sort_by-Ascending}
use clusterio_surface_export.Timeline.{
  Interval, push_interval, push_all, is_proper, starts_before, merge_intervals,
}

-- The millisecond t lies in the interval; in one of them.
abbrev pub contains : ℕ → Interval → Bool
contains t i = leb i.0 t && ltb t i.1

abbrev pub covers : ℕ → List Interval → Bool
covers t is = any (contains t) is

-- Non-empty intervals in ascending order, from `low` on, with at least a millisecond between them.
abbrev pub SeparatedFrom : ℕ → List Interval → Type 0
SeparatedFrom low [] = Unit
SeparatedFrom low (i ∷ is) = (low ≤ i.0) × (i.0 < i.1) × SeparatedFrom (suc i.1) is

abbrev StartBy : ℕ → List Interval → Type 0
StartBy s m = All (λ i. i.0 ≤ s) m

covers-push_interval :
    (t : ℕ) (m : List Interval) (i : Interval)
    → StartBy i.0 m
    → All (λ j. j.0 < j.1) m
    → i.0 < i.1
    → covers t (push_interval m i) ≡ covers t m || contains t i
covers-push_interval t [] i h ps p = ground arith
covers-push_interval t (x ∷ []) i h ps p = ground arith
covers-push_interval t (x ∷ y ∷ m) i h ps p =
    ground (arith, covers-push_interval t (y ∷ m) i h.1 ps.1 p)

push_interval-SeparatedFrom :
    (low : ℕ) (m : List Interval) (i : Interval)
    → StartBy i.0 m
    → low ≤ i.0
    → i.0 < i.1
    → SeparatedFrom low m
    → SeparatedFrom low (push_interval m i)
push_interval-SeparatedFrom low [] i h le p sep = (le, p, tt)
push_interval-SeparatedFrom low (x ∷ []) i h le p sep = elim (Bool-cases (leb i.0 x.1)) [
  | inl e ↦ rw e (sep.0, ground arith, tt)
  | inr e ↦ rw e (sep.0, sep.1, (ground arith, p, tt))
]
push_interval-SeparatedFrom low (x ∷ y ∷ m) i h le p sep = (
  sep.0,
  sep.1,
  push_interval-SeparatedFrom (suc x.1) (y ∷ m) i h.1 (omega (arith, h, sep)) p sep.2,
)

push_interval-StartBy :
    (s : ℕ) (m : List Interval) (i : Interval)
    → StartBy s m
    → i.0 ≤ s
    → StartBy s (push_interval m i)
push_interval-StartBy s [] i h le = (le, tt)
push_interval-StartBy s (x ∷ []) i h le = elim (Bool-cases (leb i.0 x.1)) [
  | inl e ↦ rw e (h.0, tt)
  | inr e ↦ rw e (h.0, (le, tt))
]
push_interval-StartBy s (x ∷ y ∷ m) i h le = (h.0, push_interval-StartBy s (y ∷ m) i h.1 le)

proper_of_separated : (low : ℕ) (m : List Interval) → SeparatedFrom low m → All (λ j. j.0 < j.1) m
proper_of_separated low [] sep = tt
proper_of_separated low (x ∷ m) sep = (sep.1, proper_of_separated (suc x.1) m sep.2)

-- Later intervals start no sooner than those merged so far.
StartsBy : List Interval → List Interval → Type 0
StartsBy m is = All (λ i. StartBy i.0 m) is

push_interval-StartsBy :
    (m : List Interval) (i : Interval) (is : List Interval)
    → All (λ j. i.0 ≤ j.0) is
    → StartsBy m is
    → StartsBy (push_interval m i) is
unfolding StartsBy
push_interval-StartsBy m i [] le h = tt
push_interval-StartsBy m i (j ∷ is) le h =
    (push_interval-StartBy j.0 m i h.0 le.0, push_interval-StartsBy m i is le.1 h.1)

none_yet : (is : List Interval) → StartsBy [] is
unfolding StartsBy
none_yet [] = tt
none_yet (i ∷ is) = (tt, none_yet is)

push_all-lem :
    (m is : List Interval)
    → Ascending (λ i. i.0) is
    → All (λ j. j.0 < j.1) is
    → StartsBy m is
    → SeparatedFrom 0 m
    → SeparatedFrom 0 (push_all m is)
      × ((t : ℕ) → covers t (push_all m is) ≡ covers t m || covers t is)
unfolding StartsBy
push_all-lem m [] asc ps h sep = (sep, λ t. ground arith)
push_all-lem m (i ∷ is) asc ps h sep =
    let rest =
      push_all-lem (push_interval m i) is asc.1 ps.1 (push_interval-StartsBy m i is asc.0 h.1)
        (push_interval-SeparatedFrom 0 m i h.0 (omega arith) ps.0 sep) in
    (
      rest.0,
      λ t.
          ground
            (arith, rest.1 t, covers-push_interval t m i h.0 (proper_of_separated 0 m sep) ps.0),
    )

covers-filter : (t : ℕ) (is : List Interval) → covers t (filter is_proper is) ≡ covers t is
covers-filter t [] = refl
covers-filter t (i ∷ is) = ground (arith, covers-filter t is)

filter-proper : (is : List Interval) → All (λ j. j.0 < j.1) (filter is_proper is)
filter-proper [] = tt
filter-proper (i ∷ is) = elim (Bool-cases (is_proper i)) [
  | inl e ↦ rw e (ground arith, filter-proper is)
  | inr e ↦ rw e (filter-proper is)
]

-- Merging covers the same milliseconds as the intervals do, by non-empty intervals in ascending
-- order with at least a millisecond between them.
pub covers-merge_intervals :
    (is : List Interval)
    → SeparatedFrom 0 (merge_intervals is) × ((t : ℕ) → covers t (merge_intervals is) ≡ covers t is)
unfolding merge_intervals
covers-merge_intervals is =
    let proper = filter is_proper is in
    let sorted = sort_by starts_before proper in
    let r =
      push_all-lem [] sorted (sort_by-Ascending (λ i. i.0) proper)
        (All-sort_by starts_before (λ j. j.0 < j.1) proper (filter-proper is)) (none_yet sorted)
        tt in
    (r.0, λ t. r.1 t ∙ any-sort_by starts_before (contains t) proper ∙ covers-filter t is)
