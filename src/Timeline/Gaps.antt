-- ===== src/Timeline/Gaps.antt =====
-- The gaps between merged intervals: shared/transfer-timeline.ts, gapsWithin.
use clusterio_surface_export.Prelude.{
  ℕ, suc, ◌≤◌, ◌<◌, ◌≡◌, refl, Bool, false, not, ◌&&◌, List, [], ◌∷◌, ltb, leb, max, filter, arith,
  All, Bool-cases, inl, inr, ◌+◌, ◌-◌, ◌*◌, length, length-filter-le,
}
use clusterio_surface_export.Prelude.Sort.{sort_by, length-sort_by, All-sort_by}
use clusterio_surface_export.Timeline.{
  Interval, gaps_from, push_interval, push_all, is_proper, starts_before, merge_intervals,
  gaps_within, is_shown_gap, lengths, attributed_ms, residual_ms,
}
use clusterio_surface_export.Timeline.Merge.{covers, SeparatedFrom, covers-merge_intervals}

not_yet : (t low : ℕ) (m : List Interval) → SeparatedFrom low m → t < low → covers t m ≡ false
not_yet t low [] sep lt = refl
not_yet t low (i ∷ m) sep lt = ground (arith, not_yet t (suc i.1) m sep.2)

covers-gaps_from :
    (t cursor low total : ℕ) (m : List Interval)
    → SeparatedFrom low m
    → cursor ≤ low
    → covers t (gaps_from cursor total m) ≡ (leb cursor t && ltb t total) && not (covers t m)
covers-gaps_from t cursor low total [] sep le = ground arith
covers-gaps_from t cursor low total (i ∷ m) sep le =
    ground (arith, covers-gaps_from t i.1 (suc i.1) total m sep.2, not_yet t (suc i.1) m sep.2)

lengths-gaps_from :
    (cursor low total : ℕ) (m : List Interval)
    → SeparatedFrom low m
    → cursor ≤ low
    → All (λ i. i.1 ≤ total) m
    → cursor ≤ total
    → lengths (gaps_from cursor total m) + lengths m ≡ total - cursor
lengths-gaps_from cursor low total [] sep le within fits = ground arith
lengths-gaps_from cursor low total (i ∷ m) sep le within fits =
    ground (arith, lengths-gaps_from i.1 (suc i.1) total m sep.2 (ground arith) within.1 within.0)

covers-filter-le :
    (t : ℕ) (p : Interval → Bool) (is : List Interval)
    → covers t (filter p is) && not (covers t is) ≡ false
covers-filter-le t p [] = refl
covers-filter-le t p (i ∷ is) = ground (arith, covers-filter-le t p is)

-- Dropping the short gaps drops two milliseconds a gap at most.
lengths-filter :
    (is : List Interval)
    → (lengths (filter is_shown_gap is) ≤ lengths is)
      × (lengths is ≤ lengths (filter is_shown_gap is) + 2 * length is)
lengths-filter [] = omega arith
lengths-filter (i ∷ is) = ground (arith, lengths-filter is)

length-gaps_from :
    (cursor total : ℕ) (m : List Interval) → length (gaps_from cursor total m) ≤ suc (length m)
length-gaps_from cursor total [] = ground arith
length-gaps_from cursor total (i ∷ m) = ground (arith, length-gaps_from (max cursor i.1) total m)

length-push_interval :
    (m : List Interval) (i : Interval) → length (push_interval m i) ≤ suc (length m)
length-push_interval [] i = omega arith
length-push_interval (x ∷ []) i = ground arith
length-push_interval (x ∷ y ∷ m) i = ground (arith, length-push_interval (y ∷ m) i)

length-push_all : (m is : List Interval) → length (push_all m is) ≤ length m + length is
length-push_all m [] = omega arith
length-push_all m (i ∷ is) =
    omega (arith, length-push_interval m i, length-push_all (push_interval m i) is)

length-merge_intervals : (is : List Interval) → length (merge_intervals is) ≤ length is
unfolding merge_intervals
length-merge_intervals is =
    let proper = filter is_proper is in
    omega (
      arith,
      length-push_all [] (sort_by starts_before proper),
      length-sort_by starts_before proper,
      length-filter-le is_proper is,
    )

-- Each millisecond of a gap that is shown lies in the total and in no interval.
pub covers-gaps_within :
    (is : List Interval) (total t : ℕ)
    → covers t (gaps_within is total) && not (ltb t total && not (covers t is)) ≡ false
unfolding gaps_within
covers-gaps_within is total t =
    let merged = covers-merge_intervals is in
    let gaps = gaps_from 0 total (merge_intervals is) in
    ground (
      arith,
      covers-filter-le t is_shown_gap gaps,
      covers-gaps_from t 0 0 total (merge_intervals is) merged.0,
      merged.1 t,
    )

abbrev pub EndBy : ℕ → List Interval → Type 0
EndBy total is = All (λ i. i.1 ≤ total) is

push_interval-EndBy :
    (total : ℕ) (m : List Interval) (i : Interval)
    → EndBy total m
    → i.1 ≤ total
    → EndBy total (push_interval m i)
push_interval-EndBy total [] i h le = (le, tt)
push_interval-EndBy total (x ∷ []) i h le = elim (Bool-cases (leb i.0 x.1)) [
  | inl e ↦ rw e (omega (arith, h.0, le), tt)
  | inr e ↦ rw e (h.0, (le, tt))
]
push_interval-EndBy total (x ∷ y ∷ m) i h le = (h.0, push_interval-EndBy total (y ∷ m) i h.1 le)

push_all-EndBy :
    (total : ℕ) (m is : List Interval)
    → EndBy total m
    → EndBy total is
    → EndBy total (push_all m is)
push_all-EndBy total m [] h hs = h
push_all-EndBy total m (i ∷ is) h hs =
    push_all-EndBy total (push_interval m i) is (push_interval-EndBy total m i h hs.0) hs.1

pub filter-EndBy :
    (total : ℕ) (is : List Interval) → EndBy total is → EndBy total (filter is_proper is)
filter-EndBy total [] h = tt
filter-EndBy total (i ∷ is) h = elim (Bool-cases (is_proper i)) [
  | inl e ↦ rw e (h.0, filter-EndBy total is h.1)
  | inr e ↦ rw e (filter-EndBy total is h.1)
]

merge_intervals-EndBy :
    (total : ℕ) (is : List Interval) → EndBy total is → EndBy total (merge_intervals is)
unfolding merge_intervals
merge_intervals-EndBy total is h =
    let proper = filter is_proper is in
    push_all-EndBy total [] (sort_by starts_before proper) tt
      (All-sort_by starts_before (λ i. i.1 ≤ total) proper (filter-EndBy total is h))

-- For intervals within the total, the attributed and the residual time make up the total, and the
-- gaps that are shown fill the residual time but for two milliseconds a gap, of which there is at
-- most one more than there are intervals.
pub residual_ms-gaps_within :
    (is : List Interval) (total : ℕ)
    → EndBy total is
    → (attributed_ms is + residual_ms is total ≡ total)
      × (lengths (gaps_within is total) ≤ residual_ms is total)
      × (residual_ms is total ≤ lengths (gaps_within is total) + 2 * (length is + 1))
unfolding gaps_within residual_ms attributed_ms
residual_ms-gaps_within is total within =
    let merged = merge_intervals is in
    let gaps = gaps_from 0 total merged in
    let fill =
      lengths-gaps_from 0 0 total merged (covers-merge_intervals is).0 (omega arith)
        (merge_intervals-EndBy total is within) (omega arith) in
    omega
      (arith, fill, lengths-filter gaps, length-gaps_from 0 total merged, length-merge_intervals is)
