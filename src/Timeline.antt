-- ===== src/Timeline.antt =====
-- The timeline of a transfer: shared/transfer-timeline.ts. Intervals are those of its two callers,
-- which clamp them at zero: pairs of whole numbers of milliseconds.
pub mod Merge
pub mod Gaps
pub mod Rows
pub mod Trim
pub mod Attribution
mod Tests
use clusterio_surface_export.Prelude.{
  ℕ, Bool, List, [], ◌∷◌, ltb, leb, max, min, ◌+◌, ◌-◌, if◌then◌else◌, filter, map, sum,
}
use clusterio_surface_export.Prelude.Sort.{sort_by}

abbrev pub Interval : Type 0
Interval = ℕ × ℕ

abbrev extend_or_push : Interval → Interval → List Interval
extend_or_push (a, b) (start, end) =
    if leb start b then (a, max b end) ∷ [] else (a, b) ∷ (start, end) ∷ []

-- The body of the loop: extends the last interval, or pushes a new one.
abbrev pub push_interval : List Interval → Interval → List Interval
push_interval [] i = i ∷ []
push_interval (x ∷ []) i = extend_or_push x i
push_interval (x ∷ y ∷ m) i = x ∷ push_interval (y ∷ m) i

abbrev pub push_all : List Interval → List Interval → List Interval
push_all m [] = m
push_all m (i ∷ is) = push_all (push_interval m i) is

abbrev pub is_proper : Interval → Bool
is_proper i = ltb i.0 i.1

abbrev pub starts_before : Interval → Interval → Bool
starts_before i j = ltb i.0 j.0

unfoldable pub merge_intervals : List Interval → List Interval
unfolding sort_by
merge_intervals is = push_all [] (sort_by starts_before (filter is_proper is))

-- The loop over the merged intervals, from a cursor on, and the gap after them.
abbrev pub gaps_from : ℕ → ℕ → List Interval → List Interval
gaps_from cursor total [] = if ltb cursor total then (cursor, total) ∷ [] else []
gaps_from cursor total ((start, end) ∷ m) =
    let rest = gaps_from (max cursor end) total m in
    if ltb cursor start then (cursor, min start total) ∷ rest else rest

abbrev pub residual_floor_ms : ℕ
residual_floor_ms = 2

-- `b - a > RESIDUAL_FLOOR_MS`
abbrev pub is_shown_gap : Interval → Bool
is_shown_gap i = ltb (i.0 + residual_floor_ms) i.1

unfoldable pub gaps_within : List Interval → ℕ → List Interval
unfolding merge_intervals
gaps_within covered total = filter is_shown_gap (gaps_from 0 total (merge_intervals covered))

-- The milliseconds of merged intervals, and what is left of the total.
abbrev pub lengths : List Interval → ℕ
lengths is = sum (map (λ i. i.1 - i.0) is)

unfoldable pub attributed_ms : List Interval → ℕ
unfolding merge_intervals
attributed_ms covered = lengths (merge_intervals covered)

unfoldable pub residual_ms : List Interval → ℕ → ℕ
unfolding attributed_ms
residual_ms covered total = total - attributed_ms covered
