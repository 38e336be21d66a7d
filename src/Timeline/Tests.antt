-- ===== src/Timeline/Tests.antt =====
-- Two overlapping rows and a late one, in a hundred milliseconds.
use clusterio_surface_export.Prelude.{ℕ, ◌≡◌, refl, List, [], ◌∷◌, ◌≤◌, ◌+◌, All, arith}
use clusterio_surface_export.Prelude.Int.{pos, ◌+ℤ◌}
use clusterio_surface_export.Timeline.{Interval, merge_intervals, gaps_within, lengths}
use clusterio_surface_export.Timeline.Merge.{covers, SeparatedFrom, covers-merge_intervals}
use clusterio_surface_export.Timeline.Rows.{MeasuredRow, trim_rows, attribute_rows}
use clusterio_surface_export.Timeline.Trim.{OrderedFrom, IsForward, spans, trim_rows-OrderedFrom}
use clusterio_surface_export.Timeline.Attribution.{attribute_rows_lem}

abbrev three_intervals : List Interval
three_intervals = (40, 60) ∷ (10, 30) ∷ (20, 35) ∷ []

merged_two : merge_intervals three_intervals ≡ (10, 35) ∷ (40, 60) ∷ []
unfolding merge_intervals
merged_two = refl

two_gaps : gaps_within three_intervals 61 ≡ (0, 10) ∷ (35, 40) ∷ []
unfolding gaps_within
two_gaps = refl

covers-merge_intervals_example :
    SeparatedFrom 0 (merge_intervals three_intervals)
    × ((t : ℕ) → covers t (merge_intervals three_intervals) ≡ covers t three_intervals)
covers-merge_intervals_example = covers-merge_intervals three_intervals

abbrev row : ℕ → ℕ → ℕ → MeasuredRow
row start end duration = record {
  start_ms = pos start;
  end_ms = pos end;
  duration_ms = pos duration;
}

abbrev three_rows : List MeasuredRow
three_rows = row 10 30 20 ∷ row 20 35 15 ∷ row 40 60 20 ∷ []

three_rows-IsForward : All IsForward three_rows
three_rows-IsForward = (omega arith, (omega arith, (omega arith, tt)))

trimmed_row :
    OrderedFrom (pos 0) (trim_rows (pos 0) three_rows).0
    × (spans (trim_rows (pos 0) three_rows).0 +ℤ (trim_rows (pos 0) three_rows).1
        ≡ spans three_rows)
trimmed_row = trim_rows-OrderedFrom (pos 0) three_rows three_rows-IsForward

three_rows_attributed :
    let a = attribute_rows 100 three_rows in
    (a.attributed + a.residual ≡ a.total_ms)
    × (lengths a.residual_rows ≤ a.residual)
    × (a.residual ≤ lengths a.residual_rows + 8)
three_rows_attributed = attribute_rows_lem 100 three_rows
