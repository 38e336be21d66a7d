-- ===== src/Timeline/Attribution.antt =====
-- Attributed and residual time: shared/transfer-timeline.ts, the end of buildTransferTimeline.
use clusterio_surface_export.Prelude.{
  ℕ, ◌≤◌, ◌≡◌, refl, List, [], ◌∷◌, ◌+◌, ◌*◌, arith, length, length-filter-le, map,
}
use clusterio_surface_export.Prelude.Int.{ℤ, pos}
use clusterio_surface_export.Prelude.Sort.{sort_by, length-sort_by}
use clusterio_surface_export.Timeline.{lengths, is_proper}
use clusterio_surface_export.Timeline.Gaps.{EndBy, residual_ms-gaps_within, filter-EndBy}
use clusterio_surface_export.Timeline.Rows.{
  MeasuredRow, trim_row, trim_rows, max_ℤ, clamped, covered_of, starts_sooner, attribute_rows,
}

length-trim_rows :
    (prior : ℤ) (rows : List MeasuredRow) → length (trim_rows prior rows).0 ≡ length rows
unfolding trim_rows
length-trim_rows prior [] = refl
length-trim_rows prior (r ∷ rows) =
    omega (arith, length-trim_rows (max_ℤ prior (trim_row prior r).0.end_ms) rows)

map-EndBy : (total : ℕ) (rows : List MeasuredRow) → EndBy total (map (clamped total) rows)
map-EndBy total [] = tt
map-EndBy total (r ∷ rows) = (omega arith, map-EndBy total rows)

length-map : (total : ℕ) (rows : List MeasuredRow) → length (map (clamped total) rows) ≡ length rows
length-map total [] = refl
length-map total (r ∷ rows) = omega (arith, length-map total rows)

-- Attributed and residual time make up the total, and the residual rows fill the residual time but
-- for two milliseconds a row, for at most one row more than there are measured ones.
pub attribute_rows_lem :
    (total : ℕ) (rows : List MeasuredRow)
    → let a = attribute_rows total rows in
      (a.attributed + a.residual ≡ a.total_ms)
      × (lengths a.residual_rows ≤ a.residual)
      × (a.residual ≤ lengths a.residual_rows + 2 * (length rows + 1))
unfolding attribute_rows
attribute_rows_lem total rows =
    let sorted = sort_by starts_sooner rows in
    let trimmed = (trim_rows (pos 0) sorted).0 in
    let all = map (clamped total) trimmed in
    let r =
      residual_ms-gaps_within (covered_of total trimmed) total
        (filter-EndBy total all (map-EndBy total trimmed)) in
    (
      r.0,
      r.1,
      omega (
        arith,
        r.2,
        length-filter-le is_proper all,
        length-map total trimmed,
        length-trim_rows (pos 0) sorted,
        length-sort_by starts_sooner rows,
      ),
    )
