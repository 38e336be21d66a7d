-- ===== src/Timeline/Rows.antt =====
-- The measured rows of the timeline and its residual rows: shared/transfer-timeline.ts, the end of
-- buildTransferTimeline. Instants may lie before the start, so they are integers.
use clusterio_surface_export.Prelude.{ℕ, Bool, List, [], ◌∷◌, min, if◌then◌else◌, filter, map}
use clusterio_surface_export.Prelude.Int.{ℤ, pos, ◌+ℤ◌, ◌-ℤ◌, ltb_ℤ, pos_part}
use clusterio_surface_export.Prelude.Sort.{sort_by}
use clusterio_surface_export.Timeline.{Interval, is_proper, gaps_within, attributed_ms, residual_ms}

pub record MeasuredRow : Type 0 where
  pub start_ms : ℤ
  pub end_ms : ℤ
  pub duration_ms : ℤ

abbrev pub max_ℤ : ℤ → ℤ → ℤ
max_ℤ a b = if ltb_ℤ a b then b else a

-- The body of the trimming loop: the row, and how much of it went. `prior` is the latest end so far.
unfoldable pub trim_row : ℤ → MeasuredRow → MeasuredRow × ℤ
trim_row prior r =
    if ltb_ℤ r.start_ms prior
    then (if ltb_ℤ prior r.end_ms
        then (
          record { start_ms = prior; end_ms = r.end_ms; duration_ms = r.end_ms -ℤ prior },
          prior -ℤ r.start_ms,
        )
        else (
          record { start_ms = prior; end_ms = prior; duration_ms = pos 0 },
          r.end_ms -ℤ r.start_ms,
        ))
    else (r, pos 0)

-- The loop: the rows, and overlapTrimmedMs.
unfoldable pub trim_rows : ℤ → List MeasuredRow → List MeasuredRow × ℤ
unfolding trim_row
trim_rows prior [] = ([], pos 0)
trim_rows prior (r ∷ rs) =
    let step = trim_row prior r in
    let rest = trim_rows (max_ℤ prior step.0.end_ms) rs in (step.0 ∷ rest.0, step.1 +ℤ rest.1)

abbrev pub starts_sooner : MeasuredRow → MeasuredRow → Bool
starts_sooner r s = ltb_ℤ r.start_ms s.start_ms

-- `[Math.max(0, row.startMs), Math.min(row.endMs, totalMs)]`; an end before the start of the
-- timeline gives no interval, as it does in the code.
abbrev pub clamped : ℕ → MeasuredRow → Interval
clamped total r = (pos_part r.start_ms, min (pos_part r.end_ms) total)

pub record Attribution : Type 0 where
  pub total_ms : ℕ
  pub attributed : ℕ
  pub residual : ℕ
  pub overlap_trimmed_ms : ℤ
  pub residual_rows : List Interval

abbrev pub covered_of : ℕ → List MeasuredRow → List Interval
covered_of total rows = filter is_proper (map (clamped total) rows)

unfoldable pub attribute_rows : ℕ → List MeasuredRow → Attribution
unfolding trim_rows sort_by gaps_within attributed_ms residual_ms
attribute_rows total rows =
    let trimmed = trim_rows (pos 0) (sort_by starts_sooner rows) in
    let covered = covered_of total trimmed.0 in
    record {
      total_ms = total;
      attributed = attributed_ms covered;
      residual = residual_ms covered total;
      overlap_trimmed_ms = trimmed.1;
      residual_rows = gaps_within covered total;
    }
