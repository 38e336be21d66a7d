-- ===== src/Timeline/Trim.antt =====
-- Trimming overlapping rows: shared/transfer-timeline.ts, buildTransferTimeline.
use clusterio_surface_export.Prelude.{◌≡◌, ap, subst, List, [], ◌∷◌, All, Bool-cases, inl, inr}
use clusterio_surface_export.Prelude.Int.{
  ℤ, pos, ◌+ℤ◌, ◌-ℤ◌, ◌≤ℤ◌, ltb_ℤ, pos_part, neg_part, int_laws,
}
use clusterio_surface_export.Timeline.Rows.{MeasuredRow, max_ℤ, trim_row, trim_rows}

-- One after another from `prior` on, with no overlap.
abbrev pub OrderedFrom : ℤ → List MeasuredRow → Type 0
OrderedFrom prior [] = Unit
OrderedFrom prior (r ∷ rs) =
    (prior ≤ℤ r.start_ms) × (r.start_ms ≤ℤ r.end_ms) × OrderedFrom r.end_ms rs

abbrev pub IsForward : MeasuredRow → Type 0
IsForward r = r.start_ms ≤ℤ r.end_ms

-- The time between start and end of all rows.
abbrev pub spans : List MeasuredRow → ℤ
spans [] = pos 0
spans (r ∷ rs) = (r.end_ms -ℤ r.start_ms) +ℤ spans rs

trim_row-lem :
    (prior : ℤ) (r : MeasuredRow)
    → IsForward r
    → let t = trim_row prior r in
      (prior ≤ℤ t.0.start_ms)
      × IsForward t.0
      × (max_ℤ prior t.0.end_ms ≡ t.0.end_ms)
      × ((t.0.end_ms -ℤ t.0.start_ms) +ℤ t.1 ≡ r.end_ms -ℤ r.start_ms)
unfolding trim_row
trim_row-lem prior r forward = elim (Bool-cases (ltb_ℤ r.start_ms prior)) [
  | inr late ↦ rw late (grind int_laws, forward, grind int_laws, grind int_laws)
  | inl soon ↦ elim (Bool-cases (ltb_ℤ prior r.end_ms)) [
    | inl over ↦ rw (soon, over) (grind int_laws, grind int_laws, grind int_laws, grind int_laws)
    | inr inside ↦
        rw (soon, inside) (grind int_laws, grind int_laws, grind int_laws, grind int_laws)
  ]
]

-- The measured rows, each of which ends no sooner than it starts, are left one after another with
-- no overlap, and the time trimmed is what they have lost.
pub trim_rows-OrderedFrom :
    (prior : ℤ) (rows : List MeasuredRow)
    → All IsForward rows
    → let r = trim_rows prior rows in OrderedFrom prior r.0 × (spans r.0 +ℤ r.1 ≡ spans rows)
unfolding trim_rows
trim_rows-OrderedFrom prior [] forward = (tt, grind int_laws)
trim_rows-OrderedFrom prior (r ∷ rows) forward =
    let row = trim_row-lem prior r forward.0 in
    let t = trim_row prior r in
    let rest = trim_rows-OrderedFrom (max_ℤ prior t.0.end_ms) rows forward.1 in
    (
      (
        row.0,
        row.1,
        subst (λ e. OrderedFrom e (trim_rows (max_ℤ prior t.0.end_ms) rows).0) row.2 rest.0,
      ),
      omega
          (int_laws, ap pos_part row.3, ap neg_part row.3, ap pos_part rest.1, ap neg_part rest.1),
    )
