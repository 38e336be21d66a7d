-- ===== src/Comparison/Tests.antt =====
-- A table of two names against one that lacks a name and has another.
use clusterio_surface_export.Prelude.{String, Bool, false, ◌≡◌, refl, [], ◌∷◌, map, sum, string_eq}
use clusterio_surface_export.Prelude.Int.{ℤ, pos, negsuc, ◌-ℤ◌}
use clusterio_surface_export.Prelude.Sort.{sort_by}
use clusterio_surface_export.Comparison.{Counts, build_expected_actual_rows}
use clusterio_surface_export.Comparison.Totals.{totals-build_expected_actual_rows}

abbrev sent : Counts
sent = ("iron", 10) ∷ ("coal", 4) ∷ []

abbrev received : Counts
received = ("coal", 4) ∷ ("stone", 3) ∷ []

abbrev unsorted : String → String → Bool
unsorted a b = false

-- The row with the largest difference stands first.
rows_by_delta :
    map {B = String × ℤ}
      (λ r. (r.name, r.delta))
      (build_expected_actual_rows unsorted sent received)
    ≡ (("iron", negsuc 9) ∷ ("stone", pos 3) ∷ ("coal", pos 0) ∷ [])
unfolding build_expected_actual_rows sort_by ◌-ℤ◌
rows_by_delta = refl

totals-build_expected_actual_rows_example :
    (sum (map (λ r. r.expected) (build_expected_actual_rows unsorted sent received)) ≡ 14)
    × (sum (map (λ r. r.actual) (build_expected_actual_rows unsorted sent received)) ≡ 7)
totals-build_expected_actual_rows_example =
    totals-build_expected_actual_rows unsorted sent received (refl, (refl, tt)) (refl, (refl, tt))
