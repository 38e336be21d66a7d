-- ===== src/Detail/Tests.antt =====
-- Retention of three entries under a cap of two.
use clusterio_surface_export.Prelude.{
  ℕ, String, ◌≡◌, refl, Bool, true, false, Option, none, some, List, [], ◌∷◌, length,
}
use clusterio_surface_export.Detail.{DetailEntry, select_retained_detail}
use clusterio_surface_export.Detail.Count.{length-select_retained_detail}

abbrev entry : ℕ → String → DetailEntry
entry n s = record {
  identity = n;
  transfer_id = "1:7";
  saved_at = some n;
  started_at = none;
  status = s;
}

abbrev three_entries : List DetailEntry
three_entries = entry 1 "failed" ∷ entry 2 "completed" ∷ entry 3 "failed" ∷ []

length-select_retained_detail_example :
    length (select_retained_detail (λ e. false) 2 25 three_entries) ≡ 2
length-select_retained_detail_example =
    length-select_retained_detail (λ e. false) 2 25 three_entries (refl, (refl, (refl, tt)))

-- The newest failure and the success stay.
retained :
    select_retained_detail (λ e. false) 2 25 three_entries
    ≡ entry 2 "completed" ∷ entry 3 "failed" ∷ []
unfolding select_retained_detail clusterio_surface_export.Detail.kept
    clusterio_surface_export.Prelude.Sort.sort_by
retained = refl
