-- ===== src/Live/Revisions.antt =====
-- Which snapshots the page takes, in which order: shared/revision-gate.ts.
use clusterio_surface_export.Prelude.{ℕ, ◌<◌, arith, some, List, [], ◌∷◌, if◌then◌else◌, or_else}
use clusterio_surface_export.Live.{decide_snapshot}

-- The revisions that the page applies of some snapshots, when it moves its watermark as it is told.
abbrev pub applied : List ℕ → ℕ → List ℕ
applied [] watermark = []
applied (r ∷ rs) watermark =
    let d = decide_snapshot (some r) watermark in
    let rest = applied rs (or_else d.watermark watermark) in if d.apply then r ∷ rest else rest

abbrev pub RisesFrom : ℕ → List ℕ → Type 0
RisesFrom n [] = Unit {0}
RisesFrom n (r ∷ rs) = (n < r) × RisesFrom r rs

-- Of any sequence of numbered snapshots, in whatever order they arrive, the page applies revisions that
-- rise strictly, from above its watermark.
pub applied-RisesFrom : (rs : List ℕ) (watermark : ℕ) → RisesFrom watermark (applied rs watermark)
unfolding decide_snapshot
applied-RisesFrom [] watermark = tt
applied-RisesFrom (r ∷ rs) watermark =
    ground (arith, applied-RisesFrom rs r, applied-RisesFrom rs watermark)
