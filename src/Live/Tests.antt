-- ===== src/Live/Tests.antt =====
-- Runs of the page's status and of its gate.
use clusterio_surface_export.Prelude.{◌≡◌, ◌≤◌, refl, true, some, [], ◌∷◌}
use clusterio_surface_export.Prelude.Int.{pos}
use clusterio_surface_export.Live.{
  LiveStatusInput, live, degraded, resume, subscribed, next_live_status, resubscribe_delay_ms,
}
use clusterio_surface_export.Live.Status.{
  IsJustified, next_live_status-IsJustified, resubscribe_delay_bounds,
}
use clusterio_surface_export.Live.Revisions.{RisesFrom, applied, applied-RisesFrom}

abbrev back_again : LiveStatusInput
back_again = record {
  previous = degraded;
  connected = true;
  last_event = some resume;
  outcome = some subscribed;
}

now_live : next_live_status back_again ≡ live
unfolding next_live_status
now_live = refl

a_snapshot_goes_live : IsJustified back_again
a_snapshot_goes_live = next_live_status-IsJustified back_again now_live

delay_of_an_attempt : (1000 ≤ resubscribe_delay_ms (pos 3)) × (resubscribe_delay_ms (pos 3) ≤ 30000)
delay_of_an_attempt = resubscribe_delay_bounds (pos 3)

applied_twice : RisesFrom 2 (applied (5 ∷ 3 ∷ 6 ∷ []) 2)
applied_twice = applied-RisesFrom (5 ∷ 3 ∷ 6 ∷ []) 2
