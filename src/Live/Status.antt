-- ===== src/Live/Status.antt =====
-- When the page may call itself live, and how long it waits to subscribe again: shared/live-status.ts.
use clusterio_surface_export.Prelude.{
  ℕ, zero, suc, ◌^◌, ◌≡◌, ◌≢◌, ◌≤◌, ◌⊎◌, inl, inr, refl, arith, true, Option, none, some,
}
use clusterio_surface_export.Prelude.Int.{ℤ}
use clusterio_surface_export.Live.{
  LiveStatus, live, ConnectionEvent, connect, drop, resume, close, SyncOutcome, subscribed,
  unsubscribed, skipped, failed, LiveStatusInput, by_outcome, unlinked, by_link, by_event,
  next_live_status, resubscribe_delay_ms, bounded_attempt,
}

-- Why a page is live: it has just subscribed, or it was live and no outcome says otherwise.
abbrev pub IsJustified : LiveStatusInput → Type 0
IsJustified i = (i.connected ≡ true) × ((i.outcome ≡ some subscribed) ⊎ (i.previous ≡ live))

by_outcome-live :
    (p : LiveStatus) (o : Option SyncOutcome)
    → by_outcome p o ≡ live
    → (o ≡ some subscribed) ⊎ (p ≡ live)
by_outcome-live p (some failed) h = ground arith
by_outcome-live p (some subscribed) h = inl refl
by_outcome-live p (some skipped) h = ground arith
by_outcome-live p (some unsubscribed) h = inr h
by_outcome-live p none h = inr h

unlinked-not_live : (e : Option ConnectionEvent) → unlinked e ≢ live
unlinked-not_live (some close) = ground arith
unlinked-not_live (some connect) = ground arith
unlinked-not_live (some drop) = ground arith
unlinked-not_live (some resume) = ground arith
unlinked-not_live none = ground arith

by_link-live : (i : LiveStatusInput) → by_link i ≡ live → IsJustified i
by_link-live i h =
    ground (arith, by_outcome-live i.previous i.outcome, unlinked-not_live i.last_event)

by_event-live :
    (i : LiveStatusInput) (o : Option SyncOutcome) (e : Option ConnectionEvent)
    → by_event i o e ≡ live
    → IsJustified i
by_event-live i none (some close) h = ground arith
by_event-live i none (some drop) h = ground arith
by_event-live i none (some connect) h = by_link-live i h
by_event-live i none (some resume) h = by_link-live i h
by_event-live i none none h = by_link-live i h
by_event-live i (some o) e h = by_link-live i h

-- The page is live only while it is connected, and then only when it has just subscribed or was live.
pub next_live_status-IsJustified : (i : LiveStatusInput) → next_live_status i ≡ live → IsJustified i
unfolding next_live_status
next_live_status-IsJustified i h = by_event-live i i.outcome i.last_event h

pow_pos : (n : ℕ) → 1 ≤ 2 ^ n
pow_pos zero = omega arith
pow_pos (suc n) = omega (arith, pow_pos n)

-- The wait before the next attempt is one to thirty seconds, whatever its number.
pub resubscribe_delay_bounds :
    (a : ℤ) → (1000 ≤ resubscribe_delay_ms a) × (resubscribe_delay_ms a ≤ 30000)
unfolding resubscribe_delay_ms
resubscribe_delay_bounds a = omega (arith, pow_pos (bounded_attempt a))
