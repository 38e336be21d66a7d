-- ===== src/Live.antt =====
-- What the web page knows of its link to the controller: shared/live-status.ts, and which updates it
-- takes: shared/revision-gate.ts. A revision that is no finite number is none.
pub mod Status
pub mod Revisions
mod Tests
use clusterio_surface_export.Prelude.{
  ℕ, ◌*◌, ◌^◌, Bool, true, false, ◌&&◌, Option, none, some, min, max, ltb, if◌then◌else◌, List, [],
  ◌∷◌,
}
use clusterio_surface_export.Prelude.Int.{ℤ, pos, negsuc}

pub data LiveStatus : Type 0 where
  live reconnecting offline degraded : LiveStatus

pub data ConnectionEvent : Type 0 where
  connect drop resume close : ConnectionEvent

pub data SyncOutcome : Type 0 where
  subscribed unsubscribed skipped failed : SyncOutcome

pub record LiveStatusInput : Type 0 where
  pub previous : LiveStatus
  pub connected : Bool
  pub last_event : Option ConnectionEvent
  pub outcome : Option SyncOutcome

-- The `switch` on the outcome, while connected.
abbrev by_outcome : LiveStatus → Option SyncOutcome → LiveStatus
by_outcome previous (some failed) = degraded
by_outcome previous (some subscribed) = live
by_outcome previous (some skipped) = reconnecting
by_outcome previous (some unsubscribed) = previous
by_outcome previous none = previous

abbrev unlinked : Option ConnectionEvent → LiveStatus
unlinked (some close) = offline
unlinked (some connect) = reconnecting
unlinked (some drop) = reconnecting
unlinked (some resume) = reconnecting
unlinked none = reconnecting

abbrev by_link : LiveStatusInput → LiveStatus
by_link i = if i.connected then by_outcome i.previous i.outcome else unlinked i.last_event

-- The two tests in front, on a last event and no outcome.
abbrev by_event : LiveStatusInput → Option SyncOutcome → Option ConnectionEvent → LiveStatus
by_event i none (some close) = offline
by_event i none (some drop) = reconnecting
by_event i none (some connect) = by_link i
by_event i none (some resume) = by_link i
by_event i none none = by_link i
by_event i (some o) e = by_link i

-- nextLiveStatus
pub next_live_status : LiveStatusInput → LiveStatus
next_live_status i = by_event i i.outcome i.last_event

abbrev is_degraded : LiveStatus → Bool
is_degraded degraded = true
is_degraded live = false
is_degraded reconnecting = false
is_degraded offline = false

pub should_retry_resubscribe : LiveStatus → Bool → Bool
should_retry_resubscribe s connected = connected && is_degraded s

abbrev resubscribe_base_delay_ms : ℕ
resubscribe_base_delay_ms = 1000

abbrev resubscribe_max_delay_ms : ℕ
resubscribe_max_delay_ms = 30000

-- `Math.max(0, attempt)` on a whole number
abbrev bounded_attempt : ℤ → ℕ
bounded_attempt (pos n) = n
bounded_attempt (negsuc n) = 0

pub resubscribe_delay_ms : ℤ → ℕ
resubscribe_delay_ms attempt =
    min resubscribe_max_delay_ms (resubscribe_base_delay_ms * 2 ^ bounded_attempt attempt)

-- isFreshRevision
abbrev pub is_fresh_revision : Option ℕ → ℕ → Bool
is_fresh_revision none watermark = false
is_fresh_revision (some r) watermark = ltb watermark r

pub record SnapshotDecision : Type 0 where
  pub apply : Bool
  pub watermark : Option ℕ

-- decideSnapshot
pub decide_snapshot : Option ℕ → ℕ → SnapshotDecision
decide_snapshot none watermark = record { apply = true; watermark = none }
decide_snapshot (some r) watermark =
    if ltb watermark r
    then record { apply = true; watermark = some r }
    else record { apply = false; watermark = none }
