-- ===== src/Log/Times.antt =====
-- The times of a transfer's events: lib/transaction-logger.ts, logTransactionEvent.
use clusterio_surface_export.Prelude.{
  ℕ, String, ◌≡◌, refl, sym, ap, ◌∙◌, false, Option, none, some, List, [], ◌∷◌, ◌++◌, ◌==◌,
  string_eq, if◌then◌else◌, get_last?, or_else, or_option, All, All-append, subst, arith,
}
use clusterio_surface_export.JsMap.{get, get-set, get-set_self}
use clusterio_surface_export.Log.{LogEvent, Logs, events_of, since, time_of, log_transaction_event}

-- Each event's delta is its distance from the event before, the first one's from `prev`.
abbrev pub Chained : Option ℕ → List LogEvent → Type 0
Chained prev [] = Unit {0}
Chained prev (e ∷ es) = (e.delta_ms ≡ since e.timestamp_ms prev) × Chained (some e.timestamp_ms) es

-- The events of a transfer that started at `s`: deltas from event to event, elapsed times from the start.
abbrev pub IsTimed : ℕ → List LogEvent → Type 0
IsTimed s es = Chained none es × All (λ e. e.elapsed_ms ≡ since e.timestamp_ms (some s)) es

Chained-append :
    (prev : Option ℕ) (es : List LogEvent) (e : LogEvent)
    → Chained prev es
    → e.delta_ms ≡ since e.timestamp_ms (or_option (time_of (get_last? es)) prev)
    → Chained prev (es ++ e ∷ [])
Chained-append prev [] e c h = (h, tt)
Chained-append prev (x ∷ []) e c h = (c.0, (h, tt))
Chained-append prev (x ∷ y ∷ ys) e c h =
    let last = time_of (get_last? (y ∷ ys)) in
    (
      c.0,
      Chained-append (some x.timestamp_ms) (y ∷ ys) e c.1
          (h ∙ last_given y ys e prev x.timestamp_ms),
    )
  where
    last_given :
        (y : LogEvent) (ys : List LogEvent) (e : LogEvent) (p : Option ℕ) (t : ℕ)
        → since e.timestamp_ms (or_option (time_of (get_last? (y ∷ ys))) p)
          ≡ since e.timestamp_ms (or_option (time_of (get_last? (y ∷ ys))) (some t))
    last_given y [] e p t = refl
    last_given y (z ∷ zs) e p t = last_given z zs e p t

since_last :
    (at : ℕ) (es : List LogEvent)
    → since at (time_of (get_last? es)) ≡ since at (or_option (time_of (get_last? es)) none)
since_last at es = ground arith

-- Logging one more event for a transfer that started at `s` keeps the deltas of its events the distances
-- between them and their elapsed times those from the start, and leaves the events of another transfer.
pub log_transaction_event-IsTimed :
    (at s : ℕ) (id event_type : String) (logs : Logs) (other : String)
    → IsTimed s (events_of id logs)
    → id == other ≡ false
    → let logs' = log_transaction_event at (some s) id event_type logs in
      IsTimed s (events_of id logs') × (events_of other logs' ≡ events_of other logs)
unfolding log_transaction_event
log_transaction_event-IsTimed at s id event_type logs other timed differ =
    let es = events_of id logs in
    let e : LogEvent = record {
      timestamp_ms = at;
      elapsed_ms = since at (some s);
      delta_ms = since at (time_of (get_last? es));
      event_type = event_type;
    } in
    let path = ap (λ o. or_else o []) (get-set_self id (es ++ e ∷ []) logs) in
    (
      subst (IsTimed s) (sym path) (
        Chained-append none es e timed.0 (since_last at es),
        All-append (λ x. x.elapsed_ms ≡ since x.timestamp_ms (some s)) es (e ∷ []) timed.1
            (refl, tt),
      ),
      ap (λ o. or_else o []) (get-set id other (es ++ e ∷ []) logs)
          ∙ ap (λ b. or_else (if b then some (es ++ e ∷ []) else get other logs) []) differ,
    )
