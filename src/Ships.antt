-- ===== src/Ships.antt =====
-- Ships on the edges of the gateway page: shared/transfer-status.ts. A distance along an edge is
-- counted in halves: 0, 1 or 2.
pub mod Count
mod Tests
use clusterio_surface_export.Prelude.{
  ℕ, ◌+◌, ◌-◌, String, Bool, true, false, not, ◌&&◌, Option, none, some, List, [], ◌∷◌, ◌++◌, eqb,
  string_eq, if◌then◌else◌, is_empty, given_or, concat,
}
use clusterio_surface_export.JsMap.{JsMap, get, set, values}

pub data ShipTone : Type 0 where
  active holding success failure : ShipTone

pub record ShipPhase : Type 0 where
  pub halves : ℕ
  pub is_holding : Bool
  pub is_opening : Bool
  pub is_terminal : Bool
  pub tone : ShipTone
  pub label : String

abbrev phase_of : ℕ → Bool → Bool → Bool → ShipTone → String → ShipPhase
phase_of halves holds opens ends tone label = record {
  halves = halves;
  is_holding = holds;
  is_opening = opens;
  is_terminal = ends;
  tone = tone;
  label = label;
}

abbrev phases : JsMap String ShipPhase
phases =
    ("transporting", phase_of 1 false true false active "in transit")
    ∷ ("awaiting_validation", phase_of 1 true false false holding "validating")
    ∷ ("completed", phase_of 2 false false true success "arrived")
    ∷ ("failed", phase_of 0 false false true failure "failed — returned")
    ∷ ("error", phase_of 0 false false true failure "timed out — returned")
    ∷ ("cleanup_failed", phase_of 2 false false true failure "arrived — cleanup failed")
    ∷ []

-- shipPhaseFor
abbrev pub ship_phase_for : Option String → Option ShipPhase
ship_phase_for none = none
ship_phase_for (some status) = if is_empty status then none else get status phases

pub record Ship : Type 0 where
  pub status : Option String
  pub platform_name : Option String
  pub is_reversed : Bool

pub record Marker : Type 0 where
  pub tone : ShipTone
  pub halves : ℕ
  pub count : ℕ
  pub label : String
  pub platform_names : List String

abbrev halves_text : ℕ → String
halves_text n = if eqb n 0 then "0" else if eqb n 1 then "0.5" else "1"

abbrev halves_along : Ship → ShipPhase → ℕ
halves_along s p = if s.is_reversed then 2 - p.halves else p.halves

abbrev marker_key : Ship → ShipPhase → String
marker_key s p = concat (given_or s.status "") (concat "@" (halves_text (halves_along s p)))

abbrev pub shown_name : Ship → String
shown_name s = given_or s.platform_name "platform"

-- The marker with one more ship, or a new one.
abbrev pub counted : Ship → ShipPhase → Option Marker → Marker
counted s p (some m) = record m {
  count = m.count + 1;
  platform_names = m.platform_names ++ shown_name s ∷ [];
}
counted s p none = record {
  tone = p.tone;
  halves = halves_along s p;
  count = 1;
  label = p.label;
  platform_names = shown_name s ∷ [];
}

pub record Groups : Type 0 where
  pub transit : List Ship
  pub markers : JsMap String Marker

abbrev pub place : Ship → Option ShipPhase → Groups → Groups
place s none g = g
place s (some p) g =
    if not p.is_terminal && not p.is_holding
    then record g { transit = g.transit ++ s ∷ [] }
    else (let key = marker_key s p in
        record g { markers = set key (counted s p (get key g.markers)) g.markers })

abbrev pub place_all : List Ship → Groups → Groups
place_all [] g = g
place_all (s ∷ ships) g = place_all ships (place s (ship_phase_for s.status) g)

-- groupEdgeShips
unfoldable pub group_edge_ships : List Ship → List Ship × List Marker
group_edge_ships ships =
    let g = place_all ships (record { transit = []; markers = [] }) in (g.transit, values g.markers)
