-- ===== src/Ships/Count.antt =====
-- No ship is lost on the page: shared/transfer-status.ts, groupEdgeShips.
use mathlib.Core.List.{append_assoc, append-nil}
use clusterio_surface_export.Prelude.{
  ℕ, ◌+◌, ◌≡◌, refl, sym, ap, ◌∙◌, String, Bool, true, false, not, ◌&&◌, Option, none, some, List,
  [], ◌∷◌, ◌++◌, map, ◌==◌, string_eq, if◌then◌else◌, arith, length, filter, sum, any, subst,
  length-append, filter-append, Bool-cases, inl, is_empty, inr,
}
use clusterio_surface_export.JsMap.{JsMap, get, set, values}
use clusterio_surface_export.Ships.{
  Ship, ShipPhase, Marker, Groups, ship_phase_for, marker_key, counted, place, place_all,
  shown_name, group_edge_ships,
}

abbrev pub counts : List Marker → ℕ
counts ms = sum (map (λ m. m.count) ms)

-- How many of the markers' ships have a name of a kind.
abbrev pub named : (String → Bool) → List Marker → ℕ
named kind ms = sum (map (λ m. length (filter kind m.platform_names)) ms)

abbrev is_one_of : Option String → List String → Bool
is_one_of none texts = false
is_one_of (some status) texts = any (λ x. x == status) texts

abbrev pub is_moving : Ship → Bool
is_moving s = is_one_of s.status ("transporting" ∷ [])

abbrev standing_statuses : List String
standing_statuses = "awaiting_validation" ∷ "completed" ∷ "failed" ∷ "error" ∷ "cleanup_failed" ∷ []

abbrev pub is_standing : Ship → Bool
is_standing s = is_one_of s.status standing_statuses

abbrev moves_in : Option ShipPhase → Bool
moves_in none = false
moves_in (some p) = not p.is_terminal && not p.is_holding

abbrev stands_in : Option ShipPhase → Bool
stands_in none = false
stands_in (some p) = not (not p.is_terminal && not p.is_holding)

abbrev Reads : Option String → Type 0
Reads o =
    (moves_in (ship_phase_for o) ≡ is_one_of o ("transporting" ∷ []))
    × (stands_in (ship_phase_for o) ≡ is_one_of o standing_statuses)

-- A status is a given text, or is to be read further.
at_text :
    (x status : String)
    → Reads (some x)
    → ((x == status) ≡ false → Reads (some status))
    → Reads (some status)
at_text x status here there = elim (Bool-cases (x == status)) [
  | inl same ↦ subst (λ t. Reads (some t)) ((string_eq.same_iff x status).0 same) here
  | inr other ↦ there other
]

no_text : (empty : Bool) → if◌then◌else◌ {A = Option ShipPhase} empty none none ≡ none
no_text true = refl
no_text false = refl

ship_phase_for-Reads : (o : Option String) → Reads o
ship_phase_for-Reads none = (refl, refl)
ship_phase_for-Reads (some status) =
    at_text "transporting" status (refl, refl)
      (λ a.
        at_text "awaiting_validation" status (refl, refl)
          (λ b.
            at_text "completed" status (refl, refl)
              (λ c.
                at_text "failed" status (refl, refl)
                  (λ d.
                    at_text "error" status (refl, refl)
                      (λ e.
                        at_text "cleanup_failed" status (refl, refl)
                          (λ f.
                            rw (a, b, c, d, e, f)
                              (
                                ap moves_in (no_text (is_empty status)),
                                ap stands_in (no_text (is_empty status)),
                              )))))))

transit-place :
    (s : Ship) (o : Option ShipPhase) (g : Groups)
    → (place s o g).transit ≡ (if moves_in o then g.transit ++ s ∷ [] else g.transit)
transit-place s none g = refl
transit-place s (some p) g = ground arith

transit-place_all :
    (ships : List Ship) (g : Groups)
    → (place_all ships g).transit ≡ g.transit ++ filter is_moving ships
transit-place_all [] g = sym (append-nil g.transit)
transit-place_all (s ∷ ships) g =
    let o = ship_phase_for s.status in
    transit-place_all ships (place s o g)
    ∙ ap (λ xs. xs ++ filter is_moving ships) (transit-place s o g)
    ∙ (elim (Bool-cases (moves_in o)) [
      | inl moves ↦
          let is : is_moving s ≡ true = sym (ship_phase_for-Reads s.status).0 ∙ moves in
          rw (moves, is) (append_assoc g.transit (s ∷ []) (filter is_moving ships))
      | inr stays ↦
          let is : is_moving s ≡ false = sym (ship_phase_for-Reads s.status).0 ∙ stays in
          rw (stays, is) refl
    ])

-- A measure of markers that grows with each ship.
module _ (weigh : Marker → ℕ) (of : Ship → ℕ) where
  abbrev weigh_at : Option Marker → ℕ
  weigh_at none = 0
  weigh_at (some m) = weigh m

  abbrev total : JsMap String Marker → ℕ
  total m = sum (map weigh (values m))

  total-set :
      (k : String) (x : Marker) (m : JsMap String Marker)
      → total (set k x m) + weigh_at (get k m) ≡ total m + weigh x
  total-set k x [] = omega arith
  total-set k x ((j, y) ∷ m) = elim (Bool-cases (j == k)) [
    | inl same ↦ rw same (omega arith)
    | inr other ↦ rw other (omega (arith, total-set k x m))
  ]

  module _
      (weigh-counted : (s : Ship) (p : ShipPhase) (o : Option Marker)
        → weigh (counted s p o) ≡ weigh_at o + of s) where
    total-place :
        (s : Ship) (o : Option ShipPhase) (g : Groups)
        → total (place s o g).markers ≡ total g.markers + (if stands_in o then of s else 0)
    total-place s none g = omega arith
    total-place s (some p) g = elim (Bool-cases (not p.is_terminal && not p.is_holding)) [
      | inl moving ↦ rw moving (omega arith)
      | inr still ↦
          let key = marker_key s p in
          let o = get key g.markers in
          rw still (omega (arith, total-set key (counted s p o) g.markers, weigh-counted s p o))
    ]

    total-place_all :
        (ships : List Ship) (g : Groups)
        → total (place_all ships g).markers
          ≡ total g.markers + sum (map of (filter is_standing ships))
    total-place_all [] g = omega arith
    total-place_all (s ∷ ships) g =
        let o = ship_phase_for s.status in
        let tail = total-place_all ships (place s o g) in
        let here = total-place s o g in
        let same = (ship_phase_for-Reads s.status).1 in ground (arith, tail, here, same)

counted-count :
    (s : Ship) (p : ShipPhase) (o : Option Marker)
    → (counted s p o).count ≡ weigh_at (λ m. m.count) (λ s. 1) o + 1
counted-count s p none = refl
counted-count s p (some m) = refl

abbrev has_name : (String → Bool) → Ship → ℕ
has_name kind s = if kind (shown_name s) then 1 else 0

counted-named :
    (kind : String → Bool) (s : Ship) (p : ShipPhase) (o : Option Marker)
    → length (filter kind (counted s p o).platform_names)
      ≡ weigh_at (λ m. length (filter kind m.platform_names)) (has_name kind) o + has_name kind s
counted-named kind s p none = ground arith
counted-named kind s p (some m) =
    ap length (filter-append kind m.platform_names (shown_name s ∷ []))
    ∙ ground (arith, length-append (filter kind m.platform_names) (filter kind (shown_name s ∷ [])))

sum-ones : (ships : List Ship) → sum (map (λ s. 1) ships) ≡ length ships
sum-ones [] = refl
sum-ones (s ∷ ships) = omega (arith, sum-ones ships)

sum-named :
    (kind : String → Bool) (ships : List Ship)
    → sum (map (has_name kind) ships) ≡ length (filter kind (map shown_name ships))
sum-named kind [] = refl
sum-named kind (s ∷ ships) = ground (arith, sum-named kind ships)

pub counts-group_edge_ships :
    (kind : String → Bool) (ships : List Ship)
    → let g = group_edge_ships ships in
      let standing = filter is_standing ships in
      (g.0 ≡ filter is_moving ships)
      × (counts g.1 ≡ length standing)
      × (named kind g.1 ≡ length (filter kind (map shown_name standing)))
unfolding group_edge_ships
counts-group_edge_ships kind ships =
    let empty : Groups = record { transit = []; markers = [] } in
    let standing = filter is_standing ships in
    (
      transit-place_all ships empty,
      omega (
        arith,
        total-place_all (λ m. m.count) (λ s. 1) counted-count ships empty,
        sum-ones standing,
      ),
      omega (
        arith,
        total-place_all (λ m. length (filter kind m.platform_names)) (has_name kind)
            (counted-named kind) ships empty,
        sum-named kind standing,
      ),
    )
