-- ===== src/Ships/Tests.antt =====
-- Two ships that have arrived, one on its way, and one whose status has no phase.
use clusterio_surface_export.Prelude.{
  ◌≡◌, refl, String, false, none, some, List, [], ◌∷◌, map, length, filter, ◌==◌, string_eq,
}
use clusterio_surface_export.Ships.{Ship, shown_name, group_edge_ships}
use clusterio_surface_export.Ships.Count.{
  counts, named, is_moving, is_standing, counts-group_edge_ships,
}

abbrev ship_with : String → Ship
ship_with s = record { status = some s; platform_name = none; is_reversed = false }

abbrev four_ships : List Ship
four_ships =
    ship_with "completed"
    ∷ ship_with "transporting"
    ∷ ship_with "completed"
    ∷ ship_with "in_progress"
    ∷ []

one_marker : map (λ m. m.count) (group_edge_ships four_ships).1 ≡ 2 ∷ []
unfolding group_edge_ships
one_marker = refl

counts-group_edge_ships_example :
    let g = group_edge_ships four_ships in
    let standing = filter is_standing four_ships in
    (g.0 ≡ filter is_moving four_ships)
    × (counts g.1 ≡ length standing)
    × (named (λ n. n == "platform") g.1
        ≡ length (filter (λ n. n == "platform") (map shown_name standing)))
counts-group_edge_ships_example = counts-group_edge_ships (λ n. n == "platform") four_ships
