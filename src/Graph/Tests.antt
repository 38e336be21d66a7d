-- ===== src/Graph/Tests.antt =====
-- Instance 1 is connected to instance 2, gateway to gateway. Ids are written in strokes.
use clusterio_surface_export.Prelude.{
  String, ◌≡◌, refl, Bool, true, false, ◌&&◌, [], ◌∷◌, map, ◌==◌, string_eq,
}
use clusterio_surface_export.Prelude.Int.{pos, int_eq}
use clusterio_surface_export.Prelude.Sort.{insert_sorted, sort_by}
use clusterio_surface_export.CanonicalId.{split_at_colon}
use clusterio_surface_export.Gateways.{parse_gateway_key}
use clusterio_surface_export.Gateways.Tests.{stroke_ids, stroke_ids-ReadsBack}
use clusterio_surface_export.Graph.{
  Edits, ConnectRequest, apply_connect, apply_disconnect, link_to, directed_links,
}
use clusterio_surface_export.Graph.Mirrored.{Mirrored, apply-Mirrored}
use clusterio_surface_export.Graph.Edges.{build_edges, dirty_keys, gateway_usage, usage_at}
use clusterio_surface_export.Graph.Usage.{starts_at, ends_at, usage_at-gateway_usage}

abbrev first_to_second : ConnectRequest
first_to_second = record {
  source_instance_id = pos 1;
  source_gateway = "north";
  target_instance_id = pos 2;
  target_gateway = "south";
}

both_ends :
    apply_connect stroke_ids [] first_to_second
    ≡ ("11:north", link_to (pos 2) "south" ∷ []) ∷ ("111:south", link_to (pos 1) "north" ∷ []) ∷ []
unfolding apply_connect
both_ends = refl

apply-Mirrored_example :
    Mirrored stroke_ids (apply_connect stroke_ids [] first_to_second)
    × Mirrored stroke_ids (apply_disconnect stroke_ids [] first_to_second)
apply-Mirrored_example =
    apply-Mirrored stroke_ids [] first_to_second stroke_ids-ReadsBack (λ i. λ j. λ a. λ b. refl)

-- North of 1 links to south of 2, which does not link back.
abbrev one_way : Edits
one_way = ("11:north", link_to (pos 2) "south" ∷ []) ∷ []

-- The order of the two ends
abbrev south_first : String → String → Bool
south_first a b = a == "111/south" && b == "11/north"

shown_in_reverse :
    map {B = Bool × Bool}
      (λ e. (e.forward, e.reverse))
      (build_edges south_first south_first stroke_ids one_way)
    ≡ ((false, true) ∷ [])
unfolding build_edges directed_links parse_gateway_key split_at_colon sort_by insert_sorted
shown_in_reverse = refl

usage_at-gateway_usage_example :
    let u = usage_at (pos 2) "south" (gateway_usage stroke_ids one_way) in
    let ls = directed_links stroke_ids one_way in
    (u.outgoing ≡ starts_at (pos 2) "south" ls) × (u.incoming ≡ ends_at (pos 2) "south" ls)
usage_at-gateway_usage_example = usage_at-gateway_usage stroke_ids one_way (pos 2) "south"

one_incoming : (usage_at (pos 2) "south" (gateway_usage stroke_ids one_way)).incoming ≡ 1
unfolding gateway_usage directed_links parse_gateway_key split_at_colon
one_incoming = refl

unsaved : dirty_keys south_first stroke_ids one_way [] ≡ ("11:north" ∷ [])
unfolding dirty_keys sort_by insert_sorted
unsaved = refl
