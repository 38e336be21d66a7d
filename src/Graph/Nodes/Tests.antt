-- ===== src/Graph/Nodes/Tests.antt =====
-- A host with two instances, and an instance that is on no host.
use clusterio_surface_export.Prelude.{
  ℕ, String, Bool, true, false, ◌≡◌, refl, none, some, List, [], ◌∷◌, map, string_eq,
}
use clusterio_surface_export.Prelude.Int.{pos}
use clusterio_surface_export.Prelude.Sort.{insert_sorted, sort_by}
use clusterio_surface_export.Gateways.{multi}
use clusterio_surface_export.Gateways.Tests.{stroke_ids}
use clusterio_surface_export.Graph.Nodes.{
  GraphPlatform, GraphInstance, GraphTree, PositionedNode, drawing_of, build_graph,
  preserve_positions,
}
use clusterio_surface_export.Graph.Placed.{AreClear, build_graph-AreClear}

abbrev never : String → String → Bool
never a b = false

abbrev hub : GraphPlatform
hub = record {
  platform_index = 1;
  platform_name = "Hauler";
  force_name = none;
  has_space_hub = true;
}

abbrev instance_of : ℕ → GraphInstance
instance_of i = record {
  instance_id = pos i;
  instance_name = some "nauvis";
  address = none;
  status = some "running";
  connected = true;
  platforms = hub ∷ record hub { has_space_hub = false } ∷ [];
}

abbrev small_tree : GraphTree
small_tree = record {
  force_name = none;
  hosts =
      record {
        host_id = pos 1;
        host_name = some "first";
        connected = true;
        instances = instance_of 1 ∷ instance_of 2 ∷ [];
      }
      ∷ [];
  unassigned_instances = instance_of 3 ∷ [];
}

-- The unassigned instance stands in a column of its own, dimmed where the first host is chosen.
placed :
    map {B = ℕ × ℕ × Bool}
      (λ n. (n.x, n.y, n.data_of.dimmed))
      (build_graph never never stroke_ids small_tree [] multi "11").nodes
    ≡ ((20, 0, false) ∷ (20, 296, false) ∷ (300, 0, true) ∷ [])
unfolding build_graph drawing_of sort_by insert_sorted
placed = refl

-- Only platforms with a hub are shown, with a force.
hubs_only :
    map {B = List String}
      (λ n. map {B = String} (λ p. p.platform_name) n.data_of.platforms)
      (build_graph never never stroke_ids small_tree [] multi "all").nodes
    ≡ (("Hauler" ∷ []) ∷ ("Hauler" ∷ []) ∷ ("Hauler" ∷ []) ∷ [])
unfolding build_graph drawing_of sort_by insert_sorted
hubs_only = refl

all_clear : AreClear (build_graph never never stroke_ids small_tree [] multi "all").nodes
all_clear = build_graph-AreClear never never stroke_ids small_tree [] multi "all"

abbrev fresh_node : PositionedNode
fresh_node = record { id = "instance:11"; x = pos 20; y = pos 0; selected = none }

-- A node that was moved stays where it is.
stays :
    preserve_positions
      (record fresh_node { x = pos 70; selected = some true } ∷ [])
      (fresh_node ∷ record fresh_node { id = "instance:111" } ∷ [])
    ≡ (record fresh_node { x = pos 70; selected = some true }
        ∷ record fresh_node { id = "instance:111" }
        ∷ [])
unfolding preserve_positions
stays = refl
