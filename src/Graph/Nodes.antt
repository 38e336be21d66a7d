-- ===== src/Graph/Nodes.antt =====
-- The nodes of the gateway page and where they stand: web/gateway/gateway-graph.ts, buildGraph and
-- preservePositions. `collates` is localeCompare. Of a platform the fields that the function reads are kept.
mod Tests
use clusterio_surface_export.Prelude.{
  ℕ, ◌+◌, ◌*◌, ◌-◌, ◌/◌, max, String, Bool, true, false, not, ◌&&◌, Option, none, some, List, [],
  ◌∷◌, ◌++◌, map, ◌==◌, string_eq, if◌then◌else◌, or_else, or_text, filter, any, concat,
}
use clusterio_surface_export.Prelude.Int.{ℤ, int_eq}
use clusterio_surface_export.Prelude.Sort.{sort_by}
use clusterio_surface_export.JsMap.{JsMap, get, set}
use clusterio_surface_export.Gateways.{IdText, GatewayMode, gateway_names_for}
use clusterio_surface_export.Graph.{Edits, directed_links}
use clusterio_surface_export.Graph.Edges.{
  GatewayUsage, Usage, usage_at, gateway_usage, GatewayEdge, build_edges, instance_node_id,
}

pub record GraphPlatform : Type 0 where
  pub platform_index : ℕ
  pub platform_name : String
  pub force_name : Option String
  pub has_space_hub : Bool

pub record GraphInstance : Type 0 where
  pub instance_id : ℤ
  pub instance_name : Option String
  pub address : Option String
  pub status : Option String
  pub connected : Bool
  pub platforms : List GraphPlatform

pub record GraphHost : Type 0 where
  pub host_id : ℤ
  pub host_name : Option String
  pub connected : Bool
  pub instances : List GraphInstance

pub record GraphTree : Type 0 where
  pub force_name : Option String
  pub hosts : List GraphHost
  pub unassigned_instances : List GraphInstance

abbrev pub node_diameter : ℕ
node_diameter = 150

abbrev pub caption_height : ℕ
caption_height = 76

abbrev pub caption_width : ℕ
caption_width = 190

abbrev pub instance_gap : ℕ
instance_gap = 70

abbrev pub column_gap : ℕ
column_gap = 90

abbrev pub column_width : ℕ
column_width = max node_diameter caption_width

abbrev pub column_pitch : ℕ
column_pitch = column_width + column_gap

-- `columnWidth` is not below `NODE_DIAMETER`, and the difference is even.
abbrev pub column_inset : ℕ
column_inset = max 0 ((column_width - node_diameter) / 2)

abbrev pub row_pitch : ℕ
row_pitch = node_diameter + caption_height + instance_gap

pub record Column : Type 0 where
  pub key : String
  pub name : Option String
  pub connected : Bool
  pub instances : List GraphInstance

pub record NodeData : Type 0 where
  pub dimmed : Bool
  pub mode : GatewayMode
  pub instance_id : ℤ
  pub instance_name : Option String
  pub address : String
  pub online : Bool
  pub host_key : String
  pub host_name : Option String
  pub platforms : List GraphPlatform
  pub gateways : JsMap String GatewayUsage

-- The style is the opacity of a dimmed node.
pub record GraphNode : Type 0 where
  pub id : String
  pub x : ℕ
  pub y : ℕ
  pub data_of : NodeData

pub record GraphModel : Type 0 where
  pub nodes : List GraphNode
  pub edges : List GatewayEdge
  pub hosts : List (String × Option String × Bool)

abbrev is_online : GraphInstance → Bool
is_online i = i.connected && or_else i.status "" == "running"

abbrev by_instance_name : (String → String → Bool) → GraphInstance → GraphInstance → Bool
by_instance_name collates a b = collates (or_else a.instance_name "") (or_else b.instance_name "")

abbrev by_host_name : (String → String → Bool) → GraphHost → GraphHost → Bool
by_host_name collates a b = collates (or_else a.host_name "") (or_else b.host_name "")

abbrev host_column : (String → String → Bool) → IdText → GraphHost → Column
unfolding sort_by
host_column collates ids h = record {
  key = ids.write h.host_id;
  name = h.host_name;
  connected = h.connected;
  instances = sort_by (by_instance_name collates) h.instances;
}

abbrev unassigned_column : List GraphInstance → List Column
unassigned_column [] = []
unassigned_column (i ∷ is) =
    record { key = "unassigned"; name = some "Unassigned"; connected = false; instances = i ∷ is }
    ∷ []

abbrev pub columns_of : (String → String → Bool) → IdText → GraphTree → List Column
unfolding sort_by
columns_of collates ids t =
    map (host_column collates ids) (sort_by (by_host_name collates) t.hosts)
    ++ unassigned_column (sort_by (by_instance_name collates) t.unassigned_instances)

-- Names of gateways differ, so each is set once.
abbrev per_gateway : Usage → ℤ → List String → JsMap String GatewayUsage
per_gateway usage i [] = []
per_gateway usage i (n ∷ names) = (n, usage_at i n usage) ∷ per_gateway usage i names

abbrev with_force : Option String → GraphPlatform → GraphPlatform
with_force force p = record p {
  force_name = some (or_text (or_else p.force_name "") (or_text (or_else force "") "player"));
}

abbrev is_dimmed : Bool → String → Column → Bool
is_dimmed filtering host_filter c = filtering && not (c.key == host_filter)

abbrev pub node_for :
    IdText → Option String → GatewayMode → Usage → Bool → ℕ → ℕ → Column → GraphInstance → GraphNode
unfolding gateway_names_for
node_for ids force mode usage dimmed column_index index c i = record {
  id = instance_node_id ids i.instance_id;
  x = column_index * column_pitch + column_inset;
  y = index * row_pitch;
  data_of = record {
    dimmed = dimmed;
    mode = mode;
    instance_id = i.instance_id;
    instance_name = i.instance_name;
    address = or_else i.address "";
    online = is_online i;
    host_key = c.key;
    host_name = c.name;
    platforms = map (with_force force) (filter (λ p. p.has_space_hub) i.platforms);
    gateways = per_gateway usage i.instance_id (gateway_names_for mode);
  };
}

-- What the nodes of all columns share.
pub record Drawing : Type 0 where
  pub ids : IdText
  pub force : Option String
  pub mode : GatewayMode
  pub usage : Usage
  pub filtering : Bool
  pub host_filter : String

abbrev pub column_nodes : Drawing → ℕ → ℕ → Column → List GraphInstance → List GraphNode
column_nodes d column_index index c [] = []
column_nodes d column_index index c (i ∷ is) =
    node_for d.ids d.force d.mode d.usage (is_dimmed d.filtering d.host_filter c) column_index index
      c i
    ∷ column_nodes d column_index (index + 1) c is

abbrev pub nodes_from : Drawing → ℕ → List Column → List GraphNode
nodes_from d column_index [] = []
nodes_from d column_index (c ∷ cs) =
    column_nodes d column_index 0 c c.instances ++ nodes_from d (column_index + 1) cs

abbrev is_filtering : String → List Column → Bool
is_filtering host_filter cs = not (host_filter == "all") && any (λ c. c.key == host_filter) cs

abbrev pub drawing_of : IdText → GraphTree → Edits → GatewayMode → String → List Column → Drawing
unfolding gateway_usage
drawing_of ids t edits mode host_filter columns = record {
  ids = ids;
  force = t.force_name;
  mode = mode;
  usage = gateway_usage ids edits;
  filtering = is_filtering host_filter columns;
  host_filter = host_filter;
}

unfoldable pub build_graph :
    (String → String → Bool)
    → (String → String → Bool)
    → IdText
    → GraphTree
    → Edits
    → GatewayMode
    → String
    → GraphModel
unfolding build_edges sort_by
build_graph precedes collates ids t edits mode host_filter =
    let columns = columns_of collates ids t in
    record {
      nodes = nodes_from (drawing_of ids t edits mode host_filter columns) 0 columns;
      edges = build_edges precedes collates ids edits;
      hosts = map (λ c. (c.key, c.name, c.connected)) columns;
    }

pub record PositionedNode : Type 0 where
  pub id : String
  pub x : ℤ
  pub y : ℤ
  pub selected : Option Bool

-- `new Map(previous.map(...))`
abbrev by_id : List PositionedNode → JsMap String PositionedNode → JsMap String PositionedNode
by_id [] m = m
by_id (n ∷ ns) m = by_id ns (set n.id n m)

abbrev keep_position : Option PositionedNode → PositionedNode → PositionedNode
keep_position none n = n
keep_position (some e) n = record n { x = e.x; y = e.y; selected = e.selected }

unfoldable pub preserve_positions : List PositionedNode → List PositionedNode → List PositionedNode
preserve_positions [] next = next
preserve_positions (p ∷ previous) next =
    let known = by_id (p ∷ previous) [] in map (λ n. keep_position (get n.id known) n) next
