-- ===== src/Graph/Edges.antt =====
-- The edges, the counts and the unsaved keys that the gateway page shows: web/gateway/gateway-graph.ts,
-- buildEdges, gatewayUsage and dirtyKeys. `precedes` is the order of strings, `collates` localeCompare.
use clusterio_surface_export.Prelude.{
  ℕ, ◌+◌, String, Bool, true, false, not, ◌&&◌, List, [], ◌∷◌, ◌++◌, map, ◌==◌, string_eq,
  if◌then◌else◌, or_else, filter, length, eqb, concat,
}
use clusterio_surface_export.Prelude.Int.{ℤ, int_eq}
use clusterio_surface_export.Prelude.Sort.{sort_by}
use clusterio_surface_export.JsMap.{JsMap, get, set, has, keys, values}
use clusterio_surface_export.Gateways.{GatewayLink, IdText}
use clusterio_surface_export.Graph.{Edits, DirectedLink, directed_links, targets_at}

pub record Endpoint : Type 0 where
  pub instance_id : ℤ
  pub gateway_name : String

abbrev pub endpoint_key : IdText → Endpoint → String
endpoint_key ids e = concat (ids.write e.instance_id) (concat "/" e.gateway_name)

abbrev pub is_flipped : (String → String → Bool) → IdText → Endpoint → Endpoint → Bool
is_flipped precedes ids a b = precedes (endpoint_key ids b) (endpoint_key ids a)

abbrev pub low_of : (String → String → Bool) → IdText → Endpoint → Endpoint → Endpoint
low_of precedes ids a b = if is_flipped precedes ids a b then b else a

abbrev pub high_of : (String → String → Bool) → IdText → Endpoint → Endpoint → Endpoint
high_of precedes ids a b = if is_flipped precedes ids a b then a else b

abbrev pub edge_id : (String → String → Bool) → IdText → Endpoint → Endpoint → String
edge_id precedes ids a b = concat "link:" (
    concat (endpoint_key ids (low_of precedes ids a b))
      (concat "|" (endpoint_key ids (high_of precedes ids a b))))

pub record GatewayEdge : Type 0 where
  pub id : String
  pub source : String
  pub source_handle : String
  pub target : String
  pub target_handle : String
  pub source_instance_id : ℤ
  pub source_gateway : String
  pub target_instance_id : ℤ
  pub target_gateway : String
  pub forward : Bool
  pub reverse : Bool

abbrev pub instance_node_id : IdText → ℤ → String
instance_node_id ids i = concat "instance:" (ids.write i)

abbrev source_handle_id : String → String
source_handle_id name = concat "s:" name

abbrev target_handle_id : String → String
target_handle_id name = concat "t:" name

abbrev pub new_edge : IdText → String → Endpoint → Endpoint → GatewayEdge
new_edge ids k low high = record {
  id = k;
  source = instance_node_id ids low.instance_id;
  source_handle = source_handle_id low.gateway_name;
  target = instance_node_id ids high.instance_id;
  target_handle = target_handle_id high.gateway_name;
  source_instance_id = low.instance_id;
  source_gateway = low.gateway_name;
  target_instance_id = high.instance_id;
  target_gateway = high.gateway_name;
  forward = false;
  reverse = false;
}

abbrev pub mark_way : Bool → GatewayEdge → GatewayEdge
mark_way true e = record e { reverse = true }
mark_way false e = record e { forward = true }

abbrev pub from_endpoint : DirectedLink → Endpoint
from_endpoint l = record { instance_id = l.from_instance; gateway_name = l.from_gateway }

abbrev pub to_endpoint : DirectedLink → Endpoint
to_endpoint l = record { instance_id = l.to_instance; gateway_name = l.to_gateway }

abbrev pub flips : (String → String → Bool) → IdText → DirectedLink → Bool
flips precedes ids l = is_flipped precedes ids (from_endpoint l) (to_endpoint l)

-- The id of a link's edge: of the two ends in order, put in order once more.
abbrev pub link_id : (String → String → Bool) → IdText → DirectedLink → String
link_id precedes ids l =
    let low = low_of precedes ids (from_endpoint l) (to_endpoint l) in
    let high = high_of precedes ids (from_endpoint l) (to_endpoint l) in
    edge_id precedes ids low high

-- One turn of the loop: an edge is made where there is none, and gets the link's way.
abbrev pub add_link :
    (String → String → Bool)
    → IdText
    → DirectedLink
    → JsMap String GatewayEdge
    → JsMap String GatewayEdge
add_link precedes ids l by_pair =
    let k = link_id precedes ids l in
    let fresh =
      new_edge ids k (low_of precedes ids (from_endpoint l) (to_endpoint l))
        (high_of precedes ids (from_endpoint l) (to_endpoint l)) in
    set k (mark_way (flips precedes ids l) (or_else (get k by_pair) fresh)) by_pair

abbrev pub add_links :
    (String → String → Bool)
    → IdText
    → List DirectedLink
    → JsMap String GatewayEdge
    → JsMap String GatewayEdge
add_links precedes ids [] by_pair = by_pair
add_links precedes ids (l ∷ ls) by_pair =
    add_links precedes ids ls (add_link precedes ids l by_pair)

unfoldable pub build_edges :
    (String → String → Bool) → (String → String → Bool) → IdText → Edits → List GatewayEdge
unfolding directed_links sort_by
build_edges precedes collates ids edits =
    sort_by (λ a. λ b. collates a.id b.id)
      (values (add_links precedes ids (directed_links ids edits) []))

pub record GatewayUsage : Type 0 where
  pub outgoing : ℕ
  pub incoming : ℕ

abbrev pub Usage : Type 0
Usage = JsMap ℤ (JsMap String GatewayUsage)

abbrev pub usage_at : ℤ → String → Usage → GatewayUsage
usage_at i name u =
    or_else (get name (or_else (get i u) [])) (record { outgoing = 0; incoming = 0 })

abbrev pub bump : (GatewayUsage → GatewayUsage) → ℤ → String → Usage → Usage
bump change i name u = set i (set name (change (usage_at i name u)) (or_else (get i u) [])) u

abbrev pub one_out : GatewayUsage → GatewayUsage
one_out e = record e { outgoing = e.outgoing + 1 }

abbrev pub one_in : GatewayUsage → GatewayUsage
one_in e = record e { incoming = e.incoming + 1 }

abbrev pub count_links : List DirectedLink → Usage → Usage
count_links [] u = u
count_links (l ∷ ls) u =
    count_links ls
      (bump one_in l.to_instance l.to_gateway (bump one_out l.from_instance l.from_gateway u))

unfoldable pub gateway_usage : IdText → Edits → Usage
unfolding directed_links
gateway_usage ids edits = count_links (directed_links ids edits) []

abbrev target_text : IdText → GatewayLink → String
target_text ids t = concat (ids.write t.target_instance_id) (concat "/" t.target_gateway)

abbrev pub encode : (String → String → Bool) → IdText → List GatewayLink → List String
unfolding sort_by
encode precedes ids ts = sort_by precedes (map (target_text ids) ts)

abbrev pub every_same : List String → List String → Bool
every_same [] right = true
every_same (x ∷ left) [] = false
every_same (x ∷ left) (y ∷ right) = x == y && every_same left right

abbrev pub same_targets :
    (String → String → Bool) → IdText → List GatewayLink → List GatewayLink → Bool
same_targets precedes ids a b =
    eqb (length a) (length b) && every_same (encode precedes ids a) (encode precedes ids b)

unfoldable pub dirty_keys : (String → String → Bool) → IdText → Edits → Edits → List String
unfolding sort_by
dirty_keys precedes ids edits baseline = sort_by precedes (
    filter (λ k. not (same_targets precedes ids (targets_at k edits) (targets_at k baseline)))
      (keys edits ++ filter (λ k. not (has k edits)) (keys baseline)))
