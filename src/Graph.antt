-- ===== src/Graph.antt =====
-- The page on which gateways are connected: web/gateway/gateway-graph.ts. The edits are an object
-- from `<instance>:<gateway>` to targets; its keys are no array indices, so they keep their order.
pub mod Linked
pub mod Mirrored
pub mod Edges
pub mod Usage
pub mod Shown
pub mod Nodes
pub mod Placed
mod Tests
use clusterio_surface_export.Prelude.{
  String, Bool, true, false, not, ◌&&◌, ◌||◌, Option, none, some, List, [], ◌∷◌, ◌++◌, map, ◌==◌,
  string_eq, if◌then◌else◌, is_empty, or_text, any, or_else, filter,
}
use clusterio_surface_export.Prelude.Int.{ℤ, int_eq}
use clusterio_surface_export.JsMap.{JsMap, get, set}
use clusterio_surface_export.Gateways.{GatewayLink, IdText, gateway_key, parse_gateway_key}

abbrev pub Edits : Type 0
Edits = JsMap String (List GatewayLink)

-- `edits[key] || []`
abbrev pub targets_at : String → Edits → List GatewayLink
targets_at key edits = or_else (get key edits) []

abbrev pub is_same_target : GatewayLink → GatewayLink → Bool
is_same_target a b =
    a.target_instance_id == b.target_instance_id && a.target_gateway == b.target_gateway

abbrev pub with_target : List GatewayLink → GatewayLink → List GatewayLink
with_target targets add =
    if any (λ t. is_same_target t add) targets then targets else targets ++ add ∷ []

abbrev pub without_target : List GatewayLink → GatewayLink → List GatewayLink
without_target targets drop = filter (λ t. not (is_same_target t drop)) targets

pub record ConnectRequest : Type 0 where
  pub source_instance_id : ℤ
  pub source_gateway : String
  pub target_instance_id : ℤ
  pub target_gateway : String

abbrev pub link_to : ℤ → String → GatewayLink
link_to i name = record { target_instance_id = i; target_gateway = name }

-- Both ends of a request are changed, each from the edits as they were.
abbrev pub change_both :
    (List GatewayLink → GatewayLink → List GatewayLink) → IdText → Edits → ConnectRequest → Edits
change_both change ids edits q =
    let forward = gateway_key ids q.source_instance_id q.source_gateway in
    let reverse = gateway_key ids q.target_instance_id q.target_gateway in
    set reverse (change (targets_at reverse edits) (link_to q.source_instance_id q.source_gateway))
      (set forward
        (change (targets_at forward edits) (link_to q.target_instance_id q.target_gateway)) edits)

unfoldable pub apply_connect : IdText → Edits → ConnectRequest → Edits
unfolding gateway_key
apply_connect ids edits q =
    if q.source_instance_id == q.target_instance_id
    then edits
    else if is_empty q.source_gateway || is_empty q.target_gateway
    then edits
    else change_both with_target ids edits q

unfoldable pub apply_disconnect : IdText → Edits → ConnectRequest → Edits
unfolding gateway_key
apply_disconnect ids edits q = change_both without_target ids edits q

-- A row of the controller's answer.
pub record LinkRow : Type 0 where
  pub source_instance_id : ℤ
  pub gateway_name : String
  pub targets : List GatewayLink

abbrev named_targets : String → List GatewayLink → List GatewayLink
named_targets name ts = map (λ t. link_to t.target_instance_id (or_text t.target_gateway name)) ts

abbrev edits_from : IdText → List LinkRow → Edits → Edits
edits_from ids [] edits = edits
edits_from ids (r ∷ rows) edits =
    let next =
      set (gateway_key ids r.source_instance_id r.gateway_name)
        (named_targets r.gateway_name r.targets) edits in
    let rest = edits_from ids rows next in
    if is_empty r.gateway_name then edits_from ids rows edits else rest

unfoldable pub edits_from_links : IdText → List LinkRow → Edits
unfolding gateway_key
edits_from_links ids rows = edits_from ids rows []

pub record DirectedLink : Type 0 where
  pub from_instance : ℤ
  pub from_gateway : String
  pub to_instance : ℤ
  pub to_gateway : String

abbrev links_from : Option (ℤ × String) → List GatewayLink → List DirectedLink
links_from none ts = []
links_from (some (i, name)) ts =
    map
      (λ t. record {
        from_instance = i;
        from_gateway = name;
        to_instance = t.target_instance_id;
        to_gateway = or_text t.target_gateway name;
      })
      ts

unfoldable pub directed_links : IdText → Edits → List DirectedLink
unfolding parse_gateway_key
directed_links ids [] = []
directed_links ids ((key, ts) ∷ edits) =
    links_from (parse_gateway_key ids key) ts ++ directed_links ids edits
