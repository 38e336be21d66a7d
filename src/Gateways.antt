-- ===== src/Gateways.antt =====
-- Gateways between instances: shared/dto.ts (names, modes, checkMultiModeLink) and the gateway part
-- of controller.ts. A gateway's links are kept under `<instance>:<gateway>`; how JavaScript writes
-- and reads an instance id is a parameter. The texts of refusals are constructors.
pub mod Set
pub mod Keys
pub mod Proposed
pub mod MultiMode
pub mod Checked
pub mod Requested
pub mod Load
pub mod Reload
pub mod Read
pub mod Tests
pub mod Accepted
use clusterio_surface_export.Prelude.{
  ℕ, String, Bool, true, false, ◌||◌, Option, none, some, List, [], ◌∷◌, ◌++◌, map, ◌==◌, string_eq,
  if◌then◌else◌, is_empty, concat, any, or_else, length, ltb,
}
use clusterio_surface_export.Prelude.Int.{ℤ, int_eq}
use clusterio_surface_export.JsMap.{JsMap}
use clusterio_surface_export.CanonicalId.{split_at_colon}
use clusterio_surface_export.Cluster.{Cluster, resolve_instance_name, is_instance_online}

pub data GatewayMode : Type 0 where
  one_gate : GatewayMode
  multi : GatewayMode

abbrev pub multi_gateway_names : List String
multi_gateway_names =
    "surfexp_gateway_1" ∷ "surfexp_gateway_2" ∷ "surfexp_gateway_3" ∷ "surfexp_gateway_4" ∷ []

abbrev pub one_gate_names : List String
one_gate_names = "surfexp_gateway_hub" ∷ []

abbrev pub all_gateway_names : List String
all_gateway_names = multi_gateway_names ++ one_gate_names

abbrev pub gateway_names_for : GatewayMode → List String
gateway_names_for one_gate = one_gate_names
gateway_names_for multi = multi_gateway_names

-- `names.includes(name)`
abbrev pub includes : String → List String → Bool
includes name names = any (λ n. n == name) names

-- The mode, and whether there is a warning. `none` is a value that is no text.
pub parse_gateway_mode : Option String → GatewayMode × Bool
parse_gateway_mode none = (one_gate, true)
parse_gateway_mode (some s) =
    if s == "one_gate"
    then (one_gate, false)
    else if s == "multi"
    then (multi, false)
    else (one_gate, true)

pub record GatewayLink : Type 0 where
  pub target_instance_id : ℤ
  pub target_gateway : String

abbrev pub Links : Type 0
Links = JsMap String (List GatewayLink)

pub data Violation : Type 0 where
  many_targets : String → ℕ → Violation
  already_linked : String → ℤ → Violation

abbrev pub links_to : ℤ → GatewayLink → Bool
links_to i l = l.target_instance_id == i

-- The loop over the other gateways, for one target.
abbrev pub find_clash : String → ℤ → Links → Option Violation
find_clash name i [] = none
find_clash name i ((other, targets) ∷ others) =
    let rest = find_clash name i others in
    if other == name
    then rest
    else if any (links_to i) targets
    then some (already_linked other i)
    else rest

-- checkMultiModeLink; `none` is the code's null.
abbrev pub check_multi_mode_link : String → List GatewayLink → Links → Option Violation
check_multi_mode_link name [] others = none
check_multi_mode_link name (t ∷ []) others = find_clash name t.target_instance_id others
check_multi_mode_link name (t ∷ u ∷ ts) others = some (many_targets name (length (t ∷ u ∷ ts)))

-- `String(id)`, and `Number(text)` where it is an integer.
pub record IdText : Type 0 where
  pub write : ℤ → String
  pub read : String → Option ℤ

unfoldable pub gateway_key : IdText → ℤ → String → String
gateway_key ids source name = concat (ids.write source) (concat ":" name)

abbrev source_and_name : Option ℤ → String → Option (ℤ × String)
source_and_name none name = none
source_and_name (some i) name = if is_empty name then none else some (i, name)

abbrev parse_key_parts : IdText → Option (String × String) → Option (ℤ × String)
parse_key_parts ids none = none
parse_key_parts ids (some (p, name)) =
    if is_empty p then none else source_and_name (ids.read p) name

unfoldable pub parse_gateway_key : IdText → String → Option (ℤ × String)
unfolding split_at_colon
parse_gateway_key ids key = parse_key_parts ids (split_at_colon key)

pub record ResolvedTarget : Type 0 where
  pub instance_id : ℤ
  pub instance_name : String
  pub target_gateway : String
  pub online : Bool

pub record ResolvedGateway : Type 0 where
  pub gateway_name : String
  pub targets : List ResolvedTarget

resolve_target : Cluster → GatewayLink → ResolvedTarget
unfolding resolve_instance_name is_instance_online
resolve_target c l = record {
  instance_id = l.target_instance_id;
  instance_name = or_else (resolve_instance_name c l.target_instance_id) "(unknown)";
  target_gateway = l.target_gateway;
  online = is_instance_online c l.target_instance_id;
}

-- The gateways of one source among all entries.
abbrev resolve_parsed : Cluster → ℤ → List GatewayLink → Option (ℤ × String) → List ResolvedGateway
resolve_parsed c source links none = []
resolve_parsed c source links (some (i, name)) =
    if i == source
    then record { gateway_name = name; targets = map (resolve_target c) links } ∷ []
    else []

unfoldable pub resolve_gateways : IdText → Cluster → ℤ → Links → List ResolvedGateway
unfolding resolve_target parse_gateway_key
resolve_gateways ids c source [] = []
resolve_gateways ids c source ((key, links) ∷ rest) =
    resolve_parsed c source links (parse_gateway_key ids key) ++ resolve_gateways ids c source rest
