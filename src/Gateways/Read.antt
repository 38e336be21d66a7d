-- ===== src/Gateways/Read.antt =====
-- What the gateway settings are shown as: controller.ts, handleGetGatewaysRequest and
-- handleGetGatewayConfigRequest.
use clusterio_surface_export.Prelude.{
  String, Option, none, some, List, [], ◌∷◌, ◌++◌, if◌then◌else◌,
}
use clusterio_surface_export.Prelude.Int.{ℤ}
use clusterio_surface_export.Cluster.{Cluster}
use clusterio_surface_export.Gateways.{
  GatewayMode, gateway_names_for, includes, GatewayLink, Links, IdText, parse_gateway_key,
  ResolvedGateway, resolve_gateways,
}

pub record ShownLink : Type 0 where
  pub source_instance_id : ℤ
  pub gateway_name : String
  pub targets : List GatewayLink

abbrev shown : List String → List GatewayLink → Option (ℤ × String) → List ShownLink
shown active targets none = []
shown active targets (some (i, name)) =
    if includes name active
    then record { source_instance_id = i; gateway_name = name; targets = targets } ∷ []
    else []

abbrev shown_links : IdText → List String → Links → List ShownLink
shown_links ids active [] = []
shown_links ids active ((key, targets) ∷ links) =
    shown active targets (parse_gateway_key ids key) ++ shown_links ids active links

pub handle_get_gateways :
    IdText → GatewayMode → Links → GatewayMode × (List String × List ShownLink)
unfolding parse_gateway_key
handle_get_gateways ids mode links =
    (mode, (gateway_names_for mode, shown_links ids (gateway_names_for mode) links))

pub handle_get_gateway_config :
    IdText → GatewayMode → Cluster → ℤ → Links → List ResolvedGateway × List String
unfolding resolve_gateways
handle_get_gateway_config ids mode c source links =
    (resolve_gateways ids c source links, gateway_names_for mode)
