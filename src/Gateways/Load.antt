-- ===== src/Gateways/Load.antt =====
-- Reading the gateway settings at a start: controller.ts, loadGatewayConfig.
use clusterio_surface_export.Prelude.{
  ℕ, ◌+◌, String, Bool, false, not, string_eq, Option, none, some, List, [], ◌∷◌, if◌then◌else◌,
  filter, ltb,
}
use clusterio_surface_export.Prelude.Int.{ℤ, int_eq}
use clusterio_surface_export.JsMap.{set, values}
use clusterio_surface_export.Cluster.{Cluster, Instance}
use clusterio_surface_export.Gateways.{
  all_gateway_names, includes, GatewayLink, Links, IdText, gateway_key, parse_gateway_key, links_to,
}

-- An element of the file's array: a key and its links, or something else.
pub data SavedEntry : Type 0 where
  saved_entry : String → List GatewayLink → SavedEntry
  malformed : SavedEntry

-- A file that cannot be read or parsed, one that holds no array, or the elements of its array.
pub data ConfigFile : Type 0 where
  unreadable : ConfigFile
  no_array : ConfigFile
  array : List SavedEntry → ConfigFile

abbrev pub live_instances : Cluster → List Instance
live_instances c = filter (λ i. not i.is_deleted) (values c.instances)

abbrev set_if_any : String → List GatewayLink → Links → Links
set_if_any key [] links = links
set_if_any key (t ∷ ts) links = set key (t ∷ ts) links

-- A cluster-wide link becomes one of each live instance, but for links to itself.
pub migrate : IdText → String → List GatewayLink → List Instance → Links → Links
unfolding gateway_key
migrate ids name ts [] links = links
migrate ids name ts (i ∷ is) links =
    migrate ids name ts is
      (set_if_any (gateway_key ids i.id name) (filter (λ l. not (links_to i.id l)) ts) links)

-- With the number of cluster-wide links migrated.
pub load_legacy : IdText → List Instance → String → List GatewayLink → Links × ℕ → Links × ℕ
unfolding migrate
load_legacy ids [] key ts (links, n) = (set key ts links, n)
load_legacy ids (i ∷ is) key ts (links, n) = (migrate ids key ts (i ∷ is) links, n + 1)

unfoldable pub load_parsed :
    IdText → List Instance → String → List GatewayLink → Option (ℤ × String) → Links × ℕ → Links × ℕ
unfolding load_legacy
load_parsed ids live key ts (some (i, name)) (links, n) =
    if includes name all_gateway_names then (set key ts links, n) else (links, n)
load_parsed ids live key ts none r =
    if includes key all_gateway_names then load_legacy ids live key ts r else r

unfoldable pub load_entries : IdText → List Instance → List SavedEntry → Links × ℕ → Links × ℕ
unfolding load_parsed parse_gateway_key
load_entries ids live [] r = r
load_entries ids live (malformed ∷ es) r = load_entries ids live es r
load_entries ids live (saved_entry key ts ∷ es) r =
    load_entries ids live es (load_parsed ids live key ts (parse_gateway_key ids key) r)

-- The links in memory, and whether they are written back because some were migrated.
unfoldable pub load_gateway_config : IdText → Cluster → ConfigFile → Links → Links × Bool
unfolding load_entries
load_gateway_config ids c unreadable links = (links, false)
load_gateway_config ids c no_array links = (links, false)
load_gateway_config ids c (array es) links =
    let r = load_entries ids (live_instances c) es (links, 0) in (r.0, ltb 0 r.1)
