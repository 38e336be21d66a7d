-- ===== src/PlatformTree.antt =====
-- The tree of hosts, instances and platforms: lib/platform-tree.ts, instanceAddress,
-- requestInstancePlatforms, applyActiveTransferState and buildPlatformTree. The order of texts
-- (`localeCompare`) is a parameter. Of a platform stands what the tree reads.
pub mod Shown
pub mod Complete
mod Tests
use clusterio_surface_export.Prelude.{
  ℕ, String, Bool, true, false, not, ◌&&◌, ◌||◌, Option, none, some, List, [], ◌∷◌, ◌++◌, map, eqb,
  concat, given_or, or_else, string_eq, ◌==◌, if◌then◌else◌,
}
use clusterio_surface_export.Prelude.Int.{ℤ, pos, int_eq}
use clusterio_surface_export.Prelude.Sort.{sort_by}
use clusterio_surface_export.JsMap.{JsMap, get, set, values}
use clusterio_surface_export.Transfer.{
  Status, completed, failed, cleanup_failed, error, ActiveTransfer,
}

pub record PlatformModel : Type 0 where
  pub platform_name : String
  pub platform_index : Option ℤ
  pub departure_tick : Option ℤ
  pub transfer_id : Option String
  pub transfer_status : Option Status  -- none is "idle"
  pub departure_date_ms : Option ℕ

pub record InstanceNode : Type 0 where
  pub instance_id : ℤ
  pub instance_name : String
  pub host_id : ℤ
  pub game_port : Option ℕ
  pub address : String
  pub status : String
  pub connected : Bool
  pub platforms : List PlatformModel
  pub platform_error : Option String

pub record HostNode : Type 0 where
  pub host_id : ℤ
  pub host_name : String
  pub connected : Bool
  pub instances : List InstanceNode

pub record Tree : Type 0 where
  pub hosts : List HostNode
  pub unassigned_instances : List InstanceNode

-- Clusterio's records of hosts and instances.
pub record HostEntry : Type 0 where
  pub id : ℤ
  pub name : String
  pub connected : Bool
  pub is_deleted : Bool
  pub public_address : Option String

pub record InstanceEntry : Type 0 where
  pub id : ℤ
  pub name : Option String
  pub assigned_host : Option ℤ
  pub is_deleted : Bool
  pub status : Option String
  pub game_port : Option ℕ

-- The answer to a request for an instance's platforms: a list, anything else, or an error.
pub data Listing : Type 0 where
  listed : List PlatformModel → Listing
  not_listed : Listing
  list_failed : String → Listing

-- The maps of transfers and departures are those at the time when the instance's answer comes.
pub record TreeEnv : Type 0 where
  pub hosts : JsMap ℤ HostEntry
  pub instances : JsMap ℤ InstanceEntry
  pub listing : ℤ → String → Listing
  pub transfers_at : ℤ → JsMap String ActiveTransfer
  pub departures_at : ℤ → JsMap String ℕ
  pub collates : String → String → Bool  -- `a.localeCompare(b) < 0`
  pub write : ℕ → String

unfoldable pub instance_address : TreeEnv → Option String → Option ℕ → String
instance_address v public_address none = ""
instance_address v public_address (some port) =
    if eqb port 0
    then ""
    else concat (given_or public_address "localhost") (concat ":" (v.write port))

-- requestInstancePlatforms
abbrev pub request_instance_platforms : Listing → List PlatformModel × Option String
request_instance_platforms (listed ps) = (ps, none)
request_instance_platforms not_listed = ([], none)
request_instance_platforms (list_failed e) = ([], some e)

abbrev pub has_ended : Status → Bool
has_ended completed = true
has_ended failed = true
has_ended cleanup_failed = true
has_ended error = true
has_ended _ = false

-- The guards of the loop over the transfers.
abbrev pub is_in_flight : ℤ → ActiveTransfer → Bool
is_in_flight id t = t.source_instance_id == id && not (has_ended t.status)

abbrev pub is_index : ℕ → Option ℤ → Bool
is_index n none = false
is_index n (some i) = not (eqb n 0) && i == pos n

abbrev pub moves : ActiveTransfer → PlatformModel → Bool
moves t p = is_index t.platform_index p.platform_index || p.platform_name == t.platform_name

abbrev pub carry : ActiveTransfer → PlatformModel → PlatformModel
carry t p = record p { transfer_id = some t.transfer_id; transfer_status = some t.status }

abbrev pub mark : ActiveTransfer → PlatformModel → PlatformModel
mark t p = if moves t p then carry t p else p

abbrev pub mark_each : ℤ → List ActiveTransfer → List PlatformModel → List PlatformModel
mark_each id [] ps = ps
mark_each id (t ∷ ts) ps = mark_each id ts (if is_in_flight id t then map (mark t) ps else ps)

abbrev pub reset : PlatformModel → PlatformModel
reset p = record p { transfer_id = none; transfer_status = none }

unfoldable pub apply_active_transfer_state :
    List PlatformModel → ℤ → JsMap String ActiveTransfer → List PlatformModel
apply_active_transfer_state ps id transfers = mark_each id (values transfers) (map reset ps)

abbrev with_departure : JsMap String ℕ → PlatformModel → PlatformModel
with_departure departures p = dated p.departure_tick
  where
    dated : Option ℤ → PlatformModel
    dated none = p
    dated (some tick) = record p { departure_date_ms = get p.platform_name departures }

with_platforms : TreeEnv → ℤ → List PlatformModel × Option String → InstanceNode → InstanceNode
unfolding sort_by apply_active_transfer_state
with_platforms v id (ps, e) n = record n {
  platforms = map (with_departure (v.departures_at id)) (
      sort_by (λ a b. v.collates a.platform_name b.platform_name)
        (apply_active_transfer_state ps id (v.transfers_at id)));
  platform_error = e;
}

abbrev address_of : Option HostEntry → Option String
address_of none = none
address_of (some h) = h.public_address

abbrev is_connected : Option HostEntry → Bool
is_connected none = false
is_connected (some h) = h.connected

-- `Number(null)` is 0: an instance with no host gets the host id 0.
abbrev pub host_id_of : InstanceEntry → ℤ
host_id_of i = or_else i.assigned_host (pos 0)

pub node_of : TreeEnv → String → InstanceEntry → InstanceNode
unfolding with_platforms instance_address
node_of v force i =
    let host = get (host_id_of i) v.hosts in
    let n : InstanceNode = record {
      instance_id = i.id;
      instance_name = or_else i.name "";
      host_id = host_id_of i;
      game_port = i.game_port;
      address = instance_address v (address_of host) i.game_port;
      status = or_else i.status "";
      connected = is_connected host;
      platforms = [];
      platform_error = none;
    } in
    if is_connected host && n.status == "running"
    then with_platforms v i.id (request_instance_platforms (v.listing i.id force)) n
    else n

-- The nodes of the hosts, while instances are put below them, and the instances below none.
pub record Nodes : Type 0 where
  pub host_nodes : JsMap ℤ HostNode
  pub unassigned : List InstanceNode

abbrev pub host_node : HostEntry → HostNode
host_node h = record { host_id = h.id; host_name = h.name; connected = h.connected; instances = [] }

abbrev pub host_nodes_of : List HostEntry → JsMap ℤ HostNode → JsMap ℤ HostNode
host_nodes_of [] m = m
host_nodes_of (h ∷ hs) m = host_nodes_of hs (if h.is_deleted then m else set h.id (host_node h) m)

abbrev pub under : Option HostNode → InstanceNode → Nodes → Nodes
under none n m = record m { unassigned = m.unassigned ++ n ∷ [] }
under (some h) n m = record m {
  host_nodes = set n.host_id (record h { instances = h.instances ++ n ∷ [] }) m.host_nodes;
}

abbrev pub place_instances : TreeEnv → String → List InstanceEntry → Nodes → Nodes
place_instances v force [] m = m
place_instances v force (i ∷ is) m = place_instances v force is (
    if i.is_deleted then m else let n = node_of v force i in under (get n.host_id m.host_nodes) n m)

pub sorted_host : TreeEnv → HostNode → HostNode
unfolding sort_by
sorted_host v h = record h {
  instances = sort_by (λ a b. v.collates a.instance_name b.instance_name) h.instances;
}

unfoldable pub build_platform_tree : TreeEnv → String → Tree
unfolding node_of sorted_host sort_by
build_platform_tree v force =
    let m : Nodes =
      place_instances v force (values v.instances)
        (record { host_nodes = host_nodes_of (values v.hosts) []; unassigned = [] }) in
    record {
      hosts =
          sort_by (λ a b. v.collates a.host_name b.host_name)
            (map (sorted_host v) (values m.host_nodes));
      unassigned_instances =
          sort_by (λ a b. v.collates a.instance_name b.instance_name) m.unassigned;
    }
