-- ===== src/Cluster.antt =====
-- The controller's view of the cluster: resolveInstanceName and resolveTargetInstance of
-- lib/platform-tree.ts, isInstanceOnline of controller.ts. The registries of hosts and instances are
-- Clusterio's and enter as a value.
use clusterio_surface_export.Prelude.{
  String, Bool, false, not, ◌&&◌, ◌||◌, Option, none, some, string_eq, or_else, or_null, find, ◌==◌,
}
use clusterio_surface_export.Prelude.Int.{ℤ, pos, int_eq}
use clusterio_surface_export.JsMap.{JsMap, get, values}

pub record Instance : Type 0 where
  pub id : ℤ
  pub name : Option String
  pub assigned_host : Option ℤ
  pub is_deleted : Bool
  pub status : String

pub record Host : Type 0 where
  pub id : ℤ
  pub connected : Bool

pub record Cluster : Type 0 where
  pub instances : JsMap ℤ Instance
  pub hosts : JsMap ℤ Host
  pub write : ℤ → String  -- `String(n)`

name_of : Option Instance → Option String
name_of none = none
name_of (some i) = or_null i.name

unfoldable pub resolve_instance_name : Cluster → ℤ → Option String
unfolding name_of
resolve_instance_name c id = name_of (get id c.instances)

abbrev has_name : String → Instance → Bool
has_name s i = is_named i.name
  where
    is_named : Option String → Bool
    is_named none = false
    is_named (some n) = n == s

abbrev on_host : ℤ → Instance → Bool
on_host target i = is_host i.assigned_host
  where
    is_host : Option ℤ → Bool
    is_host none = false
    is_host (some h) = h == target

-- By id; else the first instance with that name or on that host. `none` is the code's null.
by_name_or_host : Cluster → ℤ → Option Instance → Option ℤ
by_name_or_host c target none = none
by_name_or_host c target (some i) = some i.id

direct_or_search : Cluster → ℤ → Option Instance → Option ℤ
unfolding by_name_or_host
direct_or_search c target (some i) = some target
direct_or_search c target none =
    by_name_or_host c target
      (find (λ i. has_name (c.write target) i || on_host target i) (values c.instances))

unfoldable pub resolve_target_instance : Cluster → ℤ → Option ℤ
unfolding direct_or_search
resolve_target_instance c target = direct_or_search c target (get target c.instances)

host_connected : Option Host → Bool
host_connected none = false
host_connected (some h) = h.connected

-- `Number(null)` is 0: an instance with no host is looked up on host 0.
online_instance : Cluster → Option Instance → Bool
unfolding host_connected
online_instance c none = false
online_instance c (some i) =
    not i.is_deleted
    && (host_connected (get (or_else i.assigned_host (pos 0)) c.hosts) && i.status == "running")

unfoldable pub is_instance_online : Cluster → ℤ → Bool
unfolding online_instance
is_instance_online c id = online_instance c (get id c.instances)
