-- ===== src/PlatformTree/Tests.antt =====
-- A tree of two instances, one of them on a host.
use clusterio_surface_export.Prelude.{◌≡◌, true, false, none, some, [], ◌∷◌, map, string_eq}
use clusterio_surface_export.Prelude.Int.{ℤ, pos, int_eq}
use clusterio_surface_export.Transfer.{transporting, completed}
use clusterio_surface_export.Transfer.Tests.{ship}
use clusterio_surface_export.PlatformTree.{
  PlatformModel, InstanceEntry, listed, TreeEnv, apply_active_transfer_state, build_platform_tree,
}
use clusterio_surface_export.PlatformTree.Shown.{shown, apply_active_transfer_state_lem}
use clusterio_surface_export.PlatformTree.Complete.{count_tree, count-build_platform_tree}

abbrev hauler : PlatformModel
hauler = record {
  platform_name = "Hauler";
  platform_index = some (pos 4);
  departure_tick = none;
  transfer_id = none;
  transfer_status = none;
  departure_date_ms = none;
}

abbrev instance : ℤ → InstanceEntry
instance i = record {
  id = i;
  name = some "nauvis";
  assigned_host = some (pos 1);
  is_deleted = false;
  status = some "running";
  game_port = some 34197;
}

abbrev one_host : TreeEnv
one_host = record {
  hosts =
      (
        pos 1,
        record {
          id = pos 1;
          name = "alpha";
          connected = true;
          is_deleted = false;
          public_address = none;
        },
      )
      ∷ [];
  instances =
      (pos 1, instance (pos 1))
      ∷ (pos 2, record (instance (pos 2)) { assigned_host = none })
      ∷ (pos 3, record (instance (pos 3)) { is_deleted = true })
      ∷ [];
  listing = λ i force. listed (hauler ∷ []);
  transfers_at = λ i. ("11:7", ship transporting) ∷ [];
  departures_at = λ i. [];
  collates = λ a b. false;
  write = λ n. "34197";
}

-- The transfer in flight is shown, though a finished one of the same platform comes after it.
apply_active_transfer_state_lem_example :
    apply_active_transfer_state
      (hauler ∷ [])
      (pos 1)
      (("11:7", ship transporting) ∷ ("12:7", ship completed) ∷ [])
    ≡ map (λ p. shown (some (ship transporting)) p) (hauler ∷ [])
apply_active_transfer_state_lem_example =
    apply_active_transfer_state_lem (hauler ∷ []) (pos 1)
      (("11:7", ship transporting) ∷ ("12:7", ship completed) ∷ [])

count-build_platform_tree_example :
    count_tree (λ n. true) (build_platform_tree one_host "player") ≡ 2
count-build_platform_tree_example = count-build_platform_tree (λ n. true) one_host "player"
