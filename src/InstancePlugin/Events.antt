-- ===== src/InstancePlugin/Events.antt =====
-- The messages and events that the plugin handles, as instance.ts registers them in init, and the
-- exports that the controller manages.
use clusterio_surface_export.Prelude.{String, Option, List, [], ◌∷◌, string_eq}
use clusterio_surface_export.Prelude.Int.{ℤ, int_eq}
use clusterio_surface_export.InstancePlugin.{ExportData, PendingTransfer, PluginState, Surroundings}
use clusterio_surface_export.InstancePlugin.Exports.{handle_export_platform_request}
use clusterio_surface_export.InstancePlugin.Transfers.{
  ExportComplete, handle_export_complete, handle_transfer_request, handle_platform_state_changed,
}
use clusterio_surface_export.InstancePlugin.Source.{
  ParsedLockState, handle_delete_source_platform, handle_unlock_source_platform,
  handle_get_source_transfer_lock_state, handle_transfer_status_update,
}
use clusterio_surface_export.InstancePlugin.Imports.{
  handle_import_platform_request, handle_import_platform_from_file_request,
  handle_import_file_request,
}
use clusterio_surface_export.InstancePlugin.Setup.{
  handle_push_gateway_config, handle_teleport_roster_request,
}
use clusterio_surface_export.InstancePlugin.Verdict.{
  ImportReport, handle_import_complete_validation,
}

pub data PluginEvent : Type 0 where
  export_asked : ℤ → Option String → Option ℤ → PluginEvent
  export_completed : ExportComplete → PluginEvent
  transfer_requested : PendingTransfer → PluginEvent
  platform_changed : String → Option String → PluginEvent
  import_completed : ImportReport → PluginEvent
  delete_asked : Option ℤ → String → Option String → Option String → PluginEvent
  unlock_asked : Option ℤ → Option String → PluginEvent
  lock_state_asked : String → Option ℤ → String → Option String → PluginEvent
  status_updated : String → Option String → PluginEvent
  import_asked : ExportData → Option String → Option String → PluginEvent
  file_import_asked : String → Option String → Option String → PluginEvent
  file_import_requested : String → Option String → Option String → PluginEvent
  gateways_pushed roster_requested : PluginEvent

module _ (v : Surroundings) (parse : String → ParsedLockState) where
  -- An answer, where there is one, is left out.
  abbrev pub handle : PluginEvent → PluginState → PluginState
  handle (export_asked index force target) s =
      (handle_export_platform_request v index force target s).1
  handle (export_completed x) s = handle_export_complete v x s
  handle (transfer_requested p) s = handle_transfer_request p s
  handle (platform_changed name force) s = handle_platform_state_changed name force s
  handle (import_completed x) s = handle_import_complete_validation v x s
  handle (delete_asked index name force job) s =
      (handle_delete_source_platform v index name force job s).1
  handle (unlock_asked index name) s = (handle_unlock_source_platform v index name s).1
  handle (lock_state_asked id index name force) s =
      (handle_get_source_transfer_lock_state v parse id index name force s).1
  handle (status_updated message color) s = (handle_transfer_status_update v message color s).1
  handle (import_asked d force planet) s = (handle_import_platform_request v d force planet s).1
  handle (file_import_asked file name force) s =
      (handle_import_platform_from_file_request v file name force s).1
  handle (file_import_requested file name force) s = handle_import_file_request v file name force s
  handle gateways_pushed s = (handle_push_gateway_config v s).1
  handle roster_requested s = handle_teleport_roster_request v s

  abbrev pub handle_all : List PluginEvent → PluginState → PluginState
  handle_all [] s = s
  handle_all (e ∷ es) s = handle_all es (handle e s)
