-- ===== src/Messages/Classes.antt =====
-- The classes by name, as index.ts registers them with the link.
use clusterio_surface_export.Prelude.{String, Option, [], ◌∷◌, string_eq}
use clusterio_surface_export.JsMap.{JsMap, get}
use clusterio_surface_export.Messages.{MessageClass}
use clusterio_surface_export.Messages.Requests.{
  export_platform_request, get_stored_export_request, import_uploaded_export_request,
  export_platform_for_download_request, get_platform_tree_request, list_transaction_logs_request,
  set_surface_export_subscription_request, import_platform_request, list_exports_request,
  transfer_platform_request, start_platform_transfer_request, instance_list_platforms_request,
  get_gateways_request, set_gateway_link_request, get_gateway_config_request,
  get_instance_roster_request, push_gateway_config_request, import_platform_from_file_request,
  delete_source_platform_request, unlock_source_platform_request,
  get_source_transfer_lock_state_request, get_transaction_log_request,
}
use clusterio_surface_export.Messages.Events.{
  surface_export_tree_update_event, surface_export_transfer_update_event,
  surface_export_log_update_event, platform_export_event, transfer_validation_event,
  import_operation_complete_event, transfer_status_update, platform_state_changed_event,
}

abbrev pub messages : JsMap String MessageClass
messages =
    ("ExportPlatformRequest", export_platform_request)
    ∷ ("PlatformExportEvent", platform_export_event)
    ∷ ("ImportPlatformRequest", import_platform_request)
    ∷ ("ImportPlatformFromFileRequest", import_platform_from_file_request)
    ∷ ("ListExportsRequest", list_exports_request)
    ∷ ("GetStoredExportRequest", get_stored_export_request)
    ∷ ("ImportUploadedExportRequest", import_uploaded_export_request)
    ∷ ("ExportPlatformForDownloadRequest", export_platform_for_download_request)
    ∷ ("TransferPlatformRequest", transfer_platform_request)
    ∷ ("StartPlatformTransferRequest", start_platform_transfer_request)
    ∷ ("InstanceListPlatformsRequest", instance_list_platforms_request)
    ∷ ("TransferValidationEvent", transfer_validation_event)
    ∷ ("ImportOperationCompleteEvent", import_operation_complete_event)
    ∷ ("DeleteSourcePlatformRequest", delete_source_platform_request)
    ∷ ("UnlockSourcePlatformRequest", unlock_source_platform_request)
    ∷ ("GetSourceTransferLockStateRequest", get_source_transfer_lock_state_request)
    ∷ ("TransferStatusUpdate", transfer_status_update)
    ∷ ("GetPlatformTreeRequest", get_platform_tree_request)
    ∷ ("ListTransactionLogsRequest", list_transaction_logs_request)
    ∷ ("GetTransactionLogRequest", get_transaction_log_request)
    ∷ ("SetSurfaceExportSubscriptionRequest", set_surface_export_subscription_request)
    ∷ ("SurfaceExportTreeUpdateEvent", surface_export_tree_update_event)
    ∷ ("SurfaceExportTransferUpdateEvent", surface_export_transfer_update_event)
    ∷ ("SurfaceExportLogUpdateEvent", surface_export_log_update_event)
    ∷ ("PlatformStateChangedEvent", platform_state_changed_event)
    ∷ ("GetGatewaysRequest", get_gateways_request)
    ∷ ("SetGatewayLinkRequest", set_gateway_link_request)
    ∷ ("GetGatewayConfigRequest", get_gateway_config_request)
    ∷ ("GetInstanceRosterRequest", get_instance_roster_request)
    ∷ ("PushGatewayConfigRequest", push_gateway_config_request)
    ∷ []

-- The class that the link has under a name.
abbrev pub class_named : String → Option MessageClass
class_named n = get n messages
