-- ===== src/Messages/Requests.antt =====
-- The requests of messages.ts.
use clusterio_surface_export.Prelude.{false, [], ◌∷◌}
use clusterio_surface_export.Messages.{
  MessageClass, text, whole, boolean, null, taken, nullish, integer_or_null, or_value, must, may,
  any_null, any_boolean, any_integer, any_string, any_object, any_array, integer_within,
}
use clusterio_surface_export.Prelude.Int.{pos}

abbrev pub export_platform_request : MessageClass
export_platform_request = record {
  properties =
      must "platformIndex" any_integer
      ∷ may "forceName" (any_string ∷ []) (or_value (text "player"))
      ∷ may "targetInstanceId" (any_integer ∷ any_null ∷ []) nullish
      ∷ [];
  written = "platformIndex" ∷ "forceName" ∷ "targetInstanceId" ∷ [];
}

abbrev pub get_stored_export_request : MessageClass
get_stored_export_request = record {
  properties = must "exportId" any_string ∷ [];
  written = "exportId" ∷ [];
}

abbrev pub import_uploaded_export_request : MessageClass
import_uploaded_export_request = record {
  properties =
      must "targetInstanceId" any_integer
      ∷ must "exportData" any_object
      ∷ may "forceName" (any_string ∷ []) (or_value (text "player"))
      ∷ may "platformName" (any_string ∷ any_null ∷ []) nullish
      ∷ may "targetPlanet" (any_string ∷ any_null ∷ []) nullish
      ∷ [];
  written = "targetInstanceId" ∷ "exportData" ∷ "forceName" ∷ "platformName" ∷ "targetPlanet" ∷ [];
}

abbrev pub export_platform_for_download_request : MessageClass
export_platform_for_download_request = record {
  properties =
      must "sourceInstanceId" any_integer
      ∷ must "sourcePlatformIndex" any_integer
      ∷ may "forceName" (any_string ∷ []) (or_value (text "player"))
      ∷ [];
  written = "sourceInstanceId" ∷ "sourcePlatformIndex" ∷ "forceName" ∷ [];
}

abbrev pub get_platform_tree_request : MessageClass
get_platform_tree_request = record {
  properties = may "forceName" (any_string ∷ []) (or_value (text "player")) ∷ [];
  written = "forceName" ∷ [];
}

abbrev pub list_transaction_logs_request : MessageClass
list_transaction_logs_request = record {
  properties = may "limit" (integer_within 1 500 ∷ []) (or_value (whole (pos 50))) ∷ [];
  written = "limit" ∷ [];
}

abbrev pub set_surface_export_subscription_request : MessageClass
set_surface_export_subscription_request = record {
  properties =
      may "tree" (any_boolean ∷ []) (or_value (boolean false))
      ∷ may "transfers" (any_boolean ∷ []) (or_value (boolean false))
      ∷ may "logs" (any_boolean ∷ []) (or_value (boolean false))
      ∷ may "transferId" (any_string ∷ any_null ∷ []) (or_value null)
      ∷ [];
  written = "tree" ∷ "transfers" ∷ "logs" ∷ "transferId" ∷ [];
}

abbrev pub import_platform_request : MessageClass
import_platform_request = record {
  properties =
      must "exportId" any_string
      ∷ must "exportData" any_object
      ∷ may "forceName" (any_string ∷ []) (or_value (text "player"))
      ∷ may "targetPlanet" (any_string ∷ any_null ∷ []) nullish
      ∷ [];
  written = "exportId" ∷ "exportData" ∷ "forceName" ∷ "targetPlanet" ∷ [];
}

abbrev pub list_exports_request : MessageClass
list_exports_request = record { properties = []; written = [] }

abbrev pub transfer_platform_request : MessageClass
transfer_platform_request = record {
  properties =
      must "exportId" any_string
      ∷ must "targetInstanceId" any_integer
      ∷ may "sourceInstanceId" (any_integer ∷ any_null ∷ []) integer_or_null
      ∷ may "sourceExportId" (any_string ∷ any_null ∷ []) nullish
      ∷ [];
  written = "exportId" ∷ "targetInstanceId" ∷ "sourceInstanceId" ∷ "sourceExportId" ∷ [];
}

abbrev pub start_platform_transfer_request : MessageClass
start_platform_transfer_request = record {
  properties =
      must "sourceInstanceId" any_integer
      ∷ must "sourcePlatformIndex" any_integer
      ∷ must "targetInstanceId" any_integer
      ∷ may "forceName" (any_string ∷ []) (or_value (text "player"))
      ∷ may "targetPlanet" (any_string ∷ any_null ∷ []) nullish
      ∷ [];
  written =
      "sourceInstanceId" ∷ "sourcePlatformIndex" ∷ "targetInstanceId" ∷ "forceName" ∷ "targetPlanet"
      ∷ [];
}

abbrev pub instance_list_platforms_request : MessageClass
instance_list_platforms_request = record {
  properties = may "forceName" (any_string ∷ []) (or_value (text "player")) ∷ [];
  written = "forceName" ∷ [];
}

abbrev pub get_gateways_request : MessageClass
get_gateways_request = record { properties = []; written = [] }

abbrev pub set_gateway_link_request : MessageClass
set_gateway_link_request = record {
  properties = must "sourceInstanceId" any_integer ∷ must "gateways" any_array ∷ [];
  written = "sourceInstanceId" ∷ "gateways" ∷ [];
}

abbrev pub get_gateway_config_request : MessageClass
get_gateway_config_request = record {
  properties = must "instanceId" any_integer ∷ [];
  written = "instanceId" ∷ [];
}

abbrev pub get_instance_roster_request : MessageClass
get_instance_roster_request = record {
  properties = must "instanceId" any_integer ∷ [];
  written = "instanceId" ∷ [];
}

abbrev pub push_gateway_config_request : MessageClass
push_gateway_config_request = record {
  properties = must "gateways" any_array ∷ may "activeGatewayNames" (any_array ∷ []) taken ∷ [];
  written = "gateways" ∷ "activeGatewayNames" ∷ [];
}

abbrev pub import_platform_from_file_request : MessageClass
import_platform_from_file_request = record {
  properties =
      must "filename" any_string
      ∷ may "platformName" (any_string ∷ any_null ∷ []) nullish
      ∷ may "forceName" (any_string ∷ []) (or_value (text "player"))
      ∷ [];
  written = "filename" ∷ "platformName" ∷ "forceName" ∷ [];
}

abbrev pub delete_source_platform_request : MessageClass
delete_source_platform_request = record {
  properties =
      must "platformIndex" any_integer
      ∷ must "platformName" any_string
      ∷ may "forceName" (any_string ∷ []) (or_value (text "player"))
      ∷ may "exportId" (any_string ∷ any_null ∷ []) nullish
      ∷ [];
  written = "platformIndex" ∷ "platformName" ∷ "forceName" ∷ "exportId" ∷ [];
}

abbrev pub unlock_source_platform_request : MessageClass
unlock_source_platform_request = record {
  properties =
      must "platformIndex" any_integer
      ∷ may "platformName" (any_string ∷ any_null ∷ []) nullish
      ∷ may "forceName" (any_string ∷ []) (or_value (text "player"))
      ∷ [];
  written = "platformIndex" ∷ "platformName" ∷ "forceName" ∷ [];
}

abbrev pub get_source_transfer_lock_state_request : MessageClass
get_source_transfer_lock_state_request = record {
  properties =
      must "transferId" any_string
      ∷ must "platformIndex" any_integer
      ∷ must "platformName" any_string
      ∷ may "forceName" (any_string ∷ []) (or_value (text "player"))
      ∷ [];
  written = "transferId" ∷ "platformIndex" ∷ "platformName" ∷ "forceName" ∷ [];
}

abbrev pub get_transaction_log_request : MessageClass
get_transaction_log_request = record {
  properties = must "transferId" any_string ∷ [];
  written = "transferId" ∷ [];
}
