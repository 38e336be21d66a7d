-- ===== src/Messages/Events.antt =====
-- The events of messages.ts, and the update of a transfer's status.
use clusterio_surface_export.Prelude.{[], ◌∷◌}
use clusterio_surface_export.Messages.{
  MessageClass, null, taken, nullish, integer_or_null, if_true, or_value, must, must_be_any, may,
  any_null, any_boolean, any_integer, any_number, any_string, any_object,
}

abbrev pub surface_export_tree_update_event : MessageClass
surface_export_tree_update_event = record {
  properties =
      must "revision" any_integer
      ∷ must "generatedAt" any_number
      ∷ must "forceName" any_string
      ∷ must "tree" any_object
      ∷ [];
  written = "revision" ∷ "generatedAt" ∷ "forceName" ∷ "tree" ∷ [];
}

abbrev pub surface_export_transfer_update_event : MessageClass
surface_export_transfer_update_event = record {
  properties =
      must "revision" any_integer ∷ must "generatedAt" any_number ∷ must "transfer" any_object ∷ [];
  written = "revision" ∷ "generatedAt" ∷ "transfer" ∷ [];
}

abbrev pub surface_export_log_update_event : MessageClass
surface_export_log_update_event = record {
  properties =
      must "revision" any_integer
      ∷ must "generatedAt" any_number
      ∷ must "transferId" any_string
      ∷ must "event" any_object
      ∷ must_be_any "transferInfo" (any_object ∷ any_null ∷ [])
      ∷ must_be_any "summary" (any_object ∷ any_null ∷ [])
      ∷ [];
  written = "revision" ∷ "generatedAt" ∷ "transferId" ∷ "event" ∷ "transferInfo" ∷ "summary" ∷ [];
}

abbrev pub platform_export_event : MessageClass
platform_export_event = record {
  properties =
      must "exportId" any_string
      ∷ must "platformName" any_string
      ∷ may "platformIndex" (any_integer ∷ any_null ∷ []) integer_or_null
      ∷ must "instanceId" any_integer
      ∷ must "exportData" any_object
      ∷ must "timestamp" any_number
      ∷ may "exportMetrics" (any_object ∷ any_null ∷ []) (or_value null)
      ∷ [];
  written =
      "exportId" ∷ "platformName" ∷ "platformIndex" ∷ "instanceId" ∷ "exportData" ∷ "timestamp"
      ∷ "exportMetrics" ∷ [];
}

abbrev pub transfer_validation_event : MessageClass
transfer_validation_event = record {
  properties =
      must "transferId" any_string
      ∷ must "platformName" any_string
      ∷ must "sourceInstanceId" any_integer
      ∷ must "success" any_boolean
      ∷ may "validation" (any_object ∷ []) taken
      ∷ may "metrics" (any_object ∷ []) taken
      ∷ [];
  written =
      "transferId" ∷ "platformName" ∷ "sourceInstanceId" ∷ "success" ∷ "validation" ∷ "metrics"
      ∷ [];
}

abbrev pub import_operation_complete_event : MessageClass
import_operation_complete_event = record {
  properties =
      must "operationId" any_string
      ∷ must "platformName" any_string
      ∷ must "instanceId" any_integer
      ∷ must "success" any_boolean
      ∷ may "error" (any_string ∷ any_null ∷ []) nullish
      ∷ may "failedStage" (any_string ∷ any_null ∷ []) nullish
      ∷ may "cleanupFailed" (any_boolean ∷ []) if_true
      ∷ may "destinationPreserved" (any_boolean ∷ []) if_true
      ∷ may "durationTicks" (any_integer ∷ any_null ∷ []) nullish
      ∷ may "entityCount" (any_integer ∷ any_null ∷ []) nullish
      ∷ may "metrics" (any_object ∷ any_null ∷ []) nullish
      ∷ may "validation" (any_object ∷ any_null ∷ []) nullish
      ∷ [];
  written =
      "operationId" ∷ "platformName" ∷ "instanceId" ∷ "success" ∷ "error" ∷ "failedStage"
      ∷ "cleanupFailed" ∷ "destinationPreserved" ∷ "durationTicks" ∷ "entityCount" ∷ "metrics"
      ∷ "validation" ∷ [];
}

abbrev pub transfer_status_update : MessageClass
transfer_status_update = record {
  properties =
      must "transferId" any_string
      ∷ must "platformName" any_string
      ∷ must "message" any_string
      ∷ may "color" (any_string ∷ any_null ∷ []) (or_value null)
      ∷ [];
  written = "transferId" ∷ "platformName" ∷ "message" ∷ "color" ∷ [];
}

abbrev pub platform_state_changed_event : MessageClass
platform_state_changed_event = record {
  properties =
      must "instanceId" any_integer
      ∷ must "platformName" any_string
      ∷ must "forceName" any_string
      ∷ [];
  written = "instanceId" ∷ "platformName" ∷ "forceName" ∷ [];
}
