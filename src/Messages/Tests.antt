-- ===== src/Messages/Tests.antt =====
-- Some messages on the link.
use clusterio_surface_export.Prelude.{◌≡◌, refl, true, false, some, [], ◌∷◌, string_eq}
use clusterio_surface_export.Prelude.Int.{pos}
use clusterio_surface_export.Messages.{
  Fields, null, boolean, whole, text, from_json, to_json, sent, is_valid,
}
use clusterio_surface_export.Messages.Requests.{
  export_platform_request, list_transaction_logs_request,
}
use clusterio_surface_export.Messages.Events.{transfer_validation_event}
use clusterio_surface_export.Messages.Delivered.{from_json-to_json}

abbrev third_platform : Fields
third_platform = ("platformIndex", whole (pos 3)) ∷ []

-- The defaults are sent.
sends_defaults :
    sent (to_json export_platform_request (from_json export_platform_request third_platform)) ≡ (
      ("platformIndex", whole (pos 3))
      ∷ ("forceName", text "player")
      ∷ ("targetInstanceId", null)
      ∷ [])
unfolding from_json to_json
sends_defaults = refl

-- A limit of 0 is not valid; the constructor would make 50 of it.
zero_limit : is_valid list_transaction_logs_request (("limit", whole (pos 0)) ∷ []) ≡ false
unfolding is_valid
zero_limit = refl

zero_limit_read :
    from_json list_transaction_logs_request (("limit", whole (pos 0)) ∷ [])
    ≡ (("limit", some (whole (pos 50))) ∷ [])
unfolding from_json
zero_limit_read = refl

abbrev verdict_fields : Fields
verdict_fields =
    ("transferId", text "1:7")
    ∷ ("platformName", text "Hauler")
    ∷ ("sourceInstanceId", whole (pos 1))
    ∷ ("success", boolean true)
    ∷ []

-- What is undefined is not sent.
sends_no_undefined :
    sent (to_json transfer_validation_event (from_json transfer_validation_event verdict_fields))
    ≡ verdict_fields
unfolding from_json to_json
sends_no_undefined = refl

verdict_is_valid : is_valid transfer_validation_event verdict_fields ≡ true
unfolding is_valid
verdict_is_valid = refl

from_json-to_json_example :
    let wire =
      sent
        (to_json transfer_validation_event (from_json transfer_validation_event verdict_fields)) in
    (is_valid transfer_validation_event wire ≡ true)
    × (from_json transfer_validation_event wire
        ≡ from_json transfer_validation_event verdict_fields)
from_json-to_json_example =
    from_json-to_json "TransferValidationEvent" transfer_validation_event verdict_fields refl
      verdict_is_valid
