-- ===== src/InstancePlugin/Verdict.antt =====
-- The end of an import as the game reports it: instance.ts, handleImportCompleteValidation. Metrics and
-- counts are left out.
use clusterio_surface_export.Prelude.{
  String, Bool, true, false, ◌&&◌, Option, none, some, [], ◌∷◌, is_empty, is_some, concat, or_else,
  given_or, or_null, eqb, if◌then◌else◌,
}
use clusterio_surface_export.Prelude.Int.{ℤ, pos, negsuc}
use clusterio_surface_export.Prelude.Text.{trim}
use clusterio_surface_export.Transfer.{Validation, ValidationEvent, join_errors}
use clusterio_surface_export.InstancePlugin.{
  ImportEnd, transfer_validation, import_operation_complete, ControllerReply, succeeded, declined,
  unreachable, PluginState, Surroundings, report,
}
use clusterio_surface_export.InstancePlugin.Transfers.{handle_platform_state_changed}

-- The object under `validation`.
pub record ReportedValidation : Type 0 where
  pub item_count_match : Bool
  pub fluid_count_match : Bool
  pub details : Validation

-- The event; a field that is no text, integer, boolean or object of its kind is missing.
pub record ImportReport : Type 0 where
  pub platform_name : String
  pub force_name : Option String
  pub transfer_id : String
  pub source_instance_id : Option ℤ
  pub operation_id : Option String
  pub success : Option Bool
  pub failed_stage : Option String
  pub error_text : Option String
  pub cleanup_has_failed : Bool
  pub cleanup_error : Option String
  pub destination_preserved : Bool
  pub validation : Option ReportedValidation

-- `data.success !== false` and `data.success === true`
abbrev pub is_not_false : Option Bool → Bool
is_not_false none = true
is_not_false (some b) = b

abbrev pub is_true : Option Bool → Bool
is_true none = false
is_true (some b) = b

abbrev pub counts_match : Option ReportedValidation → Bool
counts_match none = false
counts_match (some r) = r.item_count_match && r.fluid_count_match

abbrev failure_of : String → Validation
failure_of why = record {
  mismatch_details = some why;
  cleanup_has_failed = false;
  cleanup_error = none;
  destination_preserved = false;
  failed_stage = none;
}

abbrev details_of : Option ReportedValidation → Validation
details_of none = failure_of "Validation payload not retrieved"
details_of (some r) = r.details

abbrev pub verdict_of : String → ImportReport → ValidationEvent
verdict_of id x = record {
  transfer_id = id;
  success = is_some x.validation && (is_true x.success && counts_match x.validation);
  validation = some (details_of x.validation);
}

abbrev pub failure_verdict : String → String → ValidationEvent
failure_verdict id why = record {
  transfer_id = id;
  success = false;
  validation = some (failure_of (concat "Validation error: " why));
}

-- The `catch` tries to send a failure in the verdict's place; its own error is only logged.
abbrev pub after_verdict : String → ControllerReply → PluginState → PluginState
after_verdict id (unreachable why) s = report (transfer_validation (failure_verdict id why)) s
after_verdict id succeeded s = s
after_verdict id (declined e safe) s = s

abbrev pub send_verdict : Surroundings → String → ImportReport → PluginState → PluginState
send_verdict v id x s =
    let m = transfer_validation (verdict_of id x) in
    after_verdict id (v.controller s.trace m) (report m s)

abbrev stage_text : Option String → String
stage_text none = ""
stage_text (some stage) = concat " at " stage

abbrev import_error : Surroundings → ImportReport → String
import_error v x = join_errors (
    some (
      concat "Import failed" (
        concat (stage_text (or_null x.failed_stage))
          (concat ": " (or_else (or_null x.error_text) "the destination refused the import"))))
    ∷ (if x.cleanup_has_failed
        then some (
            concat "destination discard FAILED — a leftover platform remains on instance " (
              concat (v.write v.id)
                (concat ": " (or_else (or_null x.cleanup_error) "delete_platform failed"))))
        else none)
    ∷ (if x.destination_preserved
        then some "destination platform was PRESERVED by preserve_failed_destination"
        else none)
    ∷ [])

pub import_end : Surroundings → String → ImportReport → ImportEnd
unfolding join_errors
import_end v op x = record {
  operation_id = op;
  platform_name = if is_empty x.platform_name then "Unknown" else x.platform_name;
  success = is_not_false x.success;
  error_text = if is_not_false x.success then none else some (import_error v x);
  failed_stage = or_null x.failed_stage;
  cleanup_has_failed = x.cleanup_has_failed;
  destination_preserved = x.destination_preserved;
  has_validation = is_some x.validation;
}

abbrev pub after_import_end : ImportReport → ControllerReply → PluginState → PluginState
after_import_end x (unreachable why) s = s
after_import_end x succeeded s =
    handle_platform_state_changed x.platform_name (some (given_or x.force_name "player")) s
after_import_end x (declined e safe) s =
    handle_platform_state_changed x.platform_name (some (given_or x.force_name "player")) s

abbrev pub report_import : Surroundings → ImportReport → Option String → PluginState → PluginState
report_import v x none s = s
report_import v x (some op) s =
    let m = import_operation_complete (import_end v op x) in
    after_import_end x (v.controller s.trace m) (report m s)

-- The id of a transfer, where the report names one and its source.
abbrev pub transfer_of : ImportReport → Option String
transfer_of x = with_source x.source_instance_id
  where
    with_source : Option ℤ → Option String
    with_source none = none
    with_source (some (negsuc n)) = none
    with_source (some (pos n)) = if eqb n 0 then none else or_null (some (trim x.transfer_id))

abbrev pub by_transfer : Surroundings → ImportReport → Option String → PluginState → PluginState
by_transfer v x none s = report_import v x (or_null x.operation_id) s
by_transfer v x (some id) s = send_verdict v id x s

unfoldable pub handle_import_complete_validation :
    Surroundings → ImportReport → PluginState → PluginState
unfolding import_end trim
handle_import_complete_validation v x s = by_transfer v x (transfer_of x) s
