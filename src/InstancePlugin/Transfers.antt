-- ===== src/InstancePlugin/Transfers.antt =====
-- Transfers that an instance starts: instance.ts, handleExportComplete, startControllerTransfer,
-- handleTransferRequest and handlePlatformStateChanged.
use clusterio_surface_export.Prelude.{
  String, Bool, true, false, not, Option, none, some, any, filter, eqb, concat, or_else, string_eq,
  ◌==◌, if◌then◌else◌,
}
use clusterio_surface_export.Prelude.Int.{ℤ, pos, negsuc, int_eq}
use clusterio_surface_export.Prelude.Text.{trim}
use clusterio_surface_export.CanonicalId.{make_canonical_transfer_id}
use clusterio_surface_export.InstancePlugin.{
  ExportData, unlock_platform, print_to_game, RconReply, printed, rcon_threw, platform_export,
  transfer_platform_request, platform_state_changed, ControllerReply, succeeded, declined,
  unreachable, JobId, text_id, number_id, PendingTransfer, PluginState, Surroundings, call, report,
}
use clusterio_surface_export.InstancePlugin.Exports.{get_export_data, is_invalid_export_id}

-- How a method that may throw ends.
pub data Run : Type 0 where
  returned threw : PluginState → Run

abbrev pub print_refusal : Option String → PluginState → Run
print_refusal e s =
    returned (call (print_to_game (concat "[Transfer] " (or_else e "undefined")) "{1, 0.3, 0.3}") s)

-- Whatever the game prints of the unlock, it is only logged.
abbrev pub after_unlock : RconReply → Option String → PluginState → Run
after_unlock (printed text) e s = print_refusal e s
after_unlock (rcon_threw why) e s = threw s

abbrev pub unlock_refused : Surroundings → Option String → Option ℤ → PluginState → Run
unlock_refused v e none s = print_refusal e s
unlock_refused v e (some index) s =
    let c = unlock_platform index none in after_unlock (v.rcon s.trace c) e (call c s)

abbrev pub after_request : Surroundings → Option ℤ → ControllerReply → PluginState → Run
after_request v index succeeded s = returned s
after_request v index (declined e true) s = unlock_refused v e index s
after_request v index (declined e false) s = print_refusal e s
after_request v index (unreachable why) s = threw s

abbrev pub request_transfer :
    Surroundings → String → ℤ → Option ℤ → PluginState → Option String → Run
request_transfer v id target index s none = threw s
request_transfer v id target index s (some canonical) =
    let m = transfer_platform_request canonical target id in
    after_request v index (v.controller s.trace m) (report m s)

unfoldable pub start_controller_transfer : Surroundings → String → ℤ → Option ℤ → PluginState → Run
start_controller_transfer v id target index s =
    request_transfer v id target index s (make_canonical_transfer_id v.number v.id id)

-- The event of a finished export, its destination 0 where it is no transfer.
pub record ExportComplete : Type 0 where
  pub export_id : String
  pub platform_name : String
  pub platform_index : Option ℤ
  pub destination_instance_id : ℤ
  pub job_id : Option JobId

abbrev is_job : JobId → JobId → Bool
is_job (text_id a) (text_id b) = a == b
is_job (number_id a) (number_id b) = a == b
is_job (text_id a) (number_id b) = false
is_job (number_id a) (text_id b) = false

-- `===`, also on two missing ids
abbrev is_same_job : Option JobId → Option JobId → Bool
is_same_job none none = true
is_same_job none (some b) = false
is_same_job (some a) none = false
is_same_job (some a) (some b) = is_job a b

abbrev pub forget_pending : PluginState → PluginState
forget_pending s = record s { pending_transfer = none }

-- The `catch` of handleExportComplete only logs.
abbrev pub after_catch : Run → PluginState
after_catch (returned s) = s
after_catch (threw s) = s

abbrev pub then_forget : Run → PluginState
then_forget (returned s) = forget_pending s
then_forget (threw s) = s

abbrev pub to_pending_target :
    Surroundings → String → PendingTransfer → Option ℤ → PluginState → PluginState
to_pending_target v id p none s = forget_pending s
to_pending_target v id p (some (negsuc n)) s = forget_pending s
to_pending_target v id p (some (pos n)) s =
    if eqb n 0
    then forget_pending s
    else then_forget (start_controller_transfer v id (pos n) p.platform_index s)

abbrev pub run_pending :
    Surroundings → String → Option JobId → Option PendingTransfer → PluginState → PluginState
run_pending v id job none s = s
run_pending v id job (some p) s =
    if is_same_job p.job_id job then to_pending_target v id p p.destination_instance_id s else s

abbrev pub is_managed : String → PluginState → Bool
is_managed id s = any (λ x. x == id) s.controller_managed_transfer_exports

abbrev pub forget_managed : String → PluginState → PluginState
forget_managed id s = record s {
  controller_managed_transfer_exports =
      filter (λ x. not (x == id)) s.controller_managed_transfer_exports;
}

-- Behind the answer of the controller to the export.
abbrev pub route_export : Surroundings → String → ExportComplete → PluginState → PluginState
route_export v id x s =
    if not (x.destination_instance_id == pos 0)
    then if is_managed id s
      then forget_managed id s
      else after_catch (start_controller_transfer v id x.destination_instance_id x.platform_index s)
    else run_pending v id x.job_id s.pending_transfer s

abbrev pub after_export_sent :
    Surroundings → String → ExportComplete → ControllerReply → PluginState → PluginState
after_export_sent v id x (unreachable why) s = s
after_export_sent v id x succeeded s = route_export v id x s
after_export_sent v id x (declined e safe) s = route_export v id x s

abbrev pub send_export :
    Surroundings → String → ExportComplete → Option ExportData × PluginState → PluginState
send_export v id x (none, s) = s
send_export v id x (some d, s) =
    let m = platform_export id x.platform_name x.platform_index d (v.clock s.trace) in
    after_export_sent v id x (v.controller s.trace m) (report m s)

unfoldable pub handle_export_complete : Surroundings → ExportComplete → PluginState → PluginState
unfolding trim is_invalid_export_id get_export_data start_controller_transfer
handle_export_complete v x s =
    let id = trim x.export_id in
    if is_invalid_export_id id then s else send_export v id x (get_export_data v true id s)

-- handleTransferRequest: one slot, which the next request takes.
abbrev pub handle_transfer_request : PendingTransfer → PluginState → PluginState
handle_transfer_request p s = record s { pending_transfer = some p }

-- handlePlatformStateChanged: an error of the send is only logged.
abbrev pub handle_platform_state_changed : String → Option String → PluginState → PluginState
handle_platform_state_changed name force s =
    report (platform_state_changed name (or_else force "player")) s
