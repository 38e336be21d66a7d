-- ===== src/InstancePlugin/Kept.antt =====
-- What the handlers of instance.ts keep of the exports that the controller manages: all but what the
-- completion of an export removes.
use clusterio_surface_export.Prelude.{
  ℕ, suc, String, Bool, true, false, Option, none, some, List, [], ◌∷◌, ◌≡◌, refl, sym, subst,
  or_null, string_eq, ◌==◌, Bool-cases, inl, inr, All,
}
use clusterio_surface_export.Prelude.Int.{pos, int_eq}
use clusterio_surface_export.Prelude.Text.{trim}
use clusterio_surface_export.InstancePlugin.{
  ExportData, get_export_json, Report, platform_export, transfer_platform_request, ControllerReply,
  succeeded, declined, unreachable, PluginEffect, reported, PluginState, Surroundings, call, report,
  RconCall, ExportFile, unreadable, holds, push_teleport_roster,
}
use clusterio_surface_export.InstancePlugin.Exports.{
  is_invalid_export_id, ExportResult, exported, export_failed, target_arg, request_export,
  managed_if, handle_export_platform_request, Lookup, lookup_threw, missing, found, lookup, fetched,
  get_export_data,
}
use clusterio_surface_export.InstancePlugin.Transfers.{
  ExportComplete, is_managed, route_export, after_export_sent, send_export, handle_export_complete,
}
use clusterio_surface_export.InstancePlugin.Source.{
  ParsedLockState, handle_delete_source_platform, handle_unlock_source_platform,
  handle_get_source_transfer_lock_state, handle_transfer_status_update,
}
use clusterio_surface_export.InstancePlugin.Imports.{
  import_platform, import_platform_from_file, import_read, handle_import_platform_request,
  handle_import_platform_from_file_request, handle_import_file_request,
}
use clusterio_surface_export.InstancePlugin.Setup.{
  answered_with, handle_push_gateway_config, handle_teleport_roster_request,
}
use clusterio_surface_export.InstancePlugin.Verdict.{
  ImportReport, after_verdict, after_import_end, report_import, by_transfer, transfer_of,
  handle_import_complete_validation,
}
use clusterio_surface_export.InstancePlugin.Managed.{
  managed_ids, Has, add_id-Has, filter-Has, managed_ids-start_controller_transfer,
  managed_ids-run_pending,
}
use clusterio_surface_export.InstancePlugin.Events.{
  PluginEvent, export_asked, export_completed, transfer_requested, platform_changed,
  import_completed, import_asked, file_import_asked, file_import_requested, gateways_pushed,
  roster_requested, delete_asked, unlock_asked, lock_state_asked, status_updated, handle,
  handle_all,
}

-- How often the plugin asked the controller for a transfer.
abbrev pub transfer_requests : List PluginEffect → ℕ
transfer_requests [] = 0
transfer_requests (reported (transfer_platform_request c t id) ∷ es) = suc (transfer_requests es)
transfer_requests (_ ∷ es) = transfer_requests es

-- Fetching an export asks for no transfer and keeps the managed exports.
abbrev pub IsQuiet : PluginState → PluginState → Type 0
IsQuiet s u =
    (managed_ids u ≡ managed_ids s) × (transfer_requests u.trace ≡ transfer_requests s.trace)

fetched-IsQuiet : (b : Bool) (l : Lookup) (s : PluginState) → IsQuiet s (fetched b l s).1
fetched-IsQuiet b lookup_threw s = (refl, refl)
fetched-IsQuiet true missing s = (refl, refl)
fetched-IsQuiet false missing s = (refl, refl)
fetched-IsQuiet b (found d) s = (refl, refl)

pub get_export_data-IsQuiet :
    (v : Surroundings) (b : Bool) (id : String) (s : PluginState)
    → IsQuiet s (get_export_data v b id s).1
unfolding get_export_data
get_export_data-IsQuiet v b id s =
    let c = get_export_json (trim id) in
    elim (Bool-cases (is_invalid_export_id (trim id))) [
      | inl bad ↦ rw bad (refl, refl)
      | inr good ↦ rw good (fetched-IsQuiet b (lookup v (v.rcon s.trace c)) (call c s))
    ]

-- What holds of the plugin behind the completion of an export `id`, whatever happens on the way, if
-- it holds of it where nothing is routed and where the export is.
pub send_export-elim {ℓ} :
    (P : PluginState → Type ℓ) (v : Surroundings) (id : String) (x : ExportComplete)
    (s : PluginState) (o : Option ExportData)
    → P s
    → ((m : Report)
        → transfer_requests (reported m ∷ s.trace) ≡ transfer_requests s.trace
        → P (report m s) × P (route_export v id x (report m s)))
    → P (send_export v id x (o, s))
send_export-elim P v id x s none h k = h
send_export-elim P v id x s (some d) h k =
    let m = platform_export id x.platform_name x.platform_index d (v.clock s.trace) in
    answered (v.controller s.trace m) (k m refl)
  where
    answered :
        {m : Report} (r : ControllerReply)
        → P (report m s) × P (route_export v id x (report m s))
        → P (after_export_sent v id x r (report m s))
    answered (unreachable why) h = h.0
    answered succeeded h = h.1
    answered (declined e safe) h = h.1

route_export-Has :
    (v : Surroundings) (j id : String) (x : ExportComplete) (s : PluginState)
    → (j == id) ≡ false
    → Has id (managed_ids s)
    → Has id (managed_ids (route_export v j x s))
route_export-Has v j id x s d h =
    let auto =
      subst (Has id)
        (sym
          (managed_ids-start_controller_transfer v j x.destination_instance_id x.platform_index s))
        h in
    let queued =
      subst (Has id) (sym (managed_ids-run_pending v j x.job_id s.pending_transfer s)) h in
    elim (Bool-cases (x.destination_instance_id == pos 0)) [
      | inl zero ↦ rw zero queued
      | inr given ↦ rw given (elim (Bool-cases (is_managed j s)) [
        | inl managed ↦ rw managed (filter-Has j id (managed_ids s) d h)
        | inr free ↦ rw free auto
      ])
    ]

handle_export_complete-Has :
    (v : Surroundings) (id : String) (x : ExportComplete) (s : PluginState)
    → (trim x.export_id == id) ≡ false
    → Has id (managed_ids s)
    → Has id (managed_ids (handle_export_complete v x s))
unfolding handle_export_complete
handle_export_complete-Has v id x s d h =
    let j = trim x.export_id in
    let look = get_export_data v true j s in
    let kept = subst (Has id) (sym (get_export_data-IsQuiet v true j s).0) h in
    elim (Bool-cases (is_invalid_export_id j)) [
      | inl bad ↦ rw bad h
      | inr good ↦ rw good (
          send_export-elim (λ u. Has id (managed_ids u)) v j x look.1 look.0 kept
            (λ m e. (kept, route_export-Has v j id x (report m look.1) d kept)))
    ]

managed_ids-after_import_end :
    (x : ImportReport) (r : ControllerReply) (s : PluginState)
    → managed_ids (after_import_end x r s) ≡ managed_ids s
managed_ids-after_import_end x succeeded s = refl
managed_ids-after_import_end x (declined e safe) s = refl
managed_ids-after_import_end x (unreachable why) s = refl

managed_ids-report_import :
    (v : Surroundings) (x : ImportReport) (o : Option String) (s : PluginState)
    → managed_ids (report_import v x o s) ≡ managed_ids s
managed_ids-report_import v x none s = refl
managed_ids-report_import v x (some op) s = managed_ids-after_import_end x _ _

managed_ids-after_verdict :
    (id : String) (r : ControllerReply) (s : PluginState)
    → managed_ids (after_verdict id r s) ≡ managed_ids s
managed_ids-after_verdict id succeeded s = refl
managed_ids-after_verdict id (declined e safe) s = refl
managed_ids-after_verdict id (unreachable why) s = refl

managed_ids-by_transfer :
    (v : Surroundings) (x : ImportReport) (o : Option String) (s : PluginState)
    → managed_ids (by_transfer v x o s) ≡ managed_ids s
managed_ids-by_transfer v x none s = managed_ids-report_import v x (or_null x.operation_id) s
managed_ids-by_transfer v x (some id) s = managed_ids-after_verdict id _ _

managed_ids-import_read :
    (v : Surroundings) (f : ExportFile) (name : Option String) (force : String) (s : PluginState)
    → managed_ids (import_read v f name force s).1 ≡ managed_ids s
managed_ids-import_read v (unreadable e) name force s = refl
managed_ids-import_read v (holds d) name force s = refl

managed_ids-answered_with :
    (v : Surroundings) (c : RconCall) (r : ControllerReply) (s : PluginState)
    → managed_ids (answered_with v c r s).1 ≡ managed_ids s
managed_ids-answered_with v c succeeded s = refl
managed_ids-answered_with v c (declined e safe) s = refl
managed_ids-answered_with v c (unreachable why) s = refl

managed_if-Has :
    (id : String) (o : Option ℕ) (r : ExportResult) (s : PluginState)
    → Has id (managed_ids s)
    → Has id (managed_ids (managed_if o (r, s)).1)
managed_if-Has id none r s h = h
managed_if-Has id (some n) (export_failed e) s h = h
managed_if-Has id (some n) (exported j) s h = add_id-Has j id (managed_ids s) h

abbrev pub completes : String → PluginEvent → Bool
completes id (export_completed x) = trim x.export_id == id
completes id _ = false

handle-Has :
    (v : Surroundings) (parse : String → ParsedLockState) (id : String) (e : PluginEvent)
    (s : PluginState)
    → completes id e ≡ false
    → Has id (managed_ids s)
    → Has id (managed_ids (handle v parse e s))
unfolding handle_export_platform_request request_export handle_delete_source_platform
    handle_unlock_source_platform handle_get_source_transfer_lock_state
    handle_transfer_status_update handle_import_complete_validation handle_import_platform_request
    import_platform handle_import_platform_from_file_request import_platform_from_file
    handle_import_file_request handle_push_gateway_config handle_teleport_roster_request
handle-Has v parse id (export_asked index force target) s d h =
    managed_if-Has id (target_arg target) _ _ h
handle-Has v parse id (export_completed x) s d h = handle_export_complete-Has v id x s d h
handle-Has v parse id (transfer_requested p) s d h = h
handle-Has v parse id (platform_changed name force) s d h = h
handle-Has v parse id (import_completed x) s d h =
    subst (Has id) (sym (managed_ids-by_transfer v x (transfer_of x) s)) h
handle-Has v parse id (delete_asked none name force job) s d h = h
handle-Has v parse id (delete_asked (some i) name force job) s d h = h
handle-Has v parse id (unlock_asked none name) s d h = h
handle-Has v parse id (unlock_asked (some i) name) s d h = h
handle-Has v parse id (lock_state_asked t none name force) s d h = h
handle-Has v parse id (lock_state_asked t (some i) name force) s d h = h
handle-Has v parse id (status_updated message color) s d h = h
handle-Has v parse id (import_asked x force planet) s d h = h
handle-Has v parse id (file_import_asked file name force) s d h =
    subst (Has id) (sym (managed_ids-import_read v (v.read_file s.trace file) name _ s)) h
handle-Has v parse id (file_import_requested file name force) s d h =
    subst (Has id) (sym (managed_ids-import_read v (v.read_file s.trace file) name _ s)) h
handle-Has v parse id gateways_pushed s d h = h
handle-Has v parse id roster_requested s d h =
    subst (Has id) (sym (managed_ids-answered_with v push_teleport_roster _ _)) h

pub handle_all-Has :
    (v : Surroundings) (parse : String → ParsedLockState) (id : String) (es : List PluginEvent)
    (s : PluginState)
    → All (λ e. completes id e ≡ false) es
    → Has id (managed_ids s)
    → Has id (managed_ids (handle_all v parse es s))
handle_all-Has v parse id [] s d h = h
handle_all-Has v parse id (e ∷ es) s (d, ds) h =
    handle_all-Has v parse id es (handle v parse e s) ds (handle-Has v parse id e s d h)
