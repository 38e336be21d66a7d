-- ===== src/InstancePlugin/LeftAlone.antt =====
-- The plugin leaves the transfer of an export that the controller asked for to the controller:
-- instance.ts, over any sequence of what the plugin handles.
use clusterio_surface_export.Prelude.{
  ℕ, String, true, false, Option, none, some, List, ◌≡◌, refl, sym, subst, ◌∙◌, arith, is_some,
  string_eq, ◌==◌, Bool-cases, inl, inr, All,
}
use clusterio_surface_export.Prelude.Int.{ℤ, pos, int_eq}
use clusterio_surface_export.Prelude.Text.{trim}
use clusterio_surface_export.InstancePlugin.{PluginState, Surroundings}
use clusterio_surface_export.InstancePlugin.Exports.{
  is_invalid_export_id, ExportResult, exported, export_failed, target_arg, request_export,
  managed_if, add_id, handle_export_platform_request, get_export_data,
}
use clusterio_surface_export.InstancePlugin.Transfers.{
  ExportComplete, is_managed, handle_export_complete,
}
use clusterio_surface_export.InstancePlugin.Source.{ParsedLockState}
use clusterio_surface_export.InstancePlugin.Managed.{managed_ids, Has, add_id-Has_self}
use clusterio_surface_export.InstancePlugin.Kept.{
  transfer_requests, completes, get_export_data-IsQuiet, send_export-elim, handle_all-Has,
}
use clusterio_surface_export.InstancePlugin.Events.{PluginEvent, handle_all}

managed_if-Has_named :
    (id : String) (o : Option ℕ) (r : ExportResult) (s : PluginState)
    → (managed_if o (r, s)).0 ≡ exported id
    → is_some o ≡ true
    → Has id (managed_ids (managed_if o (r, s)).1)
managed_if-Has_named id none r s e given = ground (arith, given)
managed_if-Has_named id (some n) (export_failed why) s e given = ground (arith, e)
managed_if-Has_named id (some n) (exported j) s e given =
    let same : j ≡ id = ground (arith, e) in
    subst (λ k. Has k (add_id j (managed_ids s))) same (add_id-Has_self j (managed_ids s))

transfer_requests-managed :
    (v : Surroundings) (x : ExportComplete) (s : PluginState)
    → Has (trim x.export_id) (managed_ids s)
    → (x.destination_instance_id == pos 0) ≡ false
    → transfer_requests (handle_export_complete v x s).trace ≡ transfer_requests s.trace
unfolding handle_export_complete
transfer_requests-managed v x s h given =
    let id = trim x.export_id in
    let look = get_export_data v true id s in
    let quiet = get_export_data-IsQuiet v true id s in
    let managed : is_managed id look.1 ≡ true = subst (Has id) (sym quiet.0) h in
    elim (Bool-cases (is_invalid_export_id id)) [
      | inl bad ↦ rw bad refl
      | inr good ↦ rw good (
          send_export-elim (λ u. transfer_requests u.trace ≡ transfer_requests s.trace) v id x
            look.1 look.0 quiet.1 (λ m e. (e ∙ quiet.1, rw given (rw managed (e ∙ quiet.1)))))
    ]

-- An export that the controller asked for with a target is never transferred by the plugin itself: when
-- its completion names a destination, the plugin asks for no transfer, whatever else it has handled since,
-- if it was not the completion of that export.
pub transfer_requests-handle_all :
    (v : Surroundings) (parse : String → ParsedLockState) (index : ℤ) (force : Option String)
    (target : Option ℤ) (id : String) (es : List PluginEvent) (x : ExportComplete) (s : PluginState)
    → (handle_export_platform_request v index force target s).0 ≡ exported id
    → is_some (target_arg target) ≡ true
    → All (λ e. completes id e ≡ false) es
    → trim x.export_id ≡ id
    → (x.destination_instance_id == pos 0) ≡ false
    → let u = handle_all v parse es (handle_export_platform_request v index force target s).1 in
      transfer_requests (handle_export_complete v x u).trace ≡ transfer_requests u.trace
unfolding handle_export_platform_request request_export
transfer_requests-handle_all v parse index force target id es x s made given others same dest =
    let p = handle_export_platform_request v index force target s in
    let u = handle_all v parse es p.1 in
    let first = managed_if-Has_named id (target_arg target) _ _ made given in
    let still = handle_all-Has v parse id es p.1 others first in
    transfer_requests-managed v x u (subst (λ j. Has j (managed_ids u)) (sym same) still) dest
