-- ===== src/InstancePlugin/Managed.antt =====
-- An export that the controller asked for: instance.ts, handleExportPlatformRequest and
-- handleExportComplete.
use clusterio_surface_export.Prelude.{
  String, Bool, true, false, not, ◌||◌, Option, none, some, List, [], ◌∷◌, ◌++◌, ◌≡◌, refl, ap, ◌∙◌,
  arith, any, filter, string_eq, ◌==◌, Bool-cases, inl, inr,
}
use clusterio_surface_export.Prelude.Int.{ℤ, pos, negsuc, int_eq}
use clusterio_surface_export.CanonicalId.{make_canonical_transfer_id}
use clusterio_surface_export.InstancePlugin.{
  RconReply, printed, rcon_threw, transfer_platform_request, unlock_platform, ControllerReply,
  succeeded, declined, unreachable, PendingTransfer, JobId, PluginState, Surroundings, call, report,
}
use clusterio_surface_export.InstancePlugin.Exports.{add_id}
use clusterio_surface_export.InstancePlugin.Transfers.{
  Run, returned, threw, after_unlock, after_request, request_transfer, start_controller_transfer,
  after_catch, then_forget, to_pending_target, run_pending,
}

abbrev pub managed_ids : PluginState → List String
managed_ids s = s.controller_managed_transfer_exports

abbrev pub Has : String → List String → Type 0
Has id ids = any (λ x. x == id) ids ≡ true

any-append : (p : String → Bool) (xs ys : List String) → any p (xs ++ ys) ≡ (any p xs || any p ys)
any-append p [] ys = refl
any-append p (x ∷ xs) ys = ground (arith, any-append p xs ys)

pub add_id-Has : (j id : String) (ids : List String) → Has id ids → Has id (add_id j ids)
add_id-Has j id ids h = ground (arith, h, any-append (λ x. x == id) ids (j ∷ []))

pub add_id-Has_self : (id : String) (ids : List String) → Has id (add_id id ids)
add_id-Has_self id ids =
    ground (arith, any-append (λ x. x == id) ids (id ∷ []), string_eq.same_iff id id)

pub filter-Has :
    (j id : String) (ids : List String)
    → (j == id) ≡ false
    → Has id ids
    → Has id (filter (λ x. not (x == j)) ids)
filter-Has j id [] d h = h
filter-Has j id (x ∷ ids) d h = elim (Bool-cases (x == j)) [
  | inl same ↦
      let other : (x == id) ≡ false = ap (λ y. y == id) ((string_eq.same_iff x j).0 same) ∙ d in
      rw same (filter-Has j id ids d (ground (arith, h, other)))
  | inr differs ↦ ground (arith, h, differs, filter-Has j id ids d)
]

managed_ids-after_unlock :
    (r : RconReply) (e : Option String) (s : PluginState)
    → managed_ids (after_catch (after_unlock r e s)) ≡ managed_ids s
managed_ids-after_unlock (printed text) e s = refl
managed_ids-after_unlock (rcon_threw why) e s = refl

managed_ids-after_request :
    (v : Surroundings) (index : Option ℤ) (r : ControllerReply) (s : PluginState)
    → managed_ids (after_catch (after_request v index r s)) ≡ managed_ids s
managed_ids-after_request v index succeeded s = refl
managed_ids-after_request v none (declined e true) s = refl
managed_ids-after_request v (some i) (declined e true) s =
    managed_ids-after_unlock (v.rcon s.trace (unlock_platform i none)) e
      (call (unlock_platform i none) s)
managed_ids-after_request v index (declined e false) s = refl
managed_ids-after_request v index (unreachable why) s = refl

managed_ids-request_transfer :
    (v : Surroundings) (id : String) (target : ℤ) (index : Option ℤ) (s : PluginState)
    (o : Option String)
    → managed_ids (after_catch (request_transfer v id target index s o)) ≡ managed_ids s
managed_ids-request_transfer v id target index s none = refl
managed_ids-request_transfer v id target index s (some c) =
    let m = transfer_platform_request c target id in
    managed_ids-after_request v index (v.controller s.trace m) (report m s)

pub managed_ids-start_controller_transfer :
    (v : Surroundings) (id : String) (target : ℤ) (index : Option ℤ) (s : PluginState)
    → managed_ids (after_catch (start_controller_transfer v id target index s)) ≡ managed_ids s
unfolding start_controller_transfer
managed_ids-start_controller_transfer v id target index s =
    managed_ids-request_transfer v id target index s (make_canonical_transfer_id v.number v.id id)

managed_ids-then_forget : (r : Run) → managed_ids (then_forget r) ≡ managed_ids (after_catch r)
managed_ids-then_forget (returned s) = refl
managed_ids-then_forget (threw s) = refl

managed_ids-to_pending_target :
    (v : Surroundings) (id : String) (p : PendingTransfer) (o : Option ℤ) (s : PluginState)
    → managed_ids (to_pending_target v id p o s) ≡ managed_ids s
managed_ids-to_pending_target v id p none s = refl
managed_ids-to_pending_target v id p (some (negsuc n)) s = refl
managed_ids-to_pending_target v id p (some (pos n)) s =
    let r = start_controller_transfer v id (pos n) p.platform_index s in
    ground (
      arith,
      managed_ids-then_forget r
          ∙ managed_ids-start_controller_transfer v id (pos n) p.platform_index s,
    )

pub managed_ids-run_pending :
    (v : Surroundings) (id : String) (job : Option JobId) (o : Option PendingTransfer)
    (s : PluginState)
    → managed_ids (run_pending v id job o s) ≡ managed_ids s
managed_ids-run_pending v id job none s = refl
managed_ids-run_pending v id job (some p) s =
    ground (arith, managed_ids-to_pending_target v id p p.destination_instance_id s)
