-- ===== src/Operations/Complete.antt =====
-- What a reported import leaves: controller.ts, handleImportOperationCompleteEvent.
use clusterio_surface_export.Prelude.{
  ℕ, ◌≡◌, refl, sym, ap, ◌∙◌, subst, false, Option, none, some, if◌then◌else◌, string_eq, is_empty,
  arith, Bool-cases, inl, inr, or_text, eqb,
}
use clusterio_surface_export.Prelude.Int.{ℤ, pos, negsuc}
use clusterio_surface_export.JsMap.{get, set}
use clusterio_surface_export.Cluster.{Cluster, resolve_instance_name}
use clusterio_surface_export.Transfer.{
  ActiveTransfer, Status, import, failed, completed, cleanup_failed,
}
use clusterio_surface_export.Transfer.World.{
  World, Env, now, store, log, emit, import_recovered, updated, tree_broadcast, log_persisted,
  import_completed, import_failed,
}
use clusterio_surface_export.Transfer.Operation.{create_operation_record}
use clusterio_surface_export.Transfer.Verdict.Retained.{prune-rest}
use clusterio_surface_export.Transfer.Verdict.Stored.{HasRoom, HasRoom-set, get-stored}
use clusterio_surface_export.Transfer.Verdict.Commands.{commands}
use clusterio_surface_export.Operations.{
  ImportComplete, with_instance, finished, reported, complete_operation, complete_recovered,
  complete_found, recovered_options, register_operation, handle_import_operation_complete,
}

-- The status that a report ends an operation with.
abbrev pub reported_status : ImportComplete → Status
reported_status e =
    if e.success then completed else if e.cleanup_has_failed then cleanup_failed else failed

-- The operation has ended as reported, the pending intents and the stored exports are left alone,
-- and nothing was sent to an instance.
abbrev pub EndsAs : ImportComplete → World → World → Type 0
EndsAs e w w' =
    (t : ActiveTransfer) × (get e.operation_id w'.transfers ≡ some t)
    × (t.status ≡ reported_status e)
    × (w'.pending ≡ w.pending)
    × (w'.storage ≡ w.storage)
    × (commands w'.trace ≡ commands w.trace)

finished-status :
    (at : ℕ) (e : ImportComplete) (t : ActiveTransfer)
    → (finished at e t).status ≡ reported_status e
finished-status at e t = ground arith

with_instance-transfer_id :
    (c : Cluster) (o : Option ℤ) (t : ActiveTransfer)
    → (with_instance c o t).transfer_id ≡ t.transfer_id
with_instance-transfer_id c none t = refl
with_instance-transfer_id c (some (negsuc n)) t = refl
with_instance-transfer_id c (some (pos n)) t = elim (Bool-cases (eqb n 0)) [
  | inl e ↦ rw e refl
  | inr e ↦ rw e refl
]

finished-transfer_id :
    (v : Env) (at : ℕ) (e : ImportComplete) (t : ActiveTransfer)
    → (finished at e (reported v.cluster e t)).transfer_id ≡ t.transfer_id
finished-transfer_id v at e t = elim (Bool-cases e.success) [
  | inl good ↦ rw good (with_instance-transfer_id v.cluster e.instance_id t)
  | inr bad ↦ rw bad (with_instance-transfer_id v.cluster e.instance_id t)
]

with_instance-started_at :
    (c : Cluster) (o : Option ℤ) (t : ActiveTransfer)
    → (with_instance c o t).started_at ≡ t.started_at
with_instance-started_at c none t = refl
with_instance-started_at c (some (negsuc n)) t = refl
with_instance-started_at c (some (pos n)) t = elim (Bool-cases (eqb n 0)) [
  | inl e ↦ rw e refl
  | inr e ↦ rw e refl
]

finished-started_at :
    (v : Env) (at : ℕ) (e : ImportComplete) (t : ActiveTransfer)
    → (finished at e (reported v.cluster e t)).started_at ≡ t.started_at
finished-started_at v at e t = elim (Bool-cases e.success) [
  | inl good ↦ rw good (with_instance-started_at v.cluster e.instance_id t)
  | inr bad ↦ rw bad (with_instance-started_at v.cluster e.instance_id t)
]

complete_operation-EndsAs :
    (v : Env) (e : ImportComplete) (t : ActiveTransfer) (w : World)
    → t.transfer_id ≡ e.operation_id
    → HasRoom e.operation_id t.started_at w.transfers
    → EndsAs e w (complete_operation v e t w)
unfolding complete_operation
complete_operation-EndsAs v e t w own room =
    let t' = finished (now v w) e (reported v.cluster e t) in
    let own' : t'.transfer_id ≡ e.operation_id = finished-transfer_id v (now v w) e t ∙ own in
    let event = (if e.success then import_completed else import_failed) in
    let u : World = emit (log_persisted t') (
      emit (tree_broadcast (or_text t'.force_name "player"))
        (emit (updated t') (log t'.transfer_id event (store t' w)))) in
    let written : u.transfers ≡ set e.operation_id t' w.transfers =
      ap (λ k. set k t' w.transfers) own' in
    let rest = prune-rest u in
    (
      t',
      get-stored e.operation_id t.started_at t' w u room (finished-started_at v (now v w) e t)
          written,
      finished-status (now v w) e (reported v.cluster e t),
      rest.0,
      rest.1,
      ap commands rest.2,
    )

recovered-own :
    (v : Env) (e : ImportComplete) (w : World)
    → is_empty e.operation_id ≡ false
    → (t : ActiveTransfer) × (create_operation_record import
          (recovered_options e)
          (resolve_instance_name v.cluster)
          e.operation_id
          (now v w)
        ≡ some t)
      × (t.transfer_id ≡ e.operation_id)
      × (t.started_at ≡ now v w)
unfolding create_operation_record recovered_options
recovered-own v e w given = (_, refl, rw given refl, refl)

complete_recovered-EndsAs :
    (v : Env) (e : ImportComplete) (t : ActiveTransfer) (w : World)
    → t.transfer_id ≡ e.operation_id
    → HasRoom e.operation_id t.started_at w.transfers
    → EndsAs e w (complete_recovered v e (some t) w)
unfolding complete_recovered
complete_recovered-EndsAs v e t w own room =
    let w' = log t.transfer_id import_recovered (register_operation t w) in
    let room' : HasRoom e.operation_id t.started_at w'.transfers =
      subst (λ k. HasRoom e.operation_id t.started_at (set k t w.transfers)) (sym own)
        (HasRoom-set e.operation_id t.started_at t w.transfers room) in
    complete_operation-EndsAs v e t w' own room'

-- When the operation began: with its record, or now.
abbrev pub begun : Option ActiveTransfer → ℕ → ℕ
begun none at = at
begun (some t) at = t.started_at

complete_found-EndsAs :
    (v : Env) (e : ImportComplete) (o : Option ActiveTransfer) (w : World)
    → is_empty e.operation_id ≡ false
    → ((t : ActiveTransfer) → o ≡ some t → t.transfer_id ≡ e.operation_id)
    → HasRoom e.operation_id (begun o (now v w)) w.transfers
    → EndsAs e w (complete_found v e o w)
unfolding complete_found
complete_found-EndsAs v e (some t) w given own room =
    complete_operation-EndsAs v e t w (own t refl) room
complete_found-EndsAs v e none w given own room =
    let (t, made, own', start) = recovered-own v e w given in
    subst (λ o. EndsAs e w (complete_recovered v e o w)) (sym made)
      (complete_recovered-EndsAs v e t w own'
        (subst (λ at. HasRoom e.operation_id at w.transfers) (sym start) room))

pub handle_import_operation_complete-EndsAs :
    (v : Env) (e : ImportComplete) (w : World)
    → is_empty e.operation_id ≡ false
    → ((t : ActiveTransfer)
        → get e.operation_id w.transfers ≡ some t
        → t.transfer_id ≡ e.operation_id)
    → HasRoom e.operation_id (begun (get e.operation_id w.transfers) (now v w)) w.transfers
    → EndsAs e w (handle_import_operation_complete v e w)
unfolding handle_import_operation_complete
handle_import_operation_complete-EndsAs v e w given own room =
    rw given (complete_found-EndsAs v e (get e.operation_id w.transfers) w given own room)
