-- ===== src/Operations/Ready.antt =====
-- How a request for a download ends: controller.ts, handleExportPlatformForDownloadRequest.
use clusterio_surface_export.Prelude.{
  ℕ, String, ◌≡◌, refl, sym, ap, ◌∙◌, subst, true, false, Option, none, some, string_eq, is_empty,
  Bool-cases, inl, inr, eqb,
}
use clusterio_surface_export.Prelude.Int.{ℤ, pos, negsuc, int_eq}
use clusterio_surface_export.JsMap.{get, set}
use clusterio_surface_export.Cluster.{resolve_instance_name}
use clusterio_surface_export.CanonicalId.{make_canonical_transfer_id}
use clusterio_surface_export.Transfer.{
  ActiveTransfer, StoredExport, Status, export, failed, completed,
}
use clusterio_surface_export.Transfer.World.{
  World, Env, Reply, accepted, rejected, session_lost, send_failed, now, log, emit, send, answer,
  updated, export_failed, export_requested, export_platform,
}
use clusterio_surface_export.Transfer.Operation.{create_operation_record}
use clusterio_surface_export.Transfer.Verdict.{prune_old_transfers}
use clusterio_surface_export.Transfer.Verdict.Stored.{HasRoom, HasRoom-set, get-stored}
use clusterio_surface_export.Operations.{register_operation, fail_operation}
use clusterio_surface_export.Operations.Download.{
  DownloadRequest, DownloadAnswer, invalid_source, invalid_platform_index, unknown_instance,
  no_record, export_refused, ready, downloaded, after_store_wait, after_download_id,
  after_download_reply, request_download, is_live_source, download_options, download_from,
  by_source, handle_export_platform_for_download,
}

abbrev pub HasStatus : String → Status → World → Type 0
HasStatus id s w = (t : ActiveTransfer) × (get id w.transfers ≡ some t) × (t.status ≡ s)

-- The operation is completed where the answer is a stored export, and failed where it is an error of
-- the export; any other answer has changed nothing.
abbrev pub Ends : String → World → World × DownloadAnswer → Type 0
Ends id w (w', ready o e) = (o ≡ id) × HasStatus id completed w'
Ends id w (w', export_refused reason) = HasStatus id failed w'
Ends id w (w', invalid_source) = w' ≡ w
Ends id w (w', invalid_platform_index) = w' ≡ w
Ends id w (w', unknown_instance i) = w' ≡ w
Ends id w (w', no_record) = ⊥

-- Once stored, the record is there after the pruning.
stored-HasStatus :
    (id : String) (at : ℕ) (s : Status) (t : ActiveTransfer) (w u : World)
    → HasRoom id at w.transfers
    → t.transfer_id ≡ id
    → t.started_at ≡ at
    → t.status ≡ s
    → u.transfers ≡ set t.transfer_id t w.transfers
    → HasStatus id s (prune_old_transfers u)
stored-HasStatus id at s t w u room own start status same =
    let stored : u.transfers ≡ set id t w.transfers = same ∙ ap (λ k. set k t w.transfers) own in
    (t, get-stored id at t w u room start stored, status)

fail_operation-HasStatus :
    (v : Env) (reason id : String) (at : ℕ) (t : ActiveTransfer) (w : World)
    → HasRoom id at w.transfers
    → t.transfer_id ≡ id
    → t.started_at ≡ at
    → HasStatus id failed (fail_operation v export_failed reason t w)
unfolding fail_operation
fail_operation-HasStatus v reason id at t w room own start =
    stored-HasStatus id at failed _ w _ room own start refl refl

after_store_wait-Ends :
    (v : Env) (id : String) (at : ℕ) (t : ActiveTransfer) (o : Option StoredExport) (w0 w : World)
    → HasRoom id at w.transfers
    → t.transfer_id ≡ id
    → t.started_at ≡ at
    → Ends id w0 (after_store_wait v t o w)
unfolding after_store_wait
after_store_wait-Ends v id at t none w0 w room own start =
    fail_operation-HasStatus v _ id at t w room own start
after_store_wait-Ends v id at t (some e) w0 w room own start =
    (own, stored-HasStatus id at completed (downloaded v e t w) w _ room own start refl refl)

after_download_id-Ends :
    (v : Env) (id : String) (at : ℕ) (t : ActiveTransfer) (o : Option String) (w0 w : World)
    → HasRoom id at w.transfers
    → t.transfer_id ≡ id
    → t.started_at ≡ at
    → Ends id w0 (after_download_id v t o w)
unfolding after_download_id
after_download_id-Ends v id at t none w0 w room own start =
    fail_operation-HasStatus v _ id at t w room own start
after_download_id-Ends v id at t (some k) w0 w room own start =
    let w' = record w { storage = v.during_wait w.trace w.storage } in
    after_store_wait-Ends v id at t (get k w'.storage) w0 w' room own start

after_download_reply-Ends :
    (v : Env) (id : String) (at : ℕ) (source : ℤ) (r : Reply) (t : ActiveTransfer) (w0 w : World)
    → HasRoom id at w.transfers
    → t.transfer_id ≡ id
    → t.started_at ≡ at
    → Ends id w0 (after_download_reply v source r t w)
unfolding after_download_reply
after_download_reply-Ends v id at source (accepted none) t w0 w room own start =
    fail_operation-HasStatus v _ id at t w room own start
after_download_reply-Ends v id at source (accepted (some job)) t w0 w room own start =
    elim (Bool-cases (is_empty job)) [
      | inl empty ↦ rw empty (fail_operation-HasStatus v _ id at t w room own start)
      | inr given ↦ rw given (
          after_download_id-Ends v id at t (make_canonical_transfer_id v.number source job) w0 w
            room own start)
    ]
after_download_reply-Ends v id at source (rejected reason) t w0 w room own start =
    fail_operation-HasStatus v _ id at t w room own start
after_download_reply-Ends v id at source (session_lost reason) t w0 w room own start =
    fail_operation-HasStatus v _ id at t w room own start
after_download_reply-Ends v id at source (send_failed reason) t w0 w room own start =
    fail_operation-HasStatus v _ id at t w room own start

request_download-Ends :
    (v : Env) (id : String) (at : ℕ) (source : ℤ) (index : ℕ) (t : ActiveTransfer) (w : World)
    → t.transfer_id ≡ id
    → t.started_at ≡ at
    → HasRoom id at w.transfers
    → Ends id w (request_download v source index (some t) w)
unfolding request_download
request_download-Ends v id at source index t w own start room =
    let w' = emit (updated t) (log t.transfer_id export_requested (register_operation t w)) in
    let m = export_platform index t.force_name (negsuc 0) in
    let room' : HasRoom id at w'.transfers =
      subst (λ k. HasRoom id at (set k t w.transfers)) (sym own)
        (HasRoom-set id at t w.transfers room) in
    after_download_reply-Ends v id at source (answer v w' source m) t w (send source m w') room' own
      start

created-own :
    (v : Env) (q : DownloadRequest) (source : ℤ) (index : ℕ) (w : World)
    → (t : ActiveTransfer) × (create_operation_record export
          (download_options q source index)
          (resolve_instance_name v.cluster)
          q.operation_id
          (now v w)
        ≡ some t)
      × (t.transfer_id ≡ q.operation_id)
      × (t.started_at ≡ now v w)
unfolding create_operation_record download_options
created-own v q source index w = (_, refl, refl, refl)

download_from-sent :
    (v : Env) (q : DownloadRequest) (source : ℤ) (index : ℕ) (w : World)
    → eqb index 0 ≡ false
    → is_live_source (get source v.cluster.instances) ≡ true
    → download_from v q source (some (pos index)) w
      ≡ request_download v source index
          (create_operation_record export
            (download_options q source index)
            (resolve_instance_name v.cluster)
            q.operation_id
            (now v w))
          w
unfolding download_from request_download create_operation_record download_options
download_from-sent v q source index w e live = rw (e, live) refl

download_from-Ends :
    (v : Env) (q : DownloadRequest) (source : ℤ) (index : Option ℤ) (w : World)
    → HasRoom q.operation_id (now v w) w.transfers
    → Ends q.operation_id w (download_from v q source index w)
unfolding download_from
download_from-Ends v q source none w room = refl
download_from-Ends v q source (some (negsuc n)) w room = refl
download_from-Ends v q source (some (pos index)) w room = elim (Bool-cases (eqb index 0)) [
  | inl e ↦ rw e refl
  | inr e ↦ elim (Bool-cases (is_live_source (get source v.cluster.instances))) [
    | inr gone ↦ rw (e, gone) refl
    | inl live ↦
        subst (Ends q.operation_id w) (sym (download_from-sent v q source index w e live)) (
          let (t, made, own, start) = created-own v q source index w in
          subst (λ o. Ends q.operation_id w (request_download v source index o w)) (sym made)
            (request_download-Ends v q.operation_id (now v w) source index t w own start room))
  ]
]

by_source-Ends :
    (v : Env) (q : DownloadRequest) (source : Option ℤ) (w : World)
    → HasRoom q.operation_id (now v w) w.transfers
    → Ends q.operation_id w (by_source v q source w)
unfolding by_source
by_source-Ends v q none w room = refl
by_source-Ends v q (some source) w room =
    download_from-Ends v q source q.source_platform_index w room

pub handle_export_platform_for_download-Ends :
    (v : Env) (q : DownloadRequest) (w : World)
    → HasRoom q.operation_id (now v w) w.transfers
    → Ends q.operation_id w (handle_export_platform_for_download v q w)
unfolding handle_export_platform_for_download
handle_export_platform_for_download-Ends v q w room = by_source-Ends v q q.source_instance_id w room
