-- ===== src/Operations/Download.antt =====
-- An export for download: controller.ts, handleExportPlatformForDownloadRequest. Metrics are left out;
-- the export request's null target is -1. The answer carries the stored export.
use clusterio_surface_export.Prelude.{
  ℕ, String, Bool, false, not, Option, none, some, string_eq, if◌then◌else◌, is_empty, or_text,
  given_or, or_option, eqb,
}
use clusterio_surface_export.Prelude.Int.{ℤ, pos, negsuc, int_eq}
use clusterio_surface_export.JsMap.{get}
use clusterio_surface_export.Cluster.{Instance, resolve_instance_name}
use clusterio_surface_export.CanonicalId.{make_canonical_transfer_id}
use clusterio_surface_export.Transfer.{ActiveTransfer, StoredExport, export, completed}
use clusterio_surface_export.Transfer.World.{
  World, Env, Reply, accepted, rejected, session_lost, send_failed, export_platform, emit, send,
  answer, now, log, store, updated, log_persisted, export_requested, export_completed,
  export_failed,
}
use clusterio_surface_export.Transfer.Operation.{OperationOptions, create_operation_record}
use clusterio_surface_export.Transfer.Verdict.{prune_old_transfers}
use clusterio_surface_export.Operations.{register_operation, fail_operation}

-- Numbers that are no integers are missing.
pub record DownloadRequest : Type 0 where
  pub source_instance_id : Option ℤ
  pub source_platform_index : Option ℤ
  pub force_name : Option String
  pub operation_id : String  -- as generateOperationId makes them
  pub platform_label : String  -- `platform #${sourcePlatformIndex}`

pub data DownloadAnswer : Type 0 where
  invalid_source : DownloadAnswer
  invalid_platform_index : DownloadAnswer
  unknown_instance : ℤ → DownloadAnswer
  no_record : DownloadAnswer
  export_refused : String → DownloadAnswer
  ready : String → StoredExport → DownloadAnswer

unfoldable pub download_options : DownloadRequest → ℤ → ℕ → OperationOptions
download_options q source index = record {
  operation_id = none;
  export_id = none;
  source_export_id = none;
  artifact_size_bytes = none;
  platform_name = some q.platform_label;
  platform_index = some (pos index);
  force_name = some (given_or q.force_name "player");
  source_instance_id = some source;
  source_instance_name = none;
  target_instance_id = some (negsuc 0);
  target_instance_name = some "Browser download";
  status = none;
  started_at = none;
}

abbrev pub download_failed : Env → String → ActiveTransfer → World → World × DownloadAnswer
download_failed v reason t w = (fail_operation v export_failed reason t w, export_refused reason)

abbrev pub downloaded : Env → StoredExport → ActiveTransfer → World → ActiveTransfer
downloaded v e t w = record t {
  platform_name = or_text e.platform_name t.platform_name;
  source_instance_id = e.instance_id;
  source_instance_name = resolve_instance_name v.cluster e.instance_id;
  artifact_size_bytes = or_option e.size t.artifact_size_bytes;
  status = completed;
  completed_at = some (now v w);
}

unfoldable pub after_store_wait :
    Env → ActiveTransfer → Option StoredExport → World → World × DownloadAnswer
unfolding fail_operation prune_old_transfers resolve_instance_name
after_store_wait v t none w = download_failed v "Export not stored in time" t w
after_store_wait v t (some e) w =
    let t' = downloaded v e t w in
    (
      prune_old_transfers (
          emit (log_persisted t')
            (emit (updated t') (log t'.transfer_id export_completed (store t' w)))),
      ready t'.transfer_id e,
    )

unfoldable pub after_download_id :
    Env → ActiveTransfer → Option String → World → World × DownloadAnswer
unfolding after_store_wait fail_operation
after_download_id v t none w = download_failed v "Invalid export id" t w
after_download_id v t (some id) w =
    let w' = record w { storage = v.during_wait w.trace w.storage } in
    after_store_wait v t (get id w'.storage) w'

unfoldable pub after_download_reply :
    Env → ℤ → Reply → ActiveTransfer → World → World × DownloadAnswer
unfolding after_download_id make_canonical_transfer_id fail_operation
after_download_reply v source (accepted none) t w = download_failed v "Export failed" t w
after_download_reply v source (accepted (some job)) t w =
    if is_empty job
    then download_failed v "Export failed" t w
    else after_download_id v t (make_canonical_transfer_id v.number source job) w
after_download_reply v source (rejected reason) t w =
    download_failed v (given_or reason "Export failed") t w
after_download_reply v source (session_lost reason) t w = download_failed v reason t w
after_download_reply v source (send_failed reason) t w = download_failed v reason t w

-- `none` is the error that createOperationRecord throws, which it does for transfers alone.
unfoldable pub request_download :
    Env → ℤ → ℕ → Option ActiveTransfer → World → World × DownloadAnswer
unfolding after_download_reply
request_download v source index none w = (w, no_record)
request_download v source index (some t) w =
    let w' = emit (updated t) (log t.transfer_id export_requested (register_operation t w)) in
    let m = export_platform index t.force_name (negsuc 0) in
    after_download_reply v source (answer v w' source m) t (send source m w')

abbrev pub is_live_source : Option Instance → Bool
is_live_source none = false
is_live_source (some i) = not i.is_deleted

unfoldable pub download_from : Env → DownloadRequest → ℤ → Option ℤ → World → World × DownloadAnswer
unfolding request_download create_operation_record resolve_instance_name download_options
download_from v q source none w = (w, invalid_platform_index)
download_from v q source (some (negsuc n)) w = (w, invalid_platform_index)
download_from v q source (some (pos index)) w =
    if eqb index 0
    then (w, invalid_platform_index)
    else if is_live_source (get source v.cluster.instances)
    then request_download v source index
        (create_operation_record export (download_options q source index)
          (resolve_instance_name v.cluster) q.operation_id (now v w))
        w
    else (w, unknown_instance source)

unfoldable pub by_source : Env → DownloadRequest → Option ℤ → World → World × DownloadAnswer
unfolding download_from
by_source v q none w = (w, invalid_source)
by_source v q (some source) w = download_from v q source q.source_platform_index w

-- handleExportPlatformForDownloadRequest
unfoldable pub handle_export_platform_for_download :
    Env → DownloadRequest → World → World × DownloadAnswer
unfolding by_source
handle_export_platform_for_download v q w = by_source v q q.source_instance_id w
