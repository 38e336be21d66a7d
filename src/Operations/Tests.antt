-- ===== src/Operations/Tests.antt =====
-- The end of an import that the controller does not know, and an upload that is accepted.
use clusterio_surface_export.Prelude.{◌≡◌, refl, true, false, none, some, [], arith}
use clusterio_surface_export.Prelude.Int.{pos}
use clusterio_surface_export.Transfer.World.{accepted, rejected}
use clusterio_surface_export.Transfer.Tests.{env_with, world_with}
use clusterio_surface_export.Operations.{
  ImportComplete, Upload, queued, handle_import_operation_complete, handle_import_uploaded_export,
}
use clusterio_surface_export.Operations.Download.{
  DownloadRequest, invalid_platform_index, handle_export_platform_for_download,
}
use clusterio_surface_export.Operations.Ready.{Ends, handle_export_platform_for_download-Ends}
use clusterio_surface_export.Operations.Complete.{EndsAs, handle_import_operation_complete-EndsAs}

abbrev unknown_failed : ImportComplete
unknown_failed = record {
  operation_id = "import_7";
  platform_name = some "Hauler";
  instance_id = some (pos 2);
  success = false;
  error = some "no space";
  cleanup_has_failed = false;
  failed_stage = none;
  validation = none;
}

handle_import_operation_complete-EndsAs_example :
    EndsAs unknown_failed
      (world_with [])
      (handle_import_operation_complete (env_with (accepted none)) unknown_failed (world_with []))
handle_import_operation_complete-EndsAs_example =
    handle_import_operation_complete-EndsAs (env_with (accepted none)) unknown_failed
      (world_with []) refl (λ t. λ found. ground (arith, found)) (tt, omega arith)

abbrev small_upload : Upload
small_upload = record {
  target_instance_id = pos 2;
  is_object = true;
  force_name = none;
  platform_name = none;
  payload_name = some "Hauler";
  payload_force = some "enemy";
  payload_size = λ id. 90;
  operation_id = "import_8";
  upload_id = "uploaded_1";
}

upload_is_queued :
    (handle_import_uploaded_export (env_with (accepted none)) small_upload (world_with [])).1
    ≡ queued "import_8" "Hauler" (pos 2)
unfolding handle_import_uploaded_export
upload_is_queued = refl

abbrev platform_zero : DownloadRequest
platform_zero = record {
  source_instance_id = some (pos 2);
  source_platform_index = some (pos 0);
  force_name = none;
  operation_id = "export_9";
  platform_label = "platform #0";
}

no_platform_0 :
    handle_export_platform_for_download (env_with (accepted none)) platform_zero (world_with [])
    ≡ (world_with [], invalid_platform_index)
unfolding handle_export_platform_for_download
no_platform_0 = refl

abbrev second_platform : DownloadRequest
second_platform = record platform_zero {
  source_platform_index = some (pos 2);
  platform_label = "platform #2";
}

handle_export_platform_for_download-Ends_example :
    Ends "export_9" (world_with []) (
      handle_export_platform_for_download
        (env_with (rejected none))
        second_platform
        (world_with []))
handle_export_platform_for_download-Ends_example =
    handle_export_platform_for_download-Ends (env_with (rejected none)) second_platform
      (world_with []) (tt, omega arith)
