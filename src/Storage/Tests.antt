-- ===== src/Storage/Tests.antt =====
-- One export is stored, the limit is one, and a newer one comes.
use clusterio_surface_export.Prelude.{◌≡◌, refl, false, none, some, [], ◌∷◌, arith, string_eq}
use clusterio_surface_export.Prelude.Int.{pos}
use clusterio_surface_export.JsMap.{set}
use clusterio_surface_export.CanonicalId.{make_canonical_transfer_id}
use clusterio_surface_export.CanonicalId.Tests.{stroke_text, stroke_text-ReadsBack}
use clusterio_surface_export.Transfer.{StoredExport}
use clusterio_surface_export.Storage.{
  Storage, array, missing, ExportEvent, stored_of, handle_platform_export, load_storage,
  canonicalize_stored_export,
}
use clusterio_surface_export.Storage.Cleanup.{IsLimited, handle_platform_export-IsLimited}
use clusterio_surface_export.Storage.Load.{WellStored, load_storage-handle_platform_export}

abbrev old_export : StoredExport
old_export = record {
  export_id = "11:old";
  source_export_id = "old";
  platform_name = "vulcanus";
  platform_index = some (pos 2);
  instance_id = pos 1;
  force = some "player";
  timestamp = 5;
  size = some 40;
}

abbrev one_stored : Storage
one_stored = record {
  exports = ("11:old", old_export) ∷ [];
  load_error = none;
  write_failures = 2;
  file = missing;
}

abbrev new_event : ExportEvent
new_event = record {
  export_id = "new";
  platform_name = "fulgora";
  platform_index = none;
  instance_id = pos 1;
  force = none;
  timestamp = 9;
  serialized_size = 60;
}

abbrev new_export : StoredExport
new_export = record {
  export_id = "11:new";
  source_export_id = "new";
  platform_name = "fulgora";
  platform_index = none;
  instance_id = pos 1;
  force = none;
  timestamp = 9;
  size = some 60;
}

abbrev replaced : Storage
replaced = record {
  exports = ("11:new", new_export) ∷ [];
  load_error = none;
  write_failures = 0;
  file = array (new_export ∷ []);
}

id_of_new : make_canonical_transfer_id stroke_text (pos 1) "new" ≡ some "11:new"
unfolding make_canonical_transfer_id
id_of_new = refl

new_replaces_old :
    handle_platform_export stroke_text (some (pos 1)) false new_event one_stored ≡ some replaced
unfolding handle_platform_export
new_replaces_old = refl

old_is_canonical : canonicalize_stored_export stroke_text old_export ≡ old_export
unfolding canonicalize_stored_export
old_is_canonical = refl

old-WellStored : WellStored stroke_text (λ e. 1) one_stored.exports
old-WellStored = ((refl, tt), ((refl, refl, old_is_canonical), tt))

handle_platform_export-IsLimited_example :
    IsLimited 1
      (set "11:new" (stored_of "11:new" new_event) one_stored.exports)
      (handle_platform_export stroke_text (some (pos 1)) false new_event one_stored)
handle_platform_export-IsLimited_example =
    handle_platform_export-IsLimited stroke_text 1 false new_event one_stored "11:new" id_of_new
      (refl, tt)

load_storage-handle_platform_export_example :
    (load_storage stroke_text (λ e. 1) (record replaced { exports = [] })).exports
    ≡ replaced.exports
load_storage-handle_platform_export_example =
    load_storage-handle_platform_export stroke_text (λ e. 1) 1 1 new_event one_stored replaced
      "11:new" stroke_text-ReadsBack refl (omega arith) id_of_new refl old-WellStored
      new_replaces_old
