-- ===== src/Storage.antt =====
-- The controller's stored exports: controller.ts, handlePlatformExport, cleanupOldExports,
-- listStoredExports, canonicalizeStoredExport, loadStorage and persistStorage. The payload of an
-- export is left out; its serialized size is a parameter.
pub mod Sorted
pub mod Cleanup
pub mod Load
mod Tests
use clusterio_surface_export.Prelude.{
  ℕ, ◌+◌, ◌-◌, String, Bool, true, false, Option, none, some, List, [], ◌∷◌, map, ltb, eqb, leb,
  string_eq, if◌then◌else◌, is_empty, or_text, or_else, length, take,
}
use clusterio_surface_export.Prelude.Int.{ℤ, pos, negsuc, ltb_ℤ}
use clusterio_surface_export.Prelude.Sort.{sort_by}
use clusterio_surface_export.JsMap.{JsMap, get, set, delete, keys, values}
use clusterio_surface_export.CanonicalId.{
  NumberText, make_canonical_transfer_id, parse_canonical_transfer_id,
}
use clusterio_surface_export.Transfer.{StoredExport}

abbrev pub Exports : Type 0
Exports = JsMap String StoredExport

-- What the file holds.
pub data StorageFile : Type 0 where
  missing : StorageFile
  unreadable : String → StorageFile
  no_array : StorageFile
  array : List StoredExport → StorageFile

pub record Storage : Type 0 where
  pub exports : Exports
  pub load_error : Option String
  pub write_failures : ℕ
  pub file : StorageFile

-- persistStorage; the write fails where `fails` says so.
unfoldable pub persist_storage : Bool → Storage → Storage
persist_storage fails s = by_error s.load_error fails
  where
    by_error : Option String → Bool → Storage
    by_error (some e) fails = s
    by_error none false = record s { file = array (values s.exports); write_failures = 0 }
    by_error none true = record s { write_failures = s.write_failures + 1 }

abbrev pub delete_keys : List String → Exports → Exports
delete_keys [] m = m
delete_keys (k ∷ ks) m = delete_keys ks (delete k m)

abbrev pub is_older : String × StoredExport → String × StoredExport → Bool
is_older a b = ltb a.1.timestamp b.1.timestamp

-- cleanupOldExports: the exports that stay, and whether it throws. With a negative limit the loop
-- runs past the last entry: all are deleted, and the next step throws.
unfoldable pub cleanup_old_exports : ℤ → Exports → Exports × Bool
unfolding sort_by
cleanup_old_exports (pos max_storage) m =
    (delete_keys (keys (take (length m - max_storage) (sort_by is_older m))) m, false)
cleanup_old_exports (negsuc n) m = (delete_keys (keys (sort_by is_older m)) m, true)

-- The limit as configured, a whole number: `none` where it is no finite number.
abbrev pub over_limit : Option ℤ → Exports → Exports × Bool
over_limit none m = (m, false)
over_limit (some limit) m =
    if ltb_ℤ limit (pos (length m)) then cleanup_old_exports limit m else (m, false)

-- The export that an event brings: its size is that of its serialized payload.
pub record ExportEvent : Type 0 where
  pub export_id : String
  pub platform_name : String
  pub platform_index : Option ℤ
  pub instance_id : ℤ
  pub force : Option String  -- of the payload
  pub timestamp : ℕ
  pub serialized_size : ℕ

unfoldable pub stored_of : String → ExportEvent → StoredExport
stored_of id e = record {
  export_id = id;
  source_export_id = e.export_id;
  platform_name = e.platform_name;
  platform_index = e.platform_index;
  instance_id = e.instance_id;
  force = e.force;
  timestamp = e.timestamp;
  size = some e.serialized_size;
}

-- A cleanup that throws ends in the handler's catch, before the storage is persisted.
unfoldable pub persist_unless : Bool → Bool → Storage → Storage
unfolding persist_storage
persist_unless true fails s = s
persist_unless false fails s = persist_storage fails s

unfoldable pub store_export : Option ℤ → Bool → String → ExportEvent → Storage → Storage
unfolding cleanup_old_exports persist_unless stored_of
store_export limit fails id e s =
    let r = over_limit limit (set id (stored_of id e) s.exports) in
    persist_unless r.1 fails (record s { exports = r.0 })

unfoldable pub store_if : Option String → Option ℤ → Bool → ExportEvent → Storage → Option Storage
unfolding store_export
store_if none limit fails e s = none
store_if (some id) limit fails e s = some (store_export limit fails id e s)

-- handlePlatformExport; `none` where it throws, on an invalid instance or export id.
unfoldable pub handle_platform_export :
    NumberText → Option ℤ → Bool → ExportEvent → Storage → Option Storage
unfolding make_canonical_transfer_id store_if
handle_platform_export n limit fails e s =
    store_if (make_canonical_transfer_id n e.instance_id e.export_id) limit fails e s

-- canonicalizeStoredExport
abbrev source_id_or : String → StoredExport → StoredExport
source_id_or d e = record e { source_export_id = or_text e.source_export_id d }

abbrev canonical_by_instance : NumberText → StoredExport → Option String → StoredExport
canonical_by_instance n e none = source_id_or e.export_id e
canonical_by_instance n e (some id) = record e {
  export_id = id;
  source_export_id = or_text e.source_export_id e.export_id;
}

abbrev canonical_by_id :
    NumberText → StoredExport → Option (ℕ × String) → Option String → StoredExport
canonical_by_id n e (some (i, job)) made = source_id_or job e
canonical_by_id n e none made = canonical_by_instance n e made

unfoldable pub canonicalize_stored_export : NumberText → StoredExport → StoredExport
unfolding parse_canonical_transfer_id make_canonical_transfer_id
canonicalize_stored_export n e =
    canonical_by_id n e (parse_canonical_transfer_id n e.export_id)
      (make_canonical_transfer_id n e.instance_id (or_text e.source_export_id e.export_id))

-- A missing size, or 0, is measured again.
abbrev sized : (StoredExport → ℕ) → StoredExport → StoredExport
sized measure e = if eqb (or_else e.size 0) 0 then record e { size = some (measure e) } else e

unfoldable pub load_each : NumberText → (StoredExport → ℕ) → List StoredExport → Exports → Exports
unfolding canonicalize_stored_export
load_each n measure [] m = m
load_each n measure (e ∷ es) m =
    let stored = canonicalize_stored_export n (sized measure e) in
    let rest = load_each n measure es (set stored.export_id stored m) in
    if is_empty e.export_id then load_each n measure es m else rest

-- loadStorage
unfoldable pub load_storage : NumberText → (StoredExport → ℕ) → Storage → Storage
unfolding load_each
load_storage n measure s = by_file s.file
  where
    by_file : StorageFile → Storage
    by_file missing = record s { load_error = none }
    by_file (unreadable e) = record s { load_error = some e }
    by_file no_array = record s { load_error = none }
    by_file (array es) = record s { exports = load_each n measure es s.exports; load_error = none }

-- What the page and the other plugins are shown of an export; `measure` is the size of its payload.
pub record ShownExport : Type 0 where
  pub export_id : String
  pub source_export_id : String
  pub platform_name : String
  pub instance_id : ℤ
  pub timestamp : ℕ
  pub size : ℕ

abbrev shown_export : (StoredExport → ℕ) → StoredExport → ShownExport
shown_export measure e = record {
  export_id = e.export_id;
  source_export_id = e.source_export_id;
  platform_name = e.platform_name;
  instance_id = e.instance_id;
  timestamp = e.timestamp;
  size = or_else e.size (measure e);
}

-- listStoredExports
abbrev pub list_stored_exports : (StoredExport → ℕ) → Exports → List ShownExport
list_stored_exports measure m = map (shown_export measure) (values m)

-- handleGetStoredExportRequest; `none` is the answer that the export is not found.
abbrev pub handle_get_stored_export : (StoredExport → ℕ) → String → Exports → Option ShownExport
handle_get_stored_export measure id m = shown_if (get id m)
  where
    shown_if : Option StoredExport → Option ShownExport
    shown_if none = none
    shown_if (some e) = some (shown_export measure e)
