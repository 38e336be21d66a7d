-- ===== src/Storage/Load.antt =====
-- A restart after an export was stored: controller.ts, handlePlatformExport, persistStorage and
-- loadStorage.
use mathlib.Core.List.{append_assoc, append-nil}
use clusterio_surface_export.Prelude.{
  ℕ, ◌<◌, ◌-◌, ◌≡◌, refl, sym, ap, ◌∙◌, subst, String, false, none, some, List, [], ◌∷◌, ◌++◌,
  string_eq, is_empty, eqb, arith, Bool-cases, inl, inr, length, take, All, or_text,
}
use clusterio_surface_export.Prelude.Int.{pos, ltb_ℤ}
use clusterio_surface_export.Prelude.Sort.{sort_by}
use clusterio_surface_export.CanonicalId.{
  NumberText, make_canonical_transfer_id, parse_canonical_transfer_id,
}
use clusterio_surface_export.CanonicalId.RoundTrip.{ReadsBack, parse-make_canonical_transfer_id}
use clusterio_surface_export.JsMap.{
  set, values, delete, keys, KeysOnce, set-KeysOnce, delete-KeysOnce, set-new, once_before,
  All-set_entry, All-delete_entry,
}
use clusterio_surface_export.Transfer.{StoredExport}
use clusterio_surface_export.Storage.{
  Exports, Storage, array, delete_keys, over_limit, cleanup_old_exports, is_older,
  canonicalize_stored_export, sized, load_each, load_storage, ExportEvent, stored_of, store_export,
  store_if, persist_unless, persist_storage, handle_platform_export,
}

-- An export under its own id, with a size, that loading leaves as it is.
abbrev pub IsStored : NumberText → (StoredExport → ℕ) → String × StoredExport → Type 0
IsStored n measure (k, e) =
    (k ≡ e.export_id)
    × (is_empty e.export_id ≡ false)
    × (canonicalize_stored_export n (sized measure e) ≡ e)

abbrev pub WellStored : NumberText → (StoredExport → ℕ) → Exports → Type 0
WellStored n measure m = KeysOnce m × All (IsStored n measure) m

load_each-values :
    (n : NumberText) (measure : StoredExport → ℕ) (m acc : Exports)
    → KeysOnce (acc ++ m)
    → All (IsStored n measure) m
    → load_each n measure (values m) acc ≡ acc ++ m
unfolding load_each
load_each-values n measure [] acc once stored = sym (append-nil acc)
load_each-values n measure ((k, e) ∷ m) acc once ((key, given, kept), stored) =
    let front = (k, e) ∷ [] in
    let all = append_assoc acc front m in
    let id = ap (λ x. x.export_id) kept ∙ sym key in
    let step =
      ap (λ x. set x.export_id x acc) kept
      ∙ ap (λ i. set i e acc) (sym key)
      ∙ set-new k e acc (once_before acc m k e once) in
    rw given (
      ap (load_each n measure (values m)) step
      ∙ load_each-values n measure m (acc ++ front) (subst KeysOnce (sym all) once) stored
      ∙ all)

delete_keys-WellStored :
    (n : NumberText) (measure : StoredExport → ℕ) (ks : List String) (m : Exports)
    → WellStored n measure m
    → WellStored n measure (delete_keys ks m)
delete_keys-WellStored n measure [] m h = h
delete_keys-WellStored n measure (k ∷ ks) m h =
    delete_keys-WellStored n measure ks (delete k m)
      (delete-KeysOnce k m h.0, All-delete_entry (IsStored n measure) k m h.1)

over_limit-WellStored :
    (n : NumberText) (measure : StoredExport → ℕ) (max_storage : ℕ) (m : Exports)
    → WellStored n measure m
    → WellStored n measure (over_limit (some (pos max_storage)) m).0
unfolding cleanup_old_exports
over_limit-WellStored n measure max_storage m h =
    elim (Bool-cases (ltb_ℤ (pos max_storage) (pos (length m)))) [
      | inl over ↦ rw over (
          delete_keys-WellStored n measure
            (keys (take (length m - max_storage) (sort_by is_older m))) m h)
      | inr within ↦ rw within h
    ]

parsed-given :
    (n : NumberText) (id job : String) (i : ℕ)
    → parse_canonical_transfer_id n id ≡ some (i, job)
    → is_empty id ≡ false
unfolding parse_canonical_transfer_id
parsed-given n String.[] job i e = ground (arith, e)
parsed-given n (String.◌∷◌ c id) job i e = refl

or_text_same : (a : String) → or_text a a ≡ a
or_text_same a = elim (Bool-cases (is_empty a)) [ inl e ↦ rw e refl | inr e ↦ rw e refl ]

stored_of-IsStored :
    (n : NumberText) (measure : StoredExport → ℕ) (i : ℕ) (e : ExportEvent) (id : String)
    → ReadsBack n
    → make_canonical_transfer_id n e.instance_id e.export_id ≡ some id
    → e.instance_id ≡ pos i
    → 0 < e.serialized_size
    → IsStored n measure (id, stored_of id e)
unfolding stored_of canonicalize_stored_export
stored_of-IsStored n measure i e id r made at sized_pos =
    let parsed =
      parse-make_canonical_transfer_id n i e.export_id id r
        (ap (λ x. make_canonical_transfer_id n x e.export_id) (sym at) ∙ made) in
    let size : eqb e.serialized_size 0 ≡ false = ground (arith, sized_pos) in
    (
      refl,
      parsed-given n id e.export_id i parsed,
      rw (size, parsed)
          (ap (λ job. record (stored_of id e) { source_export_id = job })
            (or_text_same e.export_id)),
    )

over_limit-quiet :
    (max_storage : ℕ) (m : Exports) → (over_limit (some (pos max_storage)) m).1 ≡ false
unfolding cleanup_old_exports
over_limit-quiet max_storage m = elim (Bool-cases (ltb_ℤ (pos max_storage) (pos (length m)))) [
  | inl over ↦ rw over refl
  | inr within ↦ rw within refl
]

-- What the handler leaves where the write succeeds.
abbrev saved_as : Exports → Storage → Storage
saved_as kept s = record s { exports = kept; file = array (values kept); write_failures = 0 }

handle_platform_export-saved_as :
    (n : NumberText) (max_storage : ℕ) (e : ExportEvent) (s : Storage) (id : String)
    → make_canonical_transfer_id n e.instance_id e.export_id ≡ some id
    → s.load_error ≡ none
    → handle_platform_export n (some (pos max_storage)) false e s
      ≡ some
          (saved_as (over_limit (some (pos max_storage)) (set id (stored_of id e) s.exports)).0 s)
unfolding handle_platform_export store_if store_export persist_unless persist_storage
handle_platform_export-saved_as n max_storage e s id made fine =
    rw (made, over_limit-quiet max_storage (set id (stored_of id e) s.exports), fine) refl

load_storage-saved_as :
    (n : NumberText) (measure : StoredExport → ℕ) (m : Exports) (s : Storage)
    → WellStored n measure m
    → (load_storage n measure (record (saved_as m s) { exports = [] })).exports ≡ m
unfolding load_storage
load_storage-saved_as n measure m s (once, stored) = load_each-values n measure m [] once stored

-- After an export with a valid id and a size was stored under the limit, with a write that succeeds
-- and a storage that was loaded, a controller that starts afresh loads exactly the exports in
-- memory. Before, each export stood once, under its own id, as loading leaves it. Numbers are read
-- back as they are written, with no colon in them.
pub load_storage-handle_platform_export :
    (n : NumberText) (measure : StoredExport → ℕ) (max_storage i : ℕ) (e : ExportEvent)
    (s s' : Storage) (id : String)
    → ReadsBack n
    → e.instance_id ≡ pos i
    → 0 < e.serialized_size
    → make_canonical_transfer_id n e.instance_id e.export_id ≡ some id
    → s.load_error ≡ none
    → WellStored n measure s.exports
    → handle_platform_export n (some (pos max_storage)) false e s ≡ some s'
    → (load_storage n measure (record s' { exports = [] })).exports ≡ s'.exports
load_storage-handle_platform_export n measure max_storage i e s s' id r at size made fine h done =
    let m = set id (stored_of id e) s.exports in
    let stored : WellStored n measure m = (
      set-KeysOnce id (stored_of id e) s.exports h.0,
      All-set_entry (IsStored n measure) id (stored_of id e) s.exports
          (stored_of-IsStored n measure i e id r made at size) h.1,
    ) in
    let left = over_limit-WellStored n measure max_storage m stored in
    let same : saved_as (over_limit (some (pos max_storage)) m).0 s ≡ s' =
      ground (arith, done, handle_platform_export-saved_as n max_storage e s id made fine) in
    subst (λ x. (load_storage n measure (record x { exports = [] })).exports ≡ x.exports) same
      (load_storage-saved_as n measure (over_limit (some (pos max_storage)) m).0 s left)
