-- ===== src/Storage/Sorted.antt =====
-- Stored exports by age, and what deleting some of them leaves: controller.ts, cleanupOldExports.
use clusterio_surface_export.Prelude.{
  ◌≡◌, refl, sym, ap, ◌∙◌, String, false, none, some, List, [], ◌∷◌, ◌++◌, ◌==◌, string_eq,
  if◌then◌else◌, arith, Bool-cases, inl, inr, any,
}
use clusterio_surface_export.Prelude.Sort.{insert_sorted, sort_by}
use clusterio_surface_export.JsMap.{get, has, delete, keys, get-delete, get-append, KeysOnce}
use clusterio_surface_export.Transfer.{StoredExport}
use clusterio_surface_export.Storage.{Exports, delete_keys, is_older}

get-insert_sorted :
    (j k : String) (e : StoredExport) (m : Exports)
    → get k m ≡ none
    → get j (insert_sorted is_older (k, e) m) ≡ (if k == j then some e else get j m)
unfolding insert_sorted
get-insert_sorted j k e [] fresh = refl
get-insert_sorted j k e ((i, f) ∷ m) fresh = ground (
  arith,
  fresh,
  get-insert_sorted j k e m,
  string_eq.same_iff i k,
  string_eq.same_iff k j,
  string_eq.same_iff i j,
)

KeysOnce-insert_sorted :
    (k : String) (e : StoredExport) (m : Exports)
    → get k m ≡ none
    → KeysOnce m
    → KeysOnce (insert_sorted is_older (k, e) m)
unfolding insert_sorted
KeysOnce-insert_sorted k e [] fresh once = (refl, tt)
KeysOnce-insert_sorted k e ((i, f) ∷ m) fresh once = elim (Bool-cases (is_older (i, f) (k, e))) [
  | inl older ↦
      let absent : get k m ≡ none = ground (arith, fresh) in
      let other : (i == k) ≡ false = ground (arith, fresh) in
      let at = get-insert_sorted i k e m absent in
      rw older (
        ground (arith, at, once.0, other, string_eq.same_iff i k, string_eq.same_iff k i),
        KeysOnce-insert_sorted k e m absent once.1,
      )
  | inr newer ↦ rw newer (fresh, once)
]

pub get-sorted : (j : String) (m : Exports) → KeysOnce m → get j (sort_by is_older m) ≡ get j m
unfolding sort_by
get-sorted j [] once = refl
get-sorted j ((k, e) ∷ m) once =
    get-insert_sorted j k e (sort_by is_older m) (get-sorted k m once.1 ∙ once.0)
    ∙ ap (λ o. if k == j then some e else o) (get-sorted j m once.1)

pub KeysOnce-sorted : (m : Exports) → KeysOnce m → KeysOnce (sort_by is_older m)
unfolding sort_by
KeysOnce-sorted [] once = tt
KeysOnce-sorted ((k, e) ∷ m) once =
    KeysOnce-insert_sorted k e (sort_by is_older m) (get-sorted k m once.1 ∙ once.0)
      (KeysOnce-sorted m once.1)

pub get-delete_keys :
    (ks : List String) (m : Exports) (j : String)
    → get j (delete_keys ks m) ≡ (if any (λ k. k == j) ks then none else get j m)
get-delete_keys [] m j = refl
get-delete_keys (k ∷ ks) m j = ground (arith, get-delete_keys ks (delete k m) j, get-delete k j m)

pub any-keys : (j : String) (m : Exports) → any (λ k. k == j) (keys m) ≡ has j m
any-keys j [] = refl
any-keys j ((k, e) ∷ m) = ground (arith, any-keys j m)

-- In a map of two parts, a key of the first is not in the second.
pub once_parts :
    (xs ys : Exports) (j : String)
    → KeysOnce (xs ++ ys)
    → (if has j xs then none else get j (xs ++ ys)) ≡ get j ys
once_parts [] ys j once = refl
once_parts ((k, e) ∷ xs) ys j once = elim (Bool-cases (k == j)) [
  | inr other ↦ ground (arith, other, once_parts xs ys j once.1)
  | inl same ↦
      let key = (string_eq.same_iff k j).0 same in
      let absent = ap (λ n. get n (xs ++ ys)) (sym key) ∙ once.0 in
      ground (arith, same, absent, get-append j xs ys)
]
