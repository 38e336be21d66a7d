-- ===== src/Storage/Cleanup.antt =====
-- The limit on stored exports: controller.ts, handlePlatformExport and cleanupOldExports.
use clusterio_surface_export.Prelude.{
  ℕ, suc, ◌+◌, ◌-◌, ◌≤◌, ◌≡◌, refl, sym, ap, ◌∙◌, subst, String, Bool, true, false, Option, none,
  some, [], ◌∷◌, ◌++◌, ◌==◌, string_eq, arith, Bool-cases, Option-cases, inl, inr, length, take,
  drop, take-append-drop, length-take, ltb, All, or_option,
}
use clusterio_surface_export.Prelude.Sort.{sort_by, length-sort_by, IsOrdered, sort_by-IsOrdered}
use clusterio_surface_export.Prelude.Int.{pos, ltb_ℤ}
use clusterio_surface_export.CanonicalId.{NumberText, make_canonical_transfer_id}
use clusterio_surface_export.JsMap.{
  get, has, set, delete, keys, get-delete, get-append, KeysOnce, set-KeysOnce, delete-KeysOnce,
  All-get,
}
use clusterio_surface_export.Transfer.{StoredExport}
use clusterio_surface_export.Storage.{
  Exports, over_limit, delete_keys, is_older, cleanup_old_exports, Storage, ExportEvent, stored_of,
  persist_storage, persist_unless, store_export, store_if, handle_platform_export,
}
use clusterio_surface_export.Storage.Sorted.{
  get-sorted, KeysOnce-sorted, get-delete_keys, any-keys, once_parts,
}

-- What a cleanup of the first n exports by age leaves.
get-cleanup :
    (n : ℕ) (m : Exports) (j : String)
    → KeysOnce m
    → get j (delete_keys (keys (take n (sort_by is_older m))) m)
      ≡ get j (drop n (sort_by is_older m))
get-cleanup n m j once =
    let sorted = sort_by is_older m in
    let parts = take-append-drop n sorted in
    let split =
      once_parts (take n sorted) (drop n sorted) j
        (subst KeysOnce (sym parts) (KeysOnce-sorted m once)) in
    get-delete_keys (keys (take n sorted)) m j
    ∙ ground (arith, any-keys j (take n sorted), split, ap (get j) parts, get-sorted j m once)

length-delete_absent : (k : String) (m : Exports) → get k m ≡ none → length (delete k m) ≡ length m
length-delete_absent k [] absent = refl
length-delete_absent k ((i, f) ∷ m) absent = ground (arith, absent, length-delete_absent k m)

length-delete :
    (k : String) (m : Exports) → KeysOnce m → has k m ≡ true → suc (length (delete k m)) ≡ length m
length-delete k [] once here = ground arith
length-delete k ((i, f) ∷ m) once here = elim (Bool-cases (i == k)) [
  | inr other ↦ ground (arith, other, here, length-delete k m once.1)
  | inl same ↦
      let absent = ap (λ n. get n m) (sym ((string_eq.same_iff i k).0 same)) ∙ once.0 in
      ground (arith, same, length-delete_absent k m absent)
]

length-delete_keys :
    (xs m : Exports)
    → KeysOnce xs
    → KeysOnce m
    → ((j : String) → has j xs ≡ true → has j m ≡ true)
    → length (delete_keys (keys xs) m) + length xs ≡ length m
length-delete_keys [] m once_xs once inside = omega arith
length-delete_keys ((k, e) ∷ xs) m once_xs once inside =
    let here = inside k (ground (arith, string_eq.same_iff k k)) in
    let still : (j : String) → has j xs ≡ true → has j (delete k m) ≡ true = λ j. λ at.
      elim (Bool-cases (k == j)) [
        | inl same ↦
            let absent = ap (λ n. get n xs) (sym ((string_eq.same_iff k j).0 same)) ∙ once_xs.0 in
            ground (arith, at, absent)
        | inr other ↦ ground (arith, other, get-delete k j m, inside j (ground (arith, at)))
      ] in
    let rest = length-delete_keys xs (delete k m) once_xs.1 (delete-KeysOnce k m once) still in
    omega (arith, rest, length-delete k m once here)

KeysOnce-front : (xs ys : Exports) → KeysOnce (xs ++ ys) → KeysOnce xs
KeysOnce-front [] ys once = tt
KeysOnce-front ((k, e) ∷ xs) ys once =
    (ground (arith, once.0, get-append k xs ys), KeysOnce-front xs ys once.1)

-- Of the exports, those but the first n as they are sorted.
abbrev LeavesRest : ℕ → Exports → Exports → Type 0
LeavesRest n m left =
    (length left ≡ length m - n) × ((j : String) → get j left ≡ get j (drop n (sort_by is_older m)))

oldest_go :
    (n : ℕ) (m : Exports)
    → KeysOnce m
    → LeavesRest n m (delete_keys (keys (take n (sort_by is_older m))) m)
oldest_go n m once =
    let sorted = sort_by is_older m in
    let oldest = take n sorted in
    let parts = take-append-drop n sorted in
    let once_parted = subst KeysOnce (sym parts) (KeysOnce-sorted m once) in
    let inside : (j : String) → has j oldest ≡ true → has j m ≡ true = λ j. λ at.
      ground
        (arith, at, ap (get j) parts, get-append j oldest (drop n sorted), get-sorted j m once) in
    (
      omega (
        arith,
        length-delete_keys oldest m (KeysOnce-front oldest (drop n sorted) once_parted) once inside,
        length-take n sorted,
        length-sort_by is_older m,
      ),
      λ j. get-cleanup n m j once,
    )

-- Within the limit nothing goes; beyond it the oldest do, down to the limit.
over_limit-LeavesRest :
    (max_storage : ℕ) (m : Exports)
    → KeysOnce m
    → LeavesRest (length m - max_storage) m (over_limit (some (pos max_storage)) m).0
unfolding cleanup_old_exports
over_limit-LeavesRest max_storage m once =
    elim (Bool-cases (ltb_ℤ (pos max_storage) (pos (length m)))) [
      | inl over ↦ rw over (oldest_go (length m - max_storage) m once)
      | inr within ↦
          let none_over : length m - max_storage ≡ 0 = ground arith in
          rw within (
            omega (arith, none_over),
            λ j.
                sym (get-sorted j m once)
                ∙ ap (λ n. get j (drop n (sort_by is_older m))) (sym none_over),
          )
    ]

exports-persist_unless :
    (threw fails : Bool) (s : Storage) → (persist_unless threw fails s).exports ≡ s.exports
unfolding persist_unless persist_storage
exports-persist_unless true fails s = refl
exports-persist_unless false fails s = elim (Option-cases s.load_error) [
  | inr (why, e) ↦ rw e refl
  | inl fine ↦ elim (Bool-cases fails) [ inl e ↦ rw (fine, e) refl | inr e ↦ rw (fine, e) refl ]
]

-- Of the exports m, n are gone: the others are as they were, and none of them is older than one that is
-- gone.
abbrev pub LeavesNewest : ℕ → Exports → Exports → Type 0
LeavesNewest n m left =
    (length left ≡ length m - n)
    × ((j : String) (e : StoredExport) → get j left ≡ some e → get j m ≡ some e)
    × ((j k : String) (gone kept : StoredExport)
        → get j m ≡ some gone
        → get j left ≡ none
        → get k left ≡ some kept
        → gone.timestamp ≤ kept.timestamp)

All-back {κ} : (P : String × StoredExport → Type κ) (xs ys : Exports) → All P (xs ++ ys) → All P ys
All-back P [] ys h = h
All-back P (x ∷ xs) ys h = All-back P xs ys h.1

by_age :
    (xs ys : Exports) (j k : String) (e e' : StoredExport)
    → IsOrdered is_older (xs ++ ys)
    → get j xs ≡ some e
    → get k ys ≡ some e'
    → e.timestamp ≤ e'.timestamp
by_age [] ys j k e e' o at at' = cc
by_age ((i, f) ∷ xs) ys j k e e' (first, o) at at' = elim (Bool-cases (i == j)) [
  | inr other ↦ by_age xs ys j k e e' o (ground (arith, at, other)) at'
  | inl same ↦
      let mine : f ≡ e = ground (arith, at, same) in
      let rest =
        All-get (λ g. ltb g.timestamp f.timestamp ≡ false) k e' ys
          (All-back (λ y. is_older y (i, f) ≡ false) xs ys first) at' in
      let not_older : ltb e'.timestamp e.timestamp ≡ false =
        sym (ap (λ g. ltb e'.timestamp g.timestamp) mine) ∙ rest in
      ground (arith, not_older)
]

is_older-IsOrdered : (m : Exports) → IsOrdered is_older (sort_by is_older m)
is_older-IsOrdered m =
    sort_by-IsOrdered is_older (λ x y h. ground (arith, h)) (λ x y z h h'. ground (arith, h, h')) m

LeavesRest-LeavesNewest :
    (n : ℕ) (m left : Exports) → KeysOnce m → LeavesRest n m left → LeavesNewest n m left
LeavesRest-LeavesNewest n m left once (size, rest) =
    let sorted = sort_by is_older m in
    let parts = take-append-drop n sorted in
    let once_parted = subst KeysOnce (sym parts) (KeysOnce-sorted m once) in
    let ordered = subst (IsOrdered is_older) (sym parts) (is_older-IsOrdered m) in
    let found : (j : String) → or_option (get j (take n sorted)) (get j (drop n sorted)) ≡ get j m =
      λ j.
        sym (get-append j (take n sorted) (drop n sorted))
        ∙ ap (get j) parts
        ∙ get-sorted j m once in
    (
      size,
      λ j e at. ground (
        arith,
        once_parts (take n sorted) (drop n sorted) j once_parted,
        ap (get j) parts,
        get-sorted j m once,
        rest j,
        at,
      ),
      λ j k gone kept there left_none at.
          by_age (take n sorted) (drop n sorted) j k gone kept ordered
            (ground (arith, found j, rest j, there, left_none)) (sym (rest k) ∙ at),
    )

-- The storage after an export is stored under the limit.
abbrev pub IsLimited : ℕ → Exports → Option Storage → Type 0
IsLimited max_storage m none = ⊥
IsLimited max_storage m (some s) =
    (length s.exports ≤ max_storage) × LeavesNewest (length m - max_storage) m s.exports

-- An export with a valid id is stored, and of all exports with it as many stay as the limit allows, as they
-- were: no more go than are beyond the limit, and none that stays has an earlier timestamp than one that
-- goes. Each key of the storage stood once.
pub handle_platform_export-IsLimited :
    (n : NumberText) (max_storage : ℕ) (fails : Bool) (e : ExportEvent) (s : Storage) (id : String)
    → make_canonical_transfer_id n e.instance_id e.export_id ≡ some id
    → KeysOnce s.exports
    → IsLimited max_storage
        (set id (stored_of id e) s.exports)
        (handle_platform_export n (some (pos max_storage)) fails e s)
unfolding handle_platform_export store_if store_export
handle_platform_export-IsLimited n max_storage fails e s id made once =
    let m = set id (stored_of id e) s.exports in
    let r = over_limit (some (pos max_storage)) m in
    let left =
      over_limit-LeavesRest max_storage m (set-KeysOnce id (stored_of id e) s.exports once) in
    let same = exports-persist_unless r.1 fails (record s { exports = r.0 }) in
    rw made (
      omega (arith, left.0, ap length same),
      LeavesRest-LeavesNewest (length m - max_storage) m _
          (set-KeysOnce id (stored_of id e) s.exports once)
          (ap length same ∙ left.0, λ j. ap (get j) same ∙ left.1 j),
    )
