-- ===== src/JsMap.antt =====
-- The `Map` objects that the controller keeps: entries in insertion order. `set` on a present key
-- keeps its place, on a new key it appends; `delete` removes the entry.
use clusterio_surface_export.Prelude.{
  ◌≡◌, refl, sym, subst, Bool, true, length, Option, none, some, List, [], ◌∷◌, ◌++◌, map, arith,
  if◌then◌else◌, is_some, Keyed, ◌==◌, Bool-cases, inl, inr, All, or_option, ◌≤◌, ◌+◌,
}

abbrev pub JsMap {ℓ κ} : Type ℓ → Type κ → Type (ℓ ⊔ κ)
JsMap K V = List (K × V)

module _ {ℓ κ} {K : Type ℓ} {V : Type κ} ⦃e : Keyed K⦄ where
  abbrev pub get : K → JsMap K V → Option V
  get k [] = none
  get k ((j, v) ∷ m) = let rest = get k m in if j == k then some v else rest

  abbrev pub has : K → JsMap K V → Bool
  has k m = is_some (get k m)

  abbrev pub set : K → V → JsMap K V → JsMap K V
  set k v [] = (k, v) ∷ []
  set k v ((j, w) ∷ m) = let rest = set k v m in if j == k then (j, v) ∷ m else (j, w) ∷ rest

  abbrev pub delete : K → JsMap K V → JsMap K V
  delete k [] = []
  delete k ((j, w) ∷ m) = let rest = delete k m in if j == k then rest else (j, w) ∷ rest

  abbrev pub keys : JsMap K V → List K
  keys m = map (λ p. p.0) m

  abbrev pub values : JsMap K V → List V
  values m = map (λ p. p.1) m

  pub get-set :
      (k j : K) (v : V) (m : JsMap K V) → get j (set k v m) ≡ (if k == j then some v else get j m)
  get-set k j v [] = refl
  get-set k j v ((i, w) ∷ m) =
      ground (arith, e.same_iff k j, e.same_iff i k, e.same_iff i j, get-set k j v m)

  pub get-set_self : (k : K) (v : V) (m : JsMap K V) → get k (set k v m) ≡ some v
  get-set_self k v m = ground (arith, get-set k k v m, e.same_iff k k)

  pub get-delete :
      (k j : K) (m : JsMap K V) → get j (delete k m) ≡ (if k == j then none else get j m)
  get-delete k j [] = ground arith
  get-delete k j ((i, w) ∷ m) =
      ground (arith, e.same_iff k j, e.same_iff i k, e.same_iff i j, get-delete k j m)

  pub get-append_one :
      (k j : K) (v : V) (m : JsMap K V)
      → get j (m ++ (k, v) ∷ []) ≡ (if has j m then get j m else if k == j then some v else none)
  get-append_one k j v [] = refl
  get-append_one k j v ((i, w) ∷ m) = ground (arith, get-append_one k j v m)

  pub length-set : (k : K) (v : V) (m : JsMap K V) → has k m ≡ true → length (set k v m) ≡ length m
  length-set k v [] h = cc
  length-set k v ((i, w) ∷ m) h = ground (arith, length-set k v m)

  pub set-set : (k : K) (u v : V) (m : JsMap K V) → set k v (set k u m) ≡ set k v m
  set-set k u v [] = ground (arith, e.same_iff k k)
  set-set k u v ((i, w) ∷ m) = ground (arith, e.same_iff i k, set-set k u v m)

  pub has-set_self : (k : K) (v : V) (m : JsMap K V) → has k (set k v m) ≡ true
  has-set_self k v m = rw (get-set_self k v m)

  -- A `Map` has each key once.
  abbrev pub KeysOnce : JsMap K V → Type κ
  KeysOnce [] = Unit
  KeysOnce ((k, v) ∷ m) = (get k m ≡ none) × KeysOnce m

  pub set-KeysOnce : (k : K) (v : V) (m : JsMap K V) → KeysOnce m → KeysOnce (set k v m)
  set-KeysOnce k v [] h = (refl, tt)
  set-KeysOnce k v ((i, w) ∷ m) (fresh, h) = elim (Bool-cases (i == k)) [
    | inl same ↦ rw same (fresh, h)
    | inr other ↦
        rw other
          (ground (arith, get-set k i v m, e.same_iff k i, e.same_iff i k), set-KeysOnce k v m h)
  ]

  -- A new key goes to the end.
  pub set-new : (k : K) (v : V) (m : JsMap K V) → get k m ≡ none → set k v m ≡ m ++ (k, v) ∷ []
  set-new k v [] h = refl
  set-new k v ((i, w) ∷ m) h = ground (arith, set-new k v m)

  pub get-append : (k : K) (xs ys : JsMap K V) → get k (xs ++ ys) ≡ or_option (get k xs) (get k ys)
  get-append k [] ys = refl
  get-append k ((j, v) ∷ xs) ys = ground (arith, get-append k xs ys)

  pub once_before :
      (xs ys : JsMap K V) (k : K) (v : V) → KeysOnce (xs ++ (k, v) ∷ ys) → get k xs ≡ none
  once_before [] ys k v h = refl
  once_before ((j, w) ∷ xs) ys k v (fresh, h) = ground (
    arith,
    fresh,
    get-append j xs ((k, v) ∷ ys),
    e.same_iff j k,
    e.same_iff k j,
    once_before xs ys k v h,
  )

  pub delete-KeysOnce : (k : K) (m : JsMap K V) → KeysOnce m → KeysOnce (delete k m)
  delete-KeysOnce k [] h = tt
  delete-KeysOnce k ((i, w) ∷ m) (fresh, h) =
      ground (arith, fresh, get-delete k i m, delete-KeysOnce k m h)

  -- What holds of every key holds of every key after a change.
  pub All-set {μ} :
      (P : K → Type μ) (k : K) (v : V) (m : JsMap K V)
      → P k
      → All (λ p. P p.0) m
      → All (λ p. P p.0) (set k v m)
  All-set P k v [] pk h = (pk, tt)
  All-set P k v ((i, w) ∷ m) pk h = elim (Bool-cases (i == k)) [
    | inl same ↦ rw same h
    | inr other ↦ rw other (h.0, All-set P k v m pk h.1)
  ]

  pub All-delete {μ} :
      (P : K → Type μ) (k : K) (m : JsMap K V) → All (λ p. P p.0) m → All (λ p. P p.0) (delete k m)
  All-delete P k [] h = tt
  All-delete P k ((i, w) ∷ m) h = elim (Bool-cases (i == k)) [
    | inl same ↦ rw same (All-delete P k m h.1)
    | inr other ↦ rw other (h.0, All-delete P k m h.1)
  ]

  pub All-set_entry {μ} :
      (P : K × V → Type μ) (k : K) (v : V) (m : JsMap K V) → P (k, v) → All P m → All P (set k v m)
  All-set_entry P k v [] pk h = (pk, tt)
  All-set_entry P k v ((i, w) ∷ m) pk h = elim (Bool-cases (i == k)) [
    | inl same ↦ rw same (subst (λ n. P (n, v)) (sym ((e.same_iff i k).0 same)) pk, h.1)
    | inr other ↦ rw other (h.0, All-set_entry P k v m pk h.1)
  ]

  pub All-delete_entry {μ} :
      (P : K × V → Type μ) (k : K) (m : JsMap K V) → All P m → All P (delete k m)
  All-delete_entry P k [] h = tt
  All-delete_entry P k ((i, w) ∷ m) h = elim (Bool-cases (i == k)) [
    | inl same ↦ rw same (All-delete_entry P k m h.1)
    | inr other ↦ rw other (h.0, All-delete_entry P k m h.1)
  ]

  pub length-set_le : (k : K) (v : V) (m : JsMap K V) → length (set k v m) ≤ length m + 1
  length-set_le k v [] = omega arith
  length-set_le k v ((i, w) ∷ m) = ground (arith, length-set_le k v m)

  -- Every entry of a map is found in another one.
  abbrev pub IsFound : JsMap K V → JsMap K V → Type κ
  IsFound whole m = All (λ p. get p.0 whole ≡ some p.1) m

  IsFound-cons :
      (k : K) (v : V) (whole m : JsMap K V)
      → get k whole ≡ none
      → IsFound whole m
      → IsFound ((k, v) ∷ whole) m
  IsFound-cons k v whole [] fresh h = tt
  IsFound-cons k v whole ((j, w) ∷ m) fresh (here, h) =
      (ground (arith, fresh, here, e.same_iff k j), IsFound-cons k v whole m fresh h)

  pub IsFound-self : (m : JsMap K V) → KeysOnce m → IsFound m m
  IsFound-self [] once = tt
  IsFound-self ((k, v) ∷ m) (fresh, once) =
      (ground (arith, e.same_iff k k), IsFound-cons k v m m fresh (IsFound-self m once))

  -- What holds of every value holds of a value that is found.
  pub All-get {μ} :
      (P : V → Type μ) (k : K) (v : V) (m : JsMap K V) → All (λ p. P p.1) m → get k m ≡ some v → P v
  All-get P k v [] h found = cc
  All-get P k v ((j, w) ∷ m) (here, h) found = elim (Bool-cases (j == k)) [
    | inl same ↦ subst P (ground (arith, found, same)) here
    | inr other ↦ All-get P k v m h (ground (arith, found, other))
  ]
