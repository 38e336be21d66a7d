-- ===== src/Log/Persist/Bounded.antt =====
-- The size of the detail store: lib/transaction-logger.ts.
use clusterio_surface_export.Prelude.{
  ℕ, String, ◌≡◌, ◌≤◌, refl, min, max, Bool, Option, none, some, List, [], ◌∷◌, ◌==◌, string_eq,
  is_some, any, filter, length, All, arith, Bool-cases, inl, inr, eqb, leb,
}
use clusterio_surface_export.JsMap.{JsMap, get}
use clusterio_surface_export.Ledger.{AuditRow}
use clusterio_surface_export.Detail.{DetailEntry, select_retained_detail, apply_detail_retention}
use clusterio_surface_export.Detail.Claim.{count_of, EachOnce}
use clusterio_surface_export.Detail.Count.{length-select_retained_detail}
use clusterio_surface_export.Log.Persist.{DetailStore, upsert, persist_transaction_log}

-- No two entries of the list are one object.
abbrev pub Distinct : List DetailEntry → Type 0
Distinct [] = Unit {0}
Distinct (e ∷ es) = (count_of e es ≡ 0) × Distinct es

All-shift :
    (x : DetailEntry) (xs es : List DetailEntry)
    → count_of x es ≡ 0
    → All (λ e. count_of e xs ≡ 1) es
    → All (λ e. count_of e (x ∷ xs) ≡ 1) es
All-shift x xs [] h a = tt
All-shift x xs (e ∷ es) h a = (ground (arith, a.0), All-shift x xs es (ground (arith, h)) a.1)

-- Distinct entries stand once each.
pub Distinct-EachOnce : (xs : List DetailEntry) → Distinct xs → EachOnce xs
Distinct-EachOnce [] d = tt
Distinct-EachOnce (x ∷ xs) d = (ground arith, All-shift x xs xs d.0 (Distinct-EachOnce xs d.1))

count_of-upsert :
    (entry x : DetailEntry) (xs : List DetailEntry)
    → count_of x (upsert entry xs) ≤ count_of x (entry ∷ xs)
unfolding upsert
count_of-upsert entry x [] = omega arith
count_of-upsert entry x (e ∷ es) = ground (arith, count_of-upsert entry x es)

upsert-Distinct :
    (entry : DetailEntry) (xs : List DetailEntry)
    → count_of entry xs ≡ 0
    → Distinct xs
    → Distinct (upsert entry xs)
unfolding upsert
upsert-Distinct entry [] fresh d = (refl, tt)
upsert-Distinct entry (e ∷ es) fresh d = elim (Bool-cases (e.transfer_id == entry.transfer_id)) [
  | inl same ↦ rw same (ground arith, d.1)
  | inr other ↦
      rw other
        (ground (arith, count_of-upsert entry e es), upsert-Distinct entry es (ground arith) d.1)
]

count_of-filter :
    (f : DetailEntry → Bool) (x : DetailEntry) (xs : List DetailEntry)
    → count_of x (filter f xs) ≤ count_of x xs
count_of-filter f x [] = omega arith
count_of-filter f x (y ∷ ys) = ground (arith, count_of-filter f x ys)

filter-Distinct :
    (f : DetailEntry → Bool) (xs : List DetailEntry) → Distinct xs → Distinct (filter f xs)
filter-Distinct f [] d = tt
filter-Distinct f (x ∷ xs) d = elim (Bool-cases (f x)) [
  | inl e ↦ rw e (omega (arith, count_of-filter f x xs, d.0), filter-Distinct f xs d.1)
  | inr e ↦ rw e (filter-Distinct f xs d.1)
]

select-Distinct :
    (is_pinned : DetailEntry → Bool) (cap reserved : ℕ) (xs : List DetailEntry)
    → Distinct xs
    → Distinct (select_retained_detail is_pinned cap reserved xs)
unfolding select_retained_detail
select-Distinct is_pinned cap reserved xs d = elim (Bool-cases (eqb cap 0)) [
  | inl e ↦ rw e d
  | inr e ↦ rw e (elim (Bool-cases (leb (length xs) cap)) [
    | inl few ↦ rw few d
    | inr many ↦ rw many (filter-Distinct _ xs d)
  ])
]

abbrev pub AtMost : Option ℕ → List DetailEntry → Type 0
AtMost none xs = Unit {0}
AtMost (some n) xs = length xs ≤ min 5000 (max 10 n)

abbrev pub IsBounded : Option ℕ → List DetailEntry → Type 0
IsBounded configured xs = Distinct xs × AtMost configured xs

apply-IsBounded :
    (is_pinned : DetailEntry → Bool) (configured : Option ℕ) (xs : List DetailEntry)
    → Distinct xs
    → IsBounded configured (apply_detail_retention is_pinned configured xs)
unfolding apply_detail_retention
apply-IsBounded is_pinned none xs d = (select-Distinct _ 0 _ xs d, tt)
apply-IsBounded is_pinned (some n) xs d =
    let cap = min 5000 (max 10 n) in
    (
      select-Distinct is_pinned cap 25 xs d,
      ground (arith, length-select_retained_detail is_pinned cap 25 xs (Distinct-EachOnce xs d)),
    )

-- Persisting a log with a new entry keeps the entries of the detail store distinct objects, and no more
-- than the configured number, which counts as at least 10 and at most 5000.
pub persist_transaction_log-IsBounded :
    (is_pinned : DetailEntry → Bool) (configured : Option ℕ) (writes : Bool) (active : List String)
    (index : JsMap String AuditRow) (entry : DetailEntry) (s : DetailStore)
    → count_of entry s.persisted ≡ 0
    → IsBounded configured s.persisted
    → IsBounded configured
        (persist_transaction_log is_pinned configured writes active index entry s).persisted
unfolding persist_transaction_log
persist_transaction_log-IsBounded is_pinned configured writes active index entry s fresh b =
    let kept =
      apply-IsBounded is_pinned configured (upsert entry s.persisted)
        (upsert-Distinct entry s.persisted fresh b.0) in
    elim (Bool-cases (is_some (get entry.transfer_id s.logs))) [
      | inr e ↦ rw e b
      | inl e ↦ rw e (elim (Bool-cases (any (λ a. a == entry.transfer_id) active)) [
        | inr f ↦ rw f b
        | inl f ↦
            rw f (elim (Bool-cases (is_some s.load_error)) [ inl g ↦ rw g b | inr g ↦ rw g kept ])
      ])
    ]
