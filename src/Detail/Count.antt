-- ===== src/Detail/Count.antt =====
-- How many entries retention leaves: lib/detail-retention.ts.
use clusterio_surface_export.Prelude.{
  subst, ℕ, ◌+◌, ◌-◌, ◌≡◌, ◌≤◌, ◌<◌, inl, inr, refl, sym, ap, ◌∙◌, min, Bool, true, not, List, [],
  ◌∷◌, ◌++◌, eqb, leb, if◌then◌else◌, length, filter, All, All-append, arith, Bool-cases, string_eq,
}
use clusterio_surface_export.Prelude.Sort.{sort_by, All-sort_by, All-unsorted}
use clusterio_surface_export.Detail.{
  DetailEntry, is_failure, preferred, claim, kept, success_floor_for, select_retained_detail,
}
use clusterio_surface_export.Detail.Claim.{
  count_of, EachOnce, Drawn, length-filter-Drawn, claim-Drawn, claim-sum, claim-length, claim-done,
}

All-filter :
    (P : DetailEntry → Type 0) (f : DetailEntry → Bool) (xs : List DetailEntry)
    → All P xs
    → All P (filter f xs)
All-filter P f [] h = tt
All-filter P f (x ∷ xs) h = elim (Bool-cases (f x)) [
  | inl e ↦ rw e (h.0, All-filter P f xs h.1)
  | inr e ↦ rw e (All-filter P f xs h.1)
]

All-split :
    (P : DetailEntry → Type 0) (xs ys : List DetailEntry) → All P (xs ++ ys) → All P xs × All P ys
All-split P [] ys h = (tt, h)
All-split P (x ∷ xs) ys h = let r = All-split P xs ys h.1 in ((h.0, r.0), r.1)

-- A list's failures and its other entries are all of it.
All-parts :
    (P : DetailEntry → Type 0) (f : DetailEntry → Bool) (xs : List DetailEntry)
    → All P (filter f xs)
    → All P (filter (λ e. not (f e)) xs)
    → All P xs
All-parts P f [] h g = tt
All-parts P f (x ∷ xs) h g =
    let pass = filter f xs in
    let rest = filter (λ e. not (f e)) xs in
    elim (Bool-cases (f x)) [
      | inl e ↦
          let h' = subst (λ b. All P (if b then x ∷ pass else pass)) e h in
          let g' = subst (λ b. All P (if not b then x ∷ rest else rest)) e g in
          (h'.0, All-parts P f xs h'.1 g')
      | inr e ↦
          let h' = subst (λ b. All P (if b then x ∷ pass else pass)) e h in
          let g' = subst (λ b. All P (if not b then x ∷ rest else rest)) e g in
          (g'.0, All-parts P f xs h' g'.1)
    ]

length-filter-All :
    (f : DetailEntry → Bool) (xs : List DetailEntry)
    → All (λ e. f e ≡ true) xs
    → length (filter f xs) ≡ length xs
length-filter-All f [] h = refl
length-filter-All f (x ∷ xs) h = ground (arith, length-filter-All f xs h.1)

-- What the three claims start from.
module _ (is_pinned : DetailEntry → Bool) (cap reserved : ℕ) (entries : List DetailEntry) where
  failures : List DetailEntry
  failures = sort_by (preferred is_pinned) (filter is_failure entries)

  successes : List DetailEntry
  successes = sort_by (preferred is_pinned) (filter (λ e. not (is_failure e)) entries)

  everything : List DetailEntry
  unfolding failures successes
  everything = sort_by (preferred is_pinned) (failures ++ successes)

  once_failures : EachOnce entries → All (λ e. count_of e entries ≡ 1) failures
  unfolding failures
  once_failures h = All-sort_by (preferred is_pinned) _ _ (All-filter _ is_failure entries h)

  once_successes : EachOnce entries → All (λ e. count_of e entries ≡ 1) successes
  unfolding successes
  once_successes h =
      All-sort_by (preferred is_pinned) _ _ (All-filter _ (λ e. not (is_failure e)) entries h)

  once_everything : EachOnce entries → All (λ e. count_of e entries ≡ 1) everything
  unfolding everything
  once_everything h =
      All-sort_by (preferred is_pinned) _ _
        (All-append _ failures successes (once_failures h) (once_successes h))

  All-everything : (P : DetailEntry → Type 0) → All P everything → All P entries
  unfolding everything
  All-everything P h =
      let r = All-split P failures successes (All-unsorted (preferred is_pinned) P _ h) in
      All-parts P is_failure entries (All-unsorted (preferred is_pinned) P _ r.0)
        (All-unsorted (preferred is_pinned) P _ r.1)

  -- The entries kept before the last claim.
  before_last : List DetailEntry
  unfolding claim failures successes
  before_last =
      let k =
        (claim cap failures (cap - success_floor_for cap (length successes) reserved, [])).1 in
      (claim cap successes (cap - length k, k)).1

  before_last-Drawn : EachOnce entries → Drawn entries before_last
  unfolding before_last
  before_last-Drawn h =
      claim-Drawn cap entries successes _ (once_successes h)
        (claim-Drawn cap entries failures _ (once_failures h) tt)

  before_last-length : length before_last ≤ cap
  unfolding before_last
  before_last-length = claim-length cap successes _ (claim-length cap failures _ (omega arith))

  kept_last :
      kept is_pinned cap reserved entries
      ≡ (claim cap everything (cap - length before_last, before_last)).1
  unfolding kept everything before_last failures successes
  kept_last = refl

  last_claim-full :
      EachOnce entries
      → cap < length entries
      → length (claim cap everything (cap - length before_last, before_last)).1 ≡ cap
        × Drawn entries (claim cap everything (cap - length before_last, before_last)).1
  last_claim-full h many =
      let s : ℕ × List DetailEntry = (cap - length before_last, before_last) in
      let start : length before_last + (cap - length before_last) ≡ cap =
        omega (arith, before_last-length) in
      let total = claim-sum cap everything s start in
      let drawn = claim-Drawn cap entries everything s (once_everything h) (before_last-Drawn h) in
      (
        elim (claim-done cap everything s start) [
          | inr z ↦ omega arith
          | inl all ↦ omega (
            arith,
            length-filter-Drawn (claim cap everything s).1 entries drawn,
            length-filter-All _ entries (All-everything _ all),
          )
        ],
        drawn,
      )

-- Where each object stands once in the list, retention leaves as many entries as the cap allows:
-- all of them when they are no more than the cap or there is none, and else exactly the cap.
pub length-select_retained_detail :
    (is_pinned : DetailEntry → Bool) (cap reserved : ℕ) (entries : List DetailEntry)
    → EachOnce entries
    → length (select_retained_detail is_pinned cap reserved entries)
      ≡ (if eqb cap 0 then length entries else min cap (length entries))
unfolding select_retained_detail
length-select_retained_detail is_pinned cap reserved entries once =
    elim (Bool-cases (leb (length entries) cap)) [
      | inl few ↦ ground arith
      | inr many ↦
          let keep = kept is_pinned cap reserved entries in
          let full = last_claim-full is_pinned cap reserved entries once (ground arith) in
          let path = kept_last is_pinned cap reserved entries in
          let size : length keep ≡ cap = ap length path ∙ full.0 in
          let drawn = subst (Drawn entries) (sym path) full.1 in
          ground (arith, length-filter-Drawn keep entries drawn)
    ]
