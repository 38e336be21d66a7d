-- ===== src/Detail/Claim.antt =====
-- What one claim of retention keeps: lib/detail-retention.ts.
use clusterio_surface_export.Prelude.{
  ℕ, ◌+◌, ◌≡◌, ◌≤◌, ◌⊎◌, inl, inr, refl, true, false, ◌||◌, List, [], ◌∷◌, eqb, leb, length, filter,
  All, arith, Bool-cases, string_eq,
}
use clusterio_surface_export.Detail.{DetailEntry, same_entry, held, claim_one, claim}

abbrev pub count_of : DetailEntry → List DetailEntry → ℕ
count_of e xs = length (filter (same_entry e) xs)

-- Each object stands once in the list.
abbrev pub EachOnce : List DetailEntry → Type 0
EachOnce xs = All (λ e. count_of e xs ≡ 1) xs

-- What is kept has no object twice, and each of it stands once in `xs`.
abbrev pub Drawn : List DetailEntry → List DetailEntry → Type 0
Drawn xs [] = Unit {0}
Drawn xs (k ∷ ks) = (held ks k ≡ false) × (count_of k xs ≡ 1) × Drawn xs ks

held-same :
    (ks : List DetailEntry) (a b : DetailEntry) → same_entry a b ≡ true → held ks a ≡ held ks b
held-same [] a b h = refl
held-same (k ∷ ks) a b h = ground (arith, held-same ks a b h)

length-filter-held :
    (k : DetailEntry) (ks xs : List DetailEntry)
    → held ks k ≡ false
    → length (filter (held (k ∷ ks)) xs) ≡ count_of k xs + length (filter (held ks) xs)
length-filter-held k ks [] h = refl
length-filter-held k ks (x ∷ xs) h = ground (arith, length-filter-held k ks xs h, held-same ks k x)

filter_none : (xs : List DetailEntry) → length (filter (held []) xs) ≡ 0
filter_none [] = refl
filter_none (x ∷ xs) = filter_none xs

pub length-filter-Drawn :
    (ks xs : List DetailEntry) → Drawn xs ks → length (filter (held ks) xs) ≡ length ks
length-filter-Drawn [] xs d = filter_none xs
length-filter-Drawn (k ∷ ks) xs (fresh, once, d) =
    omega (arith, length-filter-held k ks xs fresh, length-filter-Drawn ks xs d)

pub claim-Drawn :
    (cap : ℕ) (xs es : List DetailEntry) (s : ℕ × List DetailEntry)
    → All (λ e. count_of e xs ≡ 1) es
    → Drawn xs s.1
    → Drawn xs (claim cap es s).1
unfolding claim
claim-Drawn cap xs [] s h d = d
claim-Drawn cap xs (e ∷ es) (slots, keep) h d =
    let stop = leb cap (length keep) || (eqb slots 0 || held keep e) in
    claim-Drawn cap xs es (claim_one cap e (slots, keep)) h.1 (elim (Bool-cases stop) [
      | inl b ↦ rw b d
      | inr b ↦ let fresh : held keep e ≡ false = ground arith in rw b (fresh, h.0, d)
    ])

-- The kept and the slots left are the cap, when they were before.
pub claim-sum :
    (cap : ℕ) (es : List DetailEntry) (s : ℕ × List DetailEntry)
    → length s.1 + s.0 ≡ cap
    → length (claim cap es s).1 + (claim cap es s).0 ≡ cap
unfolding claim
claim-sum cap [] s h = h
claim-sum cap (e ∷ es) (slots, keep) h = claim-sum cap es _ (ground arith)

pub claim-length :
    (cap : ℕ) (es : List DetailEntry) (s : ℕ × List DetailEntry)
    → length s.1 ≤ cap
    → length (claim cap es s).1 ≤ cap
unfolding claim
claim-length cap [] s h = h
claim-length cap (e ∷ es) (slots, keep) h = claim-length cap es _ (ground arith)

claim-held :
    (cap : ℕ) (es : List DetailEntry) (s : ℕ × List DetailEntry) (x : DetailEntry)
    → held s.1 x ≡ true
    → held (claim cap es s).1 x ≡ true
unfolding claim
claim-held cap [] s x h = h
claim-held cap (e ∷ es) (slots, keep) x h = claim-held cap es _ x (ground arith)

claim-no_slots :
    (cap : ℕ) (es : List DetailEntry) (s : ℕ × List DetailEntry) → s.0 ≡ 0 → (claim cap es s).0 ≡ 0
unfolding claim
claim-no_slots cap [] s h = h
claim-no_slots cap (e ∷ es) (slots, keep) h = claim-no_slots cap es _ (ground arith)

claim_one-done :
    (cap : ℕ) (e : DetailEntry) (slots : ℕ) (keep : List DetailEntry)
    → length keep + slots ≡ cap
    → (held (claim_one cap e (slots, keep)).1 e ≡ true) ⊎ ((claim_one cap e (slots, keep)).0 ≡ 0)
claim_one-done cap e slots keep h = ground arith

-- A claim ends with no slot left, or holds all its candidates.
pub claim-done :
    (cap : ℕ) (es : List DetailEntry) (s : ℕ × List DetailEntry)
    → length s.1 + s.0 ≡ cap
    → All (λ e. held (claim cap es s).1 e ≡ true) es ⊎ ((claim cap es s).0 ≡ 0)
unfolding claim
claim-done cap [] s h = inl tt
claim-done cap (e ∷ es) (slots, keep) h =
    let s' = claim_one cap e (slots, keep) in
    elim (claim-done cap es s' (ground arith)) [
      | inr z ↦ inr z
      | inl all ↦ elim (claim_one-done cap e slots keep h) [
        | inl now ↦ inl (claim-held cap es s' e now, all)
        | inr z ↦ inr (claim-no_slots cap es s' z)
      ]
    ]
