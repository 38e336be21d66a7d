-- ===== src/Payload/Chunks.antt =====
-- Chunks of a text: helpers.ts, chunkify.
use clusterio_surface_export.Prelude.{
  ℕ, zero, suc, ◌+◌, ◌≤◌, ◌<◌, ◌≡◌, refl, sym, ap, ◌∙◌, List, [], ◌∷◌, ◌++◌, length, take, drop,
  ltb, arith, Bool-cases, inl, inr, take-append-drop, length-take, length-drop,
}
use clusterio_surface_export.Payload.{Units, chunk_from, chunkify}

abbrev pub join_units : List Units → Units
join_units [] = []
join_units (c ∷ cs) = c ++ join_units cs

-- All chunks but the last are of the size, and the last is not empty and no longer.
abbrev pub IsChunked : ℕ → List Units → Type 0
IsChunked size [] = Unit
IsChunked size (c ∷ []) = (0 < length c) × (length c ≤ size)
IsChunked size (c ∷ d ∷ cs) = (length c ≡ size) × IsChunked size (d ∷ cs)

drop-nil : (k : ℕ) → drop {A = ℕ} k [] ≡ []
drop-nil zero = refl
drop-nil (suc k) = refl

drop-drop : (n m k : ℕ) (text : Units) → k ≡ n + m → drop m (drop n text) ≡ drop k text
drop-drop zero m k text e = ap (λ j. drop j text) (omega (arith, e))
drop-drop (suc n) m k [] e = drop-nil m ∙ sym (drop-nil k)
drop-drop (suc n) m zero (u ∷ text) e = ground (arith, e)
drop-drop (suc n) m (suc k) (u ∷ text) e = drop-drop n m k text (omega (arith, e))

drop-end : (i : ℕ) (text : Units) → length text ≤ i → drop i text ≡ []
drop-end zero [] le = refl
drop-end zero (u ∷ text) le = ground (arith, le)
drop-end (suc i) [] le = refl
drop-end (suc i) (u ∷ text) le = drop-end i text (omega (arith, le))

join-chunk_from :
    (fuel size i : ℕ) (text : Units)
    → 0 < size
    → length text ≤ i + fuel
    → join_units (chunk_from fuel size i text) ≡ drop i text
join-chunk_from zero size i text pos enough = sym (drop-end i text (omega (arith, enough)))
join-chunk_from (suc fuel) size i text pos enough = elim (Bool-cases (ltb i (length text))) [
  | inr past ↦ rw past (sym (drop-end i text (ground arith)))
  | inl more ↦
      let rest = join-chunk_from fuel size (i + size) text pos (omega (arith, enough, pos)) in
      rw more (
        ap (λ l. take size (drop i text) ++ l) (rest ∙ sym (drop-drop i size (i + size) text refl))
        ∙ take-append-drop size (drop i text))
]

chunk_from-more :
    (fuel size i : ℕ) (text d : Units) (cs : List Units)
    → chunk_from fuel size i text ≡ d ∷ cs
    → i < length text
chunk_from-more zero size i text d cs e = ground (arith, e)
chunk_from-more (suc fuel) size i text d cs e = ground (arith, e)

IsChunked-cons :
    (size : ℕ) (c : Units) (rest : List Units)
    → 0 < length c
    → length c ≤ size
    → ((d : Units) (cs : List Units) → rest ≡ d ∷ cs → length c ≡ size)
    → IsChunked size rest
    → IsChunked size (c ∷ rest)
IsChunked-cons size c [] given fits full h = (given, fits)
IsChunked-cons size c (d ∷ cs) given fits full h = (full d cs refl, h)

chunk_from-IsChunked :
    (fuel size i : ℕ) (text : Units) → 0 < size → IsChunked size (chunk_from fuel size i text)
chunk_from-IsChunked zero size i text pos = tt
chunk_from-IsChunked (suc fuel) size i text pos = elim (Bool-cases (ltb i (length text))) [
  | inr past ↦ rw past tt
  | inl more ↦
      let c = take size (drop i text) in
      let measured = length-take size (drop i text) in
      let left = length-drop i text in
      rw more (
        IsChunked-cons size c (chunk_from fuel size (i + size) text)
          (ground (arith, measured, left, pos, more)) (omega (arith, measured))
          (λ d. λ cs.
            λ e. omega (arith, measured, left, chunk_from-more fuel size (i + size) text d cs e))
          (chunk_from-IsChunked fuel size (i + size) text pos))
]

-- With a positive size the chunks put together are the text; all but the last are of the size, and
-- the last is not empty and no longer.
pub join-chunkify :
    (size : ℕ) (text : Units)
    → 0 < size
    → (join_units (chunkify size text) ≡ text) × IsChunked size (chunkify size text)
unfolding chunkify
join-chunkify size text pos = (
  join-chunk_from (length text) size 0 text pos (omega arith),
  chunk_from-IsChunked (length text) size 0 text pos,
)
