-- ===== src/CanonicalId/RoundTrip.antt =====
-- Reading back a canonical transfer id.
use Prim.Native.Char.{code}
use Prim.Native.String.{String}
use text.Mathlib.TextLemmas.{nil-append, cons-append}
use clusterio_surface_export.Prelude.{ℕ, ◌≡◌, false, some, eqb, is_empty, concat, arith}
use clusterio_surface_export.Prelude.Int.{pos}
use clusterio_surface_export.CanonicalId.{
  NumberText, split_at_colon, make_canonical_transfer_id, parse_canonical_transfer_id,
}

-- No character of the text is a colon.
abbrev pub ColonFree : String → Type 0
ColonFree String.[] = Unit {0}
ColonFree (String.◌∷◌ c s) = (eqb (code c) b':' ≡ false) × ColonFree s

-- What the documentation says of a number's text.
pub record ReadsBack (n : NumberText) : Type 0 where
  pub read_write : (i : ℕ) → n.read (n.write i) ≡ some (pos i)
  pub write_colon_free : (i : ℕ) → ColonFree (n.write i)
  pub write_given : (i : ℕ) → is_empty (n.write i) ≡ false

pub split_at_colon-concat :
    (p job : String) → ColonFree p → split_at_colon (concat p (concat ":" job)) ≡ some (p, job)
unfolding split_at_colon
split_at_colon-concat String.[] job h = rw (nil-append, cons-append, nil-append)
split_at_colon-concat (String.◌∷◌ c s) job h =
    rw cons-append (simp (h.0, split_at_colon-concat s job h.1))

parse-concat :
    (n : NumberText) (i : ℕ) (job : String)
    → ReadsBack n
    → eqb i 0 ≡ false
    → is_empty job ≡ false
    → parse_canonical_transfer_id n (concat (n.write i) (concat ":" job)) ≡ some (i, job)
unfolding parse_canonical_transfer_id
parse-concat n i job r i_pos given =
    rw
      (
        split_at_colon-concat (n.write i) job (r.write_colon_free i),
        r.write_given i,
        r.read_write i,
      )
      (simp (i_pos, given))

-- An id that is made is read back as its two parts, under what is documented of a number's text.
pub parse-make_canonical_transfer_id :
    (n : NumberText) (i : ℕ) (job id : String)
    → ReadsBack n
    → make_canonical_transfer_id n (pos i) job ≡ some id
    → parse_canonical_transfer_id n id ≡ some (i, job)
unfolding make_canonical_transfer_id
parse-make_canonical_transfer_id n i job id r made = ground (arith, parse-concat n i job r)
