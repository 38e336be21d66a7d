-- ===== src/CanonicalId.antt =====
-- Canonical transfer ids, `<source instance>:<source job>`: shared/utils.ts,
-- makeCanonicalTransferId and parseCanonicalTransferId. How JavaScript writes and reads a number is
-- a parameter: `Number` takes more texts than `String` makes.
pub mod RoundTrip
pub mod Tests
use Prim.Native.Char.{Char, code}
use Prim.Native.String.{String}
use clusterio_surface_export.Prelude.{
  ℕ, Bool, true, false, Option, none, some, eqb, ltb, is_empty, concat, if◌then◌else◌,
}
use clusterio_surface_export.Prelude.Int.{ℤ, pos, negsuc}

-- `String(n)` of a natural number, and `Number(text)` where it is an integer.
pub record NumberText : Type 0 where
  pub write : ℕ → String
  pub read : String → Option ℤ

-- `text.slice(0, i)` and `text.slice(i + 1)` at `i = text.indexOf(":")`
abbrev cons_before : Char → Option (String × String) → Option (String × String)
cons_before c none = none
cons_before c (some (p, s)) = some (String.◌∷◌ c p, s)

unfoldable pub split_at_colon : String → Option (String × String)
split_at_colon String.[] = none
split_at_colon (String.◌∷◌ c s) =
    let rest = cons_before c (split_at_colon s) in if eqb (code c) b':' then some ("", s) else rest

-- `none` is the error that the code throws.
unfoldable pub make_canonical_transfer_id : NumberText → ℤ → String → Option String
make_canonical_transfer_id n (pos i) job =
    if eqb i 0
    then none
    else if is_empty job
    then none
    else some (concat (n.write i) (concat ":" job))
make_canonical_transfer_id n (negsuc i) job = none

positive_source : Option ℤ → String → Option (ℕ × String)
positive_source none job = none
positive_source (some (negsuc i)) job = none
positive_source (some (pos i)) job =
    if eqb i 0 then none else if is_empty job then none else some (i, job)

parse_split : NumberText → Option (String × String) → Option (ℕ × String)
unfolding positive_source
parse_split n none = none
parse_split n (some (p, job)) = if is_empty p then none else positive_source (n.read p) job

unfoldable pub parse_canonical_transfer_id : NumberText → String → Option (ℕ × String)
unfolding parse_split split_at_colon
parse_canonical_transfer_id n id = parse_split n (split_at_colon id)
