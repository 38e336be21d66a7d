-- ===== src/Prelude/Keys.antt =====
-- Keys that the program compares by `===`: numbers and texts, through one interface.
use Prim.Native.Nat.{ℕ}
use Prim.Native.String.{String, ◌++◌ as append_text}
use text.Mathlib.Text.{◌==◌ as str_eq}
use text.Mathlib.TextEquality.{eq_iff}
use mathlib.Core.Path.{◌≡◌}
use mathlib.Core.Logic.{◌↔◌}
use mathlib.Core.Bool.{Bool, true, false}
use mathlib.Core.Option.{Option, none, some}
use clusterio_surface_export.Prelude.Tests.{eqb, eqb_iff, if◌then◌else◌}

-- How the keys of one type are compared, and that the test is equality.
pub record Keyed {ℓ} (K : Type ℓ) : Type ℓ where
  pub same : K → K → Bool
  pub same_iff : (j k : K) → (same j k ≡ true) ↔ (j ≡ k)

instance abbrev pub string_eq : Keyed String
string_eq = record { same_iff = eq_iff; same = str_eq }

instance abbrev pub nat_eq : Keyed ℕ
nat_eq = record { same_iff = eqb_iff; same = eqb }

abbrev pub ◌==◌ {ℓ} : {K : Type ℓ} ⦃c : Keyed K⦄ → K → K → Bool
◌==◌ ⦃c⦄ j k = c.same j k

infix 50 ◌==◌
-- A text is falsy when it is empty.
abbrev pub is_empty : String → Bool
is_empty String.[] = true
is_empty (String.◌∷◌ c s) = false

-- `a || b` on texts
abbrev pub or_text : String → String → String
or_text a b = if is_empty a then b else a

-- `a || b` where `a` may be missing
abbrev pub given_or : Option String → String → String
given_or none d = d
given_or (some a) d = or_text a d

-- `a || null`
abbrev pub or_null : Option String → Option String
or_null none = none
or_null (some a) = if is_empty a then none else some a

abbrev pub concat : String → String → String
concat = append_text
