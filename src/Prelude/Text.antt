-- ===== src/Prelude/Text.antt =====
-- `trim`, `startsWith` and the folding of letters, on texts.
use Prim.Native.Char.{Char, code}
use Prim.Native.String.{String}
use Prim.Native.Nat.{ℕ, ◌+◌, ◌-◌}
use mathlib.Core.List.{List, [], ◌∷◌}
use mathlib.Core.Option.{Option, none, some}
use mathlib.Core.Bool.{Bool, true, false, ◌&&◌, ◌||◌}
use clusterio_surface_export.Prelude.Tests.{leb, eqb, if◌then◌else◌}
use clusterio_surface_export.Prelude.Keys.{is_empty}

-- White space and line ends, as `trim` drops them.
abbrev is_space : ℕ → Bool
is_space c =
    (leb 9 c && leb c 13)
    || eqb c 32
    || eqb c 160
    || eqb c 5760
    || (leb 8192 c && leb c 8202)
    || eqb c 8232
    || eqb c 8233
    || eqb c 8239
    || eqb c 8287
    || eqb c 12288
    || eqb c 65279

abbrev trim_start : String → String
trim_start String.[] = ""
trim_start (String.◌∷◌ c s) =
    let rest = trim_start s in if is_space (code c) then rest else String.◌∷◌ c s

abbrev trim_end : String → String
trim_end String.[] = ""
trim_end (String.◌∷◌ c s) =
    let rest = trim_end s in if is_empty rest && is_space (code c) then "" else String.◌∷◌ c rest

unfoldable pub trim : String → String
trim s = trim_end (trim_start s)

-- `toLowerCase` and `toUpperCase` on code points, as far as ASCII letters come of them: no other
-- letter becomes one of a-z but the Kelvin sign, and of A-Z the dotless i and the long s.
abbrev pub lower : ℕ → ℕ
lower c = if leb b'A' c && leb c b'Z' then c + 32 else if eqb c 8490 then b'k' else c

abbrev pub upper : ℕ → ℕ
upper c =
    if leb b'a' c && leb c b'z'
    then c - 32
    else if eqb c 305
    then b'I'
    else if eqb c 383
    then b'S'
    else c

-- `text.startsWith(prefix)`, where each code point of the text is folded first.
abbrev pub starts_with : (ℕ → ℕ) → String → String → Bool
starts_with fold String.[] text = true
starts_with fold (String.◌∷◌ p ps) String.[] = false
starts_with fold (String.◌∷◌ p ps) (String.◌∷◌ c cs) =
    eqb (code p) (fold (code c)) && starts_with fold ps cs

-- `text === other`, where each code point of the text is folded first.
abbrev pub is_text : (ℕ → ℕ) → String → String → Bool
is_text fold String.[] String.[] = true
is_text fold String.[] (String.◌∷◌ c cs) = false
is_text fold (String.◌∷◌ p ps) String.[] = false
is_text fold (String.◌∷◌ p ps) (String.◌∷◌ c cs) =
    eqb (code p) (fold (code c)) && is_text fold ps cs

abbrev pub unfolded : ℕ → ℕ
unfolded c = c

-- The lines of `text.split(/\r?\n/)`, but for a carriage return at a line's end, which `trim` drops.
abbrev extend : Char → List String → List String
extend c [] = String.◌∷◌ c "" ∷ []
extend c (l ∷ ls) = String.◌∷◌ c l ∷ ls

abbrev pub split_lines : String → List String
split_lines String.[] = "" ∷ []
split_lines (String.◌∷◌ c s) =
    let rest = split_lines s in if eqb (code c) 10 then "" ∷ rest else extend c rest

abbrev strip_prefix : String → String → Option String
strip_prefix String.[] text = some text
strip_prefix (String.◌∷◌ p ps) String.[] = none
strip_prefix (String.◌∷◌ p ps) (String.◌∷◌ c cs) =
    let rest = strip_prefix ps cs in if eqb (code p) (code c) then rest else none

abbrev rest_or : Option String → String → String
rest_or none text = text
rest_or (some rest) text = rest

abbrev stripped_or : Option String → Char → String → String
stripped_or none c later = String.◌∷◌ c later
stripped_or (some rest) c later = rest

-- `text.replace(part, "")`: the first occurrence goes.
unfoldable pub remove_first : String → String → String
remove_first part String.[] = rest_or (strip_prefix part "") ""
remove_first part (String.◌∷◌ c s) =
    let later = remove_first part s in stripped_or (strip_prefix part (String.◌∷◌ c s)) c later
