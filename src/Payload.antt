-- ===== src/Payload.antt =====
-- Payloads sent to a game instance: helpers.ts (toAsciiJson, simpleChecksum, bracketWrap, chunkify)
-- and lib/lua-interface.ts (configureGateways). A text is the list of its UTF-16 code units, as
-- `length` and `slice` count them.
pub mod Chunks
pub mod Session
pub mod Commit
pub mod Import
mod Tests
use clusterio_surface_export.Prelude.{
  ℕ, zero, suc, ◌+◌, ◌*◌, ◌/◌, ◌%◌, Bool, true, false, not, ◌&&◌, ◌||◌, Option, none, some, List,
  [], ◌∷◌, ◌++◌, length, take, drop, ltb, leb, eqb, if◌then◌else◌,
}

abbrev pub Units : Type 0
Units = List ℕ

-- A hexadecimal digit of `toString(16)`.
abbrev hex_digit : ℕ → ℕ
hex_digit d = if ltb d 10 then 48 + d else 87 + d

-- `\uXXXX` for a code unit of 127 or more: toAsciiJson
abbrev pub ascii_unit : ℕ → Units
ascii_unit u =
    if ltb u 127
    then u ∷ []
    else 92
      ∷ 117
      ∷ hex_digit (u / 4096 % 16)
      ∷ hex_digit (u / 256 % 16)
      ∷ hex_digit (u / 16 % 16)
      ∷ hex_digit (u % 16)
      ∷ []

abbrev pub to_ascii_json : Units → Units
to_ascii_json [] = []
to_ascii_json (u ∷ us) = ascii_unit u ++ to_ascii_json us

abbrev hash_from : ℕ → Units → ℕ
hash_from hash [] = hash
hash_from hash (c ∷ cs) = hash_from ((hash * 31 + c) % 4294967296) cs

-- The number that simpleChecksum writes in hexadecimal.
abbrev pub simple_checksum : Units → ℕ
simple_checksum ascii = hash_from 0 ascii

abbrev is_prefix : Units → Units → Bool
is_prefix [] text = true
is_prefix (p ∷ ps) [] = false
is_prefix (p ∷ ps) (t ∷ ts) = eqb p t && is_prefix ps ts

-- `text.includes(part)`
abbrev pub has_part : Units → Units → Bool
has_part part [] = is_prefix part []
has_part part (t ∷ ts) = is_prefix part (t ∷ ts) || has_part part ts

abbrev equals_signs : ℕ → Units
equals_signs zero = []
equals_signs (suc n) = 61 ∷ equals_signs n

-- The bracket that closes a text of the level, `]==]`.
abbrev pub closing : ℕ → Units
closing level = 93 ∷ (equals_signs level ++ 93 ∷ [])

-- A text in long brackets: its level and itself.
pub record Wrapped : Type 0 where
  pub level : ℕ
  pub body : Units

-- The loop over the levels; `fuel` is how many are left.
abbrev pub wrap_from : ℕ → ℕ → Units → Option Wrapped
wrap_from zero level text = none
wrap_from (suc fuel) level text =
    let rest = wrap_from fuel (level + 1) text in
    if has_part (closing level) (text ++ 93 ∷ [])
    then rest
    else some (record { level = level; body = text })

-- bracketWrap: levels 1 to 9; `none` is the error that it throws.
unfoldable pub bracket_wrap : Units → Option Wrapped
bracket_wrap text = wrap_from 9 1 text

-- The loop of chunkify, from position i.
abbrev pub chunk_from : ℕ → ℕ → ℕ → Units → List Units
chunk_from zero size i text = []
chunk_from (suc fuel) size i text =
    let rest = chunk_from fuel size (i + size) text in
    if ltb i (length text) then take size (drop i text) ∷ rest else []

-- chunkify: each turn of the loop advances, so the text's length is fuel enough.
unfoldable pub chunkify : ℕ → Units → List Units
chunkify size text = chunk_from (length text) size 0 text
