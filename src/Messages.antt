-- ===== src/Messages.antt =====
-- The messages of the link: messages.ts, the classes with their jsonSchema, constructor (which fromJSON
-- calls) and toJSON. A message and its JSON are properties by name; `undefined` is `none`. A string is
-- kept, an object and an array stand as texts, and the schemas of what they hold are left out.
pub mod Requests
pub mod Events
pub mod Classes
pub mod Rules
pub mod Sound
pub mod Delivered
mod Tests
use clusterio_surface_export.Prelude.{
  ℕ, String, Bool, true, false, not, ◌&&◌, ◌||◌, Option, none, some, List, [], ◌∷◌, map, any,
  string_eq, ◌==◌, leb, eqb, if◌then◌else◌,
}
use clusterio_surface_export.Prelude.Int.{ℤ, pos, negsuc}
use clusterio_surface_export.JsMap.{JsMap, get, has, set}

pub data JsonValue : Type 0 where
  null : JsonValue
  boolean : Bool → JsonValue
  whole : ℤ → JsonValue
  fraction object array : String → JsonValue
  text : String → JsonValue

abbrev pub Fields : Type 0
Fields = JsMap String JsonValue

-- The object in memory: a property may be undefined.
abbrev pub Instance : Type 0
Instance = JsMap String (Option JsonValue)

-- A type of a schema.
pub data Kind : Type 0 where
  any_null any_boolean any_integer any_number any_string any_object any_array : Kind
  integer_within : ℕ → ℕ → Kind

abbrev pub accepts : JsonValue → Kind → Bool
accepts null any_null = true
accepts (boolean b) any_boolean = true
accepts (whole n) any_integer = true
accepts (whole n) any_number = true
accepts (fraction s) any_number = true
accepts (whole (pos n)) (integer_within low high) = leb low n && leb n high
accepts (text s) any_string = true
accepts (object s) any_object = true
accepts (array s) any_array = true
accepts v k = false

-- What the constructor does with a property: takes it, `|| value`, `?? null`,
-- `Number.isInteger(x) ? x : null`, `=== true`.
pub data Rule : Type 0 where
  taken nullish integer_or_null if_true : Rule
  or_value : JsonValue → Rule

pub record Property : Type 0 where
  pub name : String
  pub kinds : List Kind
  pub required : Bool
  pub rule : Rule

-- The properties of the schema with what the constructor does, and the names that toJSON writes.
pub record MessageClass : Type 0 where
  pub properties : List Property
  pub written : List String

abbrev pub must_be_any : String → List Kind → Property
must_be_any n ks = record { name = n; kinds = ks; required = true; rule = taken }

abbrev pub must : String → Kind → Property
must n k = must_be_any n (k ∷ [])

abbrev pub may : String → List Kind → Rule → Property
may n ks r = record { name = n; kinds = ks; required = false; rule = r }

-- Whether a value counts as true: null, false, 0 and the empty string do not.
abbrev pub is_truthy : JsonValue → Bool
is_truthy null = false
is_truthy (boolean b) = b
is_truthy (whole (pos n)) = not (eqb n 0)
is_truthy (text s) = not (s == "")
is_truthy v = true

abbrev pub apply_rule : Rule → Option JsonValue → Option JsonValue
apply_rule taken o = o
apply_rule nullish none = some null
apply_rule nullish (some v) = some v
apply_rule integer_or_null (some (whole n)) = some (whole n)
apply_rule integer_or_null o = some null
apply_rule if_true (some (boolean b)) = some (boolean b)
apply_rule if_true o = some (boolean false)
apply_rule (or_value d) none = some d
apply_rule (or_value d) (some v) = if is_truthy v then some v else some d

-- The constructor
unfoldable pub from_json : MessageClass → Fields → Instance
from_json c json = map (λ p. (p.name, apply_rule p.rule (get p.name json))) c.properties

abbrev pub flat : Option (Option JsonValue) → Option JsonValue
flat none = none
flat (some o) = o

abbrev pub property : String → Instance → Option JsonValue
property n self = flat (get n self)

unfoldable pub to_json : MessageClass → Instance → Instance
to_json c self = map (λ n. (n, property n self)) c.written

-- JSON.stringify drops what is undefined.
abbrev pub sent : Instance → Fields
sent [] = []
sent ((n, none) ∷ self) = sent self
sent ((n, some v) ∷ self) = (n, v) ∷ sent self

abbrev pub is_allowed : Property → Option JsonValue → Bool
is_allowed p none = not p.required
is_allowed p (some v) = any (accepts v) p.kinds

abbrev pub every {ℓ} : {A : Type ℓ} → (A → Bool) → List A → Bool
every p [] = true
every p (x ∷ xs) = p x && every p xs

-- The schema: each property is allowed, and there is no other.
unfoldable pub is_valid : MessageClass → Fields → Bool
is_valid c json =
    every (λ p. is_allowed p (get p.name json)) c.properties
    && every (λ e. any (λ p. p.name == e.0) c.properties) json
