-- ===== src/Messages/Rules.antt =====
-- What the constructors of messages.ts do with one property.
use clusterio_surface_export.Prelude.{
  ◌≡◌, refl, arith, Bool, true, false, ◌&&◌, Option, none, some, List, any, string_eq, Bool-cases,
  inl, inr,
}
use clusterio_surface_export.Messages.{
  JsonValue, null, boolean, whole, fraction, object, array, text, Kind, accepts, Rule, taken,
  nullish, integer_or_null, if_true, or_value, Property, is_truthy, apply_rule, is_allowed,
}

-- What the constructor puts in place of a value is of a type that the schema allows.
abbrev pub rule_ok : List Kind → Rule → Bool
rule_ok ks taken = true
rule_ok ks nullish = any (accepts null) ks
rule_ok ks integer_or_null = any (accepts null) ks
rule_ok ks if_true = any (accepts (boolean true)) ks && any (accepts (boolean false)) ks
rule_ok ks (or_value d) = any (accepts d) ks

pub rule-rule : (r : Rule) (o : Option JsonValue) → apply_rule r (apply_rule r o) ≡ apply_rule r o
rule-rule taken o = refl
rule-rule nullish none = refl
rule-rule nullish (some v) = refl
rule-rule integer_or_null none = refl
rule-rule integer_or_null (some null) = refl
rule-rule integer_or_null (some (boolean b)) = refl
rule-rule integer_or_null (some (whole n)) = refl
rule-rule integer_or_null (some (fraction s)) = refl
rule-rule integer_or_null (some (object s)) = refl
rule-rule integer_or_null (some (array s)) = refl
rule-rule integer_or_null (some (text s)) = refl
rule-rule if_true none = refl
rule-rule if_true (some null) = refl
rule-rule if_true (some (boolean b)) = refl
rule-rule if_true (some (whole n)) = refl
rule-rule if_true (some (fraction s)) = refl
rule-rule if_true (some (object s)) = refl
rule-rule if_true (some (array s)) = refl
rule-rule if_true (some (text s)) = refl
rule-rule (or_value d) none = ground arith
rule-rule (or_value d) (some v) = ground arith

pub allowed-rule :
    (r : Rule) (p : Property) (o : Option JsonValue)
    → rule_ok p.kinds r ≡ true
    → is_allowed p o ≡ true
    → is_allowed p (apply_rule r o) ≡ true
allowed-rule taken p o ok h = h
allowed-rule nullish p none ok h = ok
allowed-rule nullish p (some v) ok h = h
allowed-rule integer_or_null p none ok h = ok
allowed-rule integer_or_null p (some null) ok h = ok
allowed-rule integer_or_null p (some (boolean b)) ok h = ok
allowed-rule integer_or_null p (some (whole n)) ok h = h
allowed-rule integer_or_null p (some (fraction s)) ok h = ok
allowed-rule integer_or_null p (some (object s)) ok h = ok
allowed-rule integer_or_null p (some (array s)) ok h = ok
allowed-rule integer_or_null p (some (text s)) ok h = ok
allowed-rule if_true p none ok h = ground (arith, ok)
allowed-rule if_true p (some null) ok h = ground (arith, ok)
allowed-rule if_true p (some (boolean b)) ok h = h
allowed-rule if_true p (some (whole n)) ok h = ground (arith, ok)
allowed-rule if_true p (some (fraction s)) ok h = ground (arith, ok)
allowed-rule if_true p (some (object s)) ok h = ground (arith, ok)
allowed-rule if_true p (some (array s)) ok h = ground (arith, ok)
allowed-rule if_true p (some (text s)) ok h = ground (arith, ok)
allowed-rule (or_value d) p none ok h = ok
allowed-rule (or_value d) p (some v) ok h = elim (Bool-cases (is_truthy v)) [
  | inl kept ↦ rw kept h
  | inr replaced ↦ rw replaced ok
]
