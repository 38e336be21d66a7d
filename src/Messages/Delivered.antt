-- ===== src/Messages/Delivered.antt =====
-- Every registered message, sent and read: messages.ts and index.ts.
use clusterio_surface_export.Prelude.{
  String, ◌≡◌, refl, ap, subst, ◌∙◌, arith, Bool, true, false, ◌&&◌, Option, some, List, [], ◌∷◌,
  All, All-map, string_eq, ◌==◌, Bool-cases, inl, inr,
}
use clusterio_surface_export.JsMap.{JsMap, get}
use clusterio_surface_export.Messages.{
  JsonValue, Fields, Property, MessageClass, apply_rule, from_json, to_json, sent, is_allowed,
  every, is_valid,
}
use clusterio_surface_export.Messages.Classes.{messages, class_named}
use clusterio_surface_export.Messages.Rules.{rule_ok, rule-rule, allowed-rule}
use clusterio_surface_export.Messages.Sound.{
  IsSound, once, All-every, every-All, every-sent, declares, declared-object_of, object_of,
  object_of-ext, to_json-from_json, get-sent_self, names,
}

from_json-sent :
    (c : MessageClass) (json : Fields)
    → IsSound c
    → from_json c (sent (from_json c json)) ≡ from_json c json
unfolding from_json
from_json-sent c json ok =
    let again = sent (from_json c json) in
    object_of-ext (λ p. apply_rule p.rule (get p.name again))
      (λ p. apply_rule p.rule (get p.name json)) c.properties
      (All-map (λ p f. ap (apply_rule p.rule) f ∙ rule-rule p.rule (get p.name json)) c.properties
        (get-sent_self c json ok))

All-zip {ℓ κ μ} :
    {A : Type ℓ} (P : A → Type κ) (Q : A → Type μ) (xs : List A)
    → All P xs
    → All Q xs
    → All (λ x. P x × Q x) xs
All-zip P Q [] h h' = tt
All-zip P Q (x ∷ xs) (here, h) (here', h') = ((here, here'), All-zip P Q xs h h')

sent-IsValid :
    (c : MessageClass) (json : Fields)
    → IsSound c
    → is_valid c json ≡ true
    → is_valid c (sent (from_json c json)) ≡ true
unfolding is_valid from_json
sent-IsValid c json ok valid =
    let ps = c.properties in
    let read = get-sent_self c json ok in
    let allowed = All-every (λ p. is_allowed p (get p.name json)) ps (ground (arith, valid)) in
    let rules = All-every (λ p. rule_ok p.kinds p.rule) ps ok.2 in
    let h : Property → Option JsonValue = λ p. apply_rule p.rule (get p.name json) in
    let all_allowed =
      every-All (λ p. is_allowed p (get p.name (sent (object_of h ps)))) ps
        (All-map
          (λ p x. ap (is_allowed p) x.0 ∙ allowed-rule p.rule p (get p.name json) x.1.1 x.1.0) ps
          (All-zip _ _ ps read (All-zip _ _ ps allowed rules))) in
    let all_declared = every-sent (declares ps) (object_of h ps) (declared-object_of h ps) in
    rw all_allowed all_declared

registered-IsSound :
    (m : JsMap String MessageClass) (n : String) (c : MessageClass)
    → All (λ e. IsSound e.1) m
    → get n m ≡ some c
    → IsSound c
registered-IsSound [] n c h found = cc
registered-IsSound ((k, d) ∷ m) n c (here, h) found = elim (Bool-cases (k == n)) [
  | inl same ↦ subst IsSound (ground (arith, found, same)) here
  | inr other ↦ registered-IsSound m n c h (ground (arith, found, other))
]

abbrev same_names : List String → List String → Bool
same_names [] [] = true
same_names [] (y ∷ ys) = false
same_names (x ∷ xs) [] = false
same_names (x ∷ xs) (y ∷ ys) = x == y && same_names xs ys

same_names_lem : (xs ys : List String) → same_names xs ys ≡ true → xs ≡ ys
same_names_lem [] [] h = refl
same_names_lem [] (y ∷ ys) h = cc
same_names_lem (x ∷ xs) [] h = cc
same_names_lem (x ∷ xs) (y ∷ ys) h = ground (arith, h, string_eq.same_iff x y, same_names_lem xs ys)

abbrev is_sound : MessageClass → Bool
is_sound c =
    same_names c.written (names c.properties)
    && once (names c.properties)
    && every (λ p. rule_ok p.kinds p.rule) c.properties

is_sound-IsSound : (c : MessageClass) → is_sound c ≡ true → IsSound c
is_sound-IsSound c h = (
  same_names_lem c.written (names c.properties) (ground (arith, h)),
  ground (arith, h),
  ground (arith, h),
)

messages-IsSound : All (λ e. IsSound e.1) messages
messages-IsSound =
    All-map (λ e. is_sound-IsSound e.1) messages (All-every (λ e. is_sound e.1) messages refl)

-- Whatever message of the registered classes is read from JSON that its schema allows, what is sent of it
-- is allowed by the schema as well, and is read as the same message.
pub from_json-to_json :
    (n : String) (c : MessageClass) (json : Fields)
    → class_named n ≡ some c
    → is_valid c json ≡ true
    → let wire = sent (to_json c (from_json c json)) in
      (is_valid c wire ≡ true) × (from_json c wire ≡ from_json c json)
from_json-to_json n c json found valid =
    let ok = registered-IsSound messages n c messages-IsSound found in
    let same = to_json-from_json c json ok in
    (
      ap (λ self. is_valid c (sent self)) same ∙ sent-IsValid c json ok valid,
      ap (λ self. from_json c (sent self)) same ∙ from_json-sent c json ok,
    )
