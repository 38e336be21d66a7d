-- ===== src/Messages/Sound.antt =====
-- What is sent of a message is valid and reads back as the message: messages.ts.
use clusterio_surface_export.Prelude.{
  String, ◌≡◌, refl, sym, ap, ◌∙◌, arith, Bool, true, false, not, ◌&&◌, Option, none, some, List,
  [], ◌∷◌, map, any, All, All-map, string_eq, ◌==◌,
}
use clusterio_surface_export.JsMap.{get, keys, KeysOnce, IsFound, IsFound-self}
use clusterio_surface_export.Messages.{
  JsonValue, Fields, Instance, Property, MessageClass, apply_rule, from_json, flat, property,
  to_json, sent, every,
}
use clusterio_surface_export.Messages.Rules.{rule_ok}

abbrev pub names : List Property → List String
names ps = map (λ p. p.name) ps

-- The object that has these properties, each computed from its row.
abbrev pub object_of : (Property → Option JsonValue) → List Property → Instance
object_of h ps = map (λ p. (p.name, h p)) ps

abbrev pub once : List String → Bool
once [] = true
once (n ∷ ns) = not (any (λ m. m == n) ns) && once ns

abbrev pub IsSound : MessageClass → Type 0
IsSound c =
    (c.written ≡ names c.properties)
    × (once (names c.properties) ≡ true)
    × (every (λ p. rule_ok p.kinds p.rule) c.properties ≡ true)

-- Lists of properties
pub All-every {ℓ} :
    {A : Type ℓ} (p : A → Bool) (xs : List A) → every p xs ≡ true → All (λ x. p x ≡ true) xs
All-every p [] h = tt
All-every p (x ∷ xs) h = (ground (arith, h), All-every p xs (ground (arith, h)))

pub every-All {ℓ} :
    {A : Type ℓ} (p : A → Bool) (xs : List A) → All (λ x. p x ≡ true) xs → every p xs ≡ true
every-All p [] h = refl
every-All p (x ∷ xs) (here, h) = rw here (every-All p xs h)

get-object_of-none :
    (h : Property → Option JsonValue) (n : String) (ps : List Property)
    → any (λ m. m == n) (names ps) ≡ false
    → get n (object_of h ps) ≡ none
get-object_of-none h n [] fresh = refl
get-object_of-none h n (p ∷ ps) fresh = ground (arith, fresh, get-object_of-none h n ps)

object_of-KeysOnce :
    (h : Property → Option JsonValue) (ps : List Property)
    → once (names ps) ≡ true
    → KeysOnce (object_of h ps)
object_of-KeysOnce h [] o = tt
object_of-KeysOnce h (p ∷ ps) o = (
  get-object_of-none h p.name ps (ground (arith, o)),
  object_of-KeysOnce h ps (ground (arith, o)),
)

keys-object_of :
    (h : Property → Option JsonValue) (ps : List Property) → keys (object_of h ps) ≡ names ps
keys-object_of h [] = refl
keys-object_of h (p ∷ ps) = ap (◌∷◌ p.name) (keys-object_of h ps)

pub object_of-ext :
    (h h' : Property → Option JsonValue) (ps : List Property)
    → All (λ p. h p ≡ h' p) ps
    → object_of h ps ≡ object_of h' ps
object_of-ext h h' [] e = refl
object_of-ext h h' (p ∷ ps) (here, e) =
    ap (λ o. (p.name, o) ∷ object_of h ps) here ∙ ap (◌∷◌ (p.name, h' p)) (object_of-ext h h' ps e)

found_rows :
    (self : Instance) (h : Property → Option JsonValue) (ps : List Property)
    → IsFound self (object_of h ps)
    → All (λ p. get p.name self ≡ some (h p)) ps
found_rows self h [] f = tt
found_rows self h (p ∷ ps) (here, f) = (here, found_rows self h ps f)

reread : (self m : Instance) → IsFound self m → map (λ n. (n, property n self)) (keys m) ≡ m
reread self [] f = refl
reread self ((n, o) ∷ m) (here, f) =
    ap (λ x. (n, flat x) ∷ map (λ j. (j, property j self)) (keys m)) here
    ∙ ap (◌∷◌ (n, o)) (reread self m f)

get-sent : (n : String) (self : Instance) → KeysOnce self → get n (sent self) ≡ property n self
get-sent n [] once = refl
get-sent n ((k, none) ∷ self) (fresh, once) =
    ground (arith, fresh, get-sent n self once, string_eq.same_iff k n)
get-sent n ((k, some v) ∷ self) (fresh, once) = ground (arith, get-sent n self once)

abbrev pub declares : List Property → String → Bool
declares ps n = any (λ p. p.name == n) ps

declared-cons :
    (q : Property) (ps : List Property) (m : Instance)
    → All (λ e. declares ps e.0 ≡ true) m
    → All (λ e. declares (q ∷ ps) e.0 ≡ true) m
declared-cons q ps [] h = tt
declared-cons q ps (e ∷ m) (here, h) = (ground (arith, here), declared-cons q ps m h)

pub declared-object_of :
    (h : Property → Option JsonValue) (ps : List Property)
    → All (λ e. declares ps e.0 ≡ true) (object_of h ps)
declared-object_of h [] = tt
declared-object_of h (p ∷ ps) = (
  ground (arith, string_eq.same_iff p.name p.name),
  declared-cons p ps (object_of h ps) (declared-object_of h ps),
)

pub every-sent :
    (t : String → Bool) (self : Instance)
    → All (λ e. t e.0 ≡ true) self
    → every (λ e. t e.0) (sent self) ≡ true
every-sent t [] h = refl
every-sent t ((k, none) ∷ self) (here, h) = every-sent t self h
every-sent t ((k, some v) ∷ self) (here, h) = rw here (every-sent t self h)

pub to_json-from_json :
    (c : MessageClass) (json : Fields) → IsSound c → to_json c (from_json c json) ≡ from_json c json
unfolding from_json to_json
to_json-from_json c json (same, distinct, ok) =
    let h : Property → Option JsonValue = λ p. apply_rule p.rule (get p.name json) in
    let self = object_of h c.properties in
    let once = object_of-KeysOnce h c.properties distinct in
    ap (map (λ n. (n, property n self))) (same ∙ sym (keys-object_of h c.properties))
    ∙ reread self self (IsFound-self self once)

-- What is read of a message that was sent, by the name of the property.
pub get-sent_self :
    (c : MessageClass) (json : Fields)
    → IsSound c
    → All
        (λ p. get p.name (sent (from_json c json)) ≡ apply_rule p.rule (get p.name json))
        c.properties
unfolding from_json
get-sent_self c json (same, distinct, ok) =
    let h : Property → Option JsonValue = λ p. apply_rule p.rule (get p.name json) in
    let self = object_of h c.properties in
    let once = object_of-KeysOnce h c.properties distinct in
    All-map (λ p f. get-sent p.name self once ∙ ap flat f) c.properties
      (found_rows self h c.properties (IsFound-self self once))
