-- ===== src/Gateways/Proposed.antt =====
-- What the gateways of an instance would have after a request, and what applying it leaves:
-- controller.ts, handleSetGatewayLinkRequest.
use clusterio_surface_export.Prelude.{
  String, ◌≡◌, refl, sym, ap, ◌∙◌, ◌&&◌, Option, none, some, List, [], ◌∷◌, ◌==◌, string_eq,
  if◌then◌else◌, arith, Bool-cases, inl, inr, or_option,
}
use clusterio_surface_export.Prelude.Int.{ℤ, int_eq}
use clusterio_surface_export.JsMap.{get, has, get-set, get-delete, KeysOnce}
use clusterio_surface_export.Gateways.{includes, GatewayLink, Links, IdText, gateway_key}
use clusterio_surface_export.Gateways.Keys.{ReadsBack, gateway_key-injective}
use clusterio_surface_export.Gateways.Set.{put_given, next_links, propose, apply_one, apply_links}

-- No entry and an empty one are the same.
abbrev pub given_links : Option (List GatewayLink) → Option (List GatewayLink)
given_links none = none
given_links (some []) = none
given_links (some (t ∷ ts)) = some (t ∷ ts)

get-put_given :
    (a b : String) (o : Option (List GatewayLink)) (m : Links)
    → get b (put_given a o m) ≡ (if a == b then or_option (given_links o) (get b m) else get b m)
get-put_given a b none m = ground arith
get-put_given a b (some []) m = ground arith
get-put_given a b (some (t ∷ ts)) m = ground (arith, get-set a b (t ∷ ts) m)

pub get-propose :
    (ids : IdText) (source : ℤ) (links requested : Links) (names : List String) (acc : Links)
    (b : String)
    → get b (propose ids source links requested names acc) ≡ (
        if includes b names
        then or_option (given_links (next_links ids source links requested b)) (get b acc)
        else get b acc)
get-propose ids source links requested [] acc b = refl
get-propose ids source links requested (a ∷ names) acc b =
    let next = next_links ids source links requested in
    let tail =
      get-propose ids source links requested names (put_given a (next a) acc) b
      ∙ ap (λ o. if includes b names then or_option (given_links (next b)) o else o)
          (get-put_given a b (next a) acc) in
    elim (Bool-cases (a == b)) [
      | inl same ↦
          let e =
            ap (λ n. or_option (given_links (next n)) (get b acc))
              ((string_eq.same_iff a b).0 same) in
          ground (arith, tail, e)
      | inr other ↦ ground (arith, tail)
    ]

get-apply_one :
    (k j : String) (ts : List GatewayLink) (m : Links)
    → get j (apply_one k ts m) ≡ (if k == j then given_links (some ts) else get j m)
get-apply_one k j [] m = get-delete k j m
get-apply_one k j (t ∷ ts) m = get-set k j (t ∷ ts) m

pub same_key :
    (ids : IdText) (i j : ℤ) (a b : String)
    → ReadsBack ids
    → (gateway_key ids i a == gateway_key ids j b) ≡ (j == i) && (a == b)
same_key ids i j a b r = elim (Bool-cases (gateway_key ids i a == gateway_key ids j b)) [
  | inl same ↦
      let parts =
        gateway_key-injective ids i j a b r
          ((string_eq.same_iff (gateway_key ids i a) (gateway_key ids j b)).0 same) in
      ground
        (arith, same, (int_eq.same_iff j i).1 (sym parts.0), (string_eq.same_iff a b).1 parts.1)
  | inr other ↦ elim (Bool-cases (j == i)) [
    | inr far ↦ ground (arith, other, far)
    | inl near ↦ elim (Bool-cases (a == b)) [
      | inr far ↦ ground (arith, other, far)
      | inl same ↦
          let keys =
            ap (λ n. gateway_key ids i n) ((string_eq.same_iff a b).0 same)
            ∙ ap (λ n. gateway_key ids n b) (sym ((int_eq.same_iff j i).0 near)) in
          ground
            (arith, other, (string_eq.same_iff (gateway_key ids i a) (gateway_key ids j b)).1 keys)
    ]
  ]
]

-- What applying a request leaves for one gateway; keys of other instances stay.
pub get-apply_links :
    (ids : IdText) (source i : ℤ) (requested links : Links) (b : String)
    → ReadsBack ids
    → KeysOnce requested
    → get (gateway_key ids i b) (apply_links ids source requested links) ≡ (
        if (i == source) && has b requested
        then given_links (get b requested)
        else get (gateway_key ids i b) links)
unfolding apply_links
get-apply_links ids source i [] links b r once = ground arith
get-apply_links ids source i ((a, ts) ∷ requested) links b r (fresh, once) =
    let tail =
      get-apply_links ids source i requested (apply_one (gateway_key ids source a) ts links) b r
        once
      ∙ ap (λ o. if (i == source) && has b requested then given_links (get b requested) else o)
          (get-apply_one (gateway_key ids source a) (gateway_key ids i b) ts links) in
    let keys = same_key ids source i a b r in
    elim (Bool-cases (a == b)) [
      | inl same ↦
          let e = ap (λ n. get n requested) (sym ((string_eq.same_iff a b).0 same)) ∙ fresh in
          ground (arith, tail, keys, same, e)
      | inr other ↦ ground (arith, tail, keys, other)
    ]
