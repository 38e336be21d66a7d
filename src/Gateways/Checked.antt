-- ===== src/Gateways/Checked.antt =====
-- What the checks of a request say: controller.ts, handleSetGatewayLinkRequest, and
-- checkMultiModeLink of shared/dto.ts.
use clusterio_surface_export.Prelude.{
  String, ◌≡◌, refl, sym, subst, ap, ◌∙◌, true, false, Option, none, some, List, [], ◌∷◌, ◌==◌,
  string_eq, any, arith, Bool-cases, inl, inr, or_else, length, ◌≤◌,
}
use clusterio_surface_export.Prelude.Int.{ℤ, int_eq}
use clusterio_surface_export.JsMap.{get, set, delete, get-set, KeysOnce, set-KeysOnce}
use clusterio_surface_export.Gateways.{
  includes, GatewayLink, Links, links_to, find_clash, check_multi_mode_link,
}
use clusterio_surface_export.Gateways.Set.{Entry, normalize, normalized_targets, find_violation}

-- The targets of an entry; no entry has none.
abbrev pub targets_of : Option (List GatewayLink) → List GatewayLink
targets_of o = or_else o []

pub normalize-KeysOnce :
    (active : List String) (source : ℤ) (es : List Entry) (acc m : Links)
    → normalize active source es acc ≡ inr m
    → KeysOnce acc
    → KeysOnce m
normalize-KeysOnce active source [] acc m e once = subst KeysOnce (ground (arith, e)) once
normalize-KeysOnce active source (x ∷ es) acc m e once =
    let ts = normalized_targets source x.gateway_name x.targets in
    let tail = normalize-KeysOnce active source es (set x.gateway_name ts acc) m in
    ground (arith, tail, set-KeysOnce x.gateway_name ts acc once)

pub get-normalize :
    (active : List String) (source : ℤ) (es : List Entry) (acc m : Links) (b : String)
    → normalize active source es acc ≡ inr m
    → includes b active ≡ false
    → get b m ≡ get b acc
get-normalize active source [] acc m b e out = ground (arith, e)
get-normalize active source (x ∷ es) acc m b e out =
    let name = x.gateway_name in
    let ts = normalized_targets source name x.targets in
    let tail = get-normalize active source es (set name ts acc) m b in
    elim (Bool-cases (name == b)) [
      | inl same ↦
          let e' = ap (λ n. includes n active) ((string_eq.same_iff name b).0 same) in
          ground (arith, e', out)
      | inr other ↦ ground (arith, tail, get-set name b ts acc, other)
    ]

pub find_clash-none :
    (a : String) (i : ℤ) (m : Links) (b : String)
    → find_clash a i m ≡ none
    → (b == a) ≡ false
    → any (links_to i) (targets_of (get b m)) ≡ false
find_clash-none a i [] b e far = refl
find_clash-none a i ((o, ts) ∷ m) b e far = elim (Bool-cases (o == b)) [
  | inl same ↦
      let e' = ap (λ n. n == a) ((string_eq.same_iff o b).0 same) in ground (arith, same, e')
  | inr other ↦ ground (arith, other, find_clash-none a i m b)
]

pub check-single :
    (a : String) (ts : List GatewayLink) (m : Links)
    → check_multi_mode_link a ts m ≡ none
    → length ts ≤ 1
check-single a [] m e = ground arith
check-single a (t ∷ []) m e = ground arith
check-single a (t ∷ u ∷ ts) m e = ground arith

pub check-apart :
    (a : String) (ts : List GatewayLink) (m : Links) (b : String) (i : ℤ)
    → check_multi_mode_link a ts m ≡ none
    → (b == a) ≡ false
    → any (links_to i) ts ≡ true
    → any (links_to i) (targets_of (get b m)) ≡ false
check-apart a [] m b i e far hit = ground arith
check-apart a (t ∷ []) m b i e far hit =
    let to_t = find_clash-none a t.target_instance_id m b e far in
    let e' =
      ap (λ n. any (links_to n) (targets_of (get b m)))
        ((int_eq.same_iff t.target_instance_id i).0 (ground arith)) in
    ground (arith, to_t, e')
check-apart a (t ∷ u ∷ ts) m b i e far hit = ground arith

pub find_violation-none :
    (proposed requested : Links) (a : String) (ts : List GatewayLink)
    → find_violation proposed requested ≡ none
    → get a requested ≡ some ts
    → check_multi_mode_link a ts (delete a proposed) ≡ none
find_violation-none proposed [] a ts e found = ground arith
find_violation-none proposed ((c, us) ∷ requested) a ts e found = elim (Bool-cases (c == a)) [
  | inl same ↦
      let here : check_multi_mode_link c us (delete c proposed) ≡ none = ground (arith, e) in
      let us_ts : us ≡ ts = ground (arith, found, same) in
      subst (λ n. check_multi_mode_link n ts (delete n proposed) ≡ none)
        ((string_eq.same_iff c a).0 same)
        (ap (λ l. check_multi_mode_link c l (delete c proposed)) (sym us_ts) ∙ here)
  | inr other ↦ ground (arith, other, find_violation-none proposed requested a ts)
]
