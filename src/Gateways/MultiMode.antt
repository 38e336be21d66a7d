-- ===== src/Gateways/MultiMode.antt =====
-- One gateway, one destination: controller.ts, handleSetGatewayLinkRequest in multi mode, and
-- checkMultiModeLink of shared/dto.ts.
use clusterio_surface_export.Prelude.{
  String, ◌≡◌, refl, sym, subst, subst₂, ap, ◌∙◌, true, false, Option, none, some, List, [], ◌∷◌,
  ◌==◌, string_eq, if◌then◌else◌, any, arith, Bool-cases, inl, inr, or_option, length, ◌≤◌,
  Option-cases,
}
use clusterio_surface_export.Prelude.Int.{ℤ, int_eq}
use clusterio_surface_export.JsMap.{get, delete, get-delete, KeysOnce}
use clusterio_surface_export.Cluster.{Cluster}
use clusterio_surface_export.Gateways.{
  includes, GatewayLink, Links, IdText, gateway_key, GatewayMode, one_gate, multi,
  multi_gateway_names, one_gate_names, gateway_names_for, links_to,
}
use clusterio_surface_export.Gateways.Keys.{ReadsBack}
use clusterio_surface_export.Gateways.Proposed.{given_links, get-propose, get-apply_links}
use clusterio_surface_export.Gateways.Accepted.{handle_set_gateway_link-Outcome}
use clusterio_surface_export.Gateways.Set.{
  Env, State, Entry, normalize, next_links, propose, find_violation, mode_violation, apply_links,
  handle_set_gateway_link,
}
use clusterio_surface_export.Gateways.Checked.{
  targets_of, normalize-KeysOnce, get-normalize, check-single, check-apart, find_violation-none,
}

-- The links of a gateway.
abbrev pub links_of : IdText → Links → ℤ → String → List GatewayLink
links_of ids links source name = targets_of (get (gateway_key ids source name) links)

-- Gateway `a` has at most one destination, and if both link to instance i, they are one.
abbrev pub Fits : ℤ → String → String → List GatewayLink → List GatewayLink → Type 0
Fits i a b la lb =
    (length la ≤ 1) × (any (links_to i) la ≡ true → any (links_to i) lb ≡ true → (b == a) ≡ true)

-- Each gateway of the Multi Cluster mode has at most one destination, and two gateways of an
-- instance that link to the same destination are one.
abbrev pub OneToOne : IdText → Links → Type 0
OneToOne ids links =
    (source i : ℤ) (a b : String)
    → includes a multi_gateway_names ≡ true
    → includes b multi_gateway_names ≡ true
    → Fits i a b (links_of ids links source a) (links_of ids links source b)

targets_of-given_links :
    (o : Option (List GatewayLink)) → targets_of (or_option (given_links o) none) ≡ targets_of o
targets_of-given_links none = refl
targets_of-given_links (some []) = refl
targets_of-given_links (some (t ∷ ts)) = refl

other_way : (a b : String) → (b == a) ≡ false → (a == b) ≡ false
other_way a b far = elim (Bool-cases (a == b)) [
  | inl same ↦
      ground (arith, far, (string_eq.same_iff b a).1 (sym ((string_eq.same_iff a b).0 same)))
  | inr other ↦ other
]

module _ (ids : IdText) (source : ℤ) (links requested : Links) where
  -- What a gateway would have.
  abbrev pub wanted : String → List GatewayLink
  wanted b = targets_of (next_links ids source links requested b)

  abbrev proposed : Links
  proposed = propose ids source links requested multi_gateway_names []

  get-proposed :
      (b : String) → includes b multi_gateway_names ≡ true → targets_of (get b proposed) ≡ wanted b
  get-proposed b known =
      ap targets_of (
        get-propose ids source links requested multi_gateway_names [] b
        ∙ ap
            (λ k.
              if k
              then or_option (given_links (next_links ids source links requested b)) none
              else none)
            known)
      ∙ targets_of-given_links (next_links ids source links requested b)

  module _ (checked : find_violation proposed requested ≡ none) where
    requested-single :
        (a : String) (ts : List GatewayLink) → get a requested ≡ some ts → length ts ≤ 1
    requested-single a ts found =
        check-single a ts (delete a proposed)
          (find_violation-none proposed requested a ts checked found)

    requested-apart :
        (a b : String) (i : ℤ) (ts : List GatewayLink)
        → get a requested ≡ some ts
        → includes b multi_gateway_names ≡ true
        → (b == a) ≡ false
        → any (links_to i) ts ≡ true
        → any (links_to i) (wanted b) ≡ false
    requested-apart a b i ts found known far hit =
        let apart =
          check-apart a ts (delete a proposed) b i
            (find_violation-none proposed requested a ts checked found) far hit in
        let after =
          ap targets_of (
            get-delete a b proposed
            ∙ ap (λ k. if k then none else get b proposed) (other_way a b far))
          ∙ get-proposed b known in
        sym (ap (λ l. any (links_to i) l) after) ∙ apart

  wanted-kept : (b : String) → get b requested ≡ none → wanted b ≡ links_of ids links source b
  wanted-kept b kept = ground (arith, kept)

  -- Of the gateways that a checked request leaves, two that link to one destination are one.
  wanted-OneToOne :
      OneToOne ids links
      → find_violation proposed requested ≡ none
      → (i : ℤ) (a b : String) → includes a multi_gateway_names ≡ true
      → includes b multi_gateway_names ≡ true
      → Fits i a b (wanted a) (wanted b)
  wanted-OneToOne before checked i a b known_a known_b =
      let old = before source i a b known_a known_b in
      elim (Option-cases (get a requested)) [
        | inr (ts, found) ↦ (
          ground (arith, found, requested-single checked a ts found),
          λ hit_a. λ hit_b. elim (Bool-cases (b == a)) [
            | inl same ↦ same
            | inr far ↦
                ground
                  (arith, found, hit_a, hit_b, requested-apart checked a b i ts found known_b far)
          ],
        )
        | inl kept_a ↦
            let same_a = wanted-kept a kept_a in
            (
              ground (arith, old, same_a),
              λ hit_a. λ hit_b. elim (Option-cases (get b requested)) [
                | inl kept_b ↦
                    old.1 (ap (λ l. any (links_to i) l) (sym same_a) ∙ hit_a)
                      (ap (λ l. any (links_to i) l) (sym (wanted-kept b kept_b)) ∙ hit_b)
                | inr (ts, found) ↦ elim (Bool-cases (b == a)) [
                  | inl same ↦ same
                  | inr far ↦ ground (
                    arith,
                    found,
                    hit_a,
                    hit_b,
                    requested-apart checked b a i ts found known_a (other_way a b far),
                  )
                ]
              ],
            )
      ]

  -- The links after the request are the wanted ones, for this instance, and those of others stay.
  pub apply_links-wanted :
      ReadsBack ids
      → KeysOnce requested
      → (i : ℤ) (b : String)
      → links_of ids (apply_links ids source requested links) i b
        ≡ (if i == source then wanted b else links_of ids links i b)
  apply_links-wanted r once i b =
      let parts = get-apply_links ids source i requested links b r once in
      elim (Bool-cases (i == source)) [
        | inr far ↦ ground (arith, far, ap targets_of parts)
        | inl near ↦
            let same =
              ap (λ n. get (gateway_key ids n b) links) ((int_eq.same_iff i source).0 near) in
            ground (arith, near, same, parts, targets_of-given_links (get b requested))
      ]

names_disjoint :
    (a : String) → includes a multi_gateway_names ≡ true → includes a one_gate_names ≡ false
names_disjoint a known = elim (Bool-cases (includes a one_gate_names)) [
  | inr out ↦ out
  | inl hub ↦ ground (
    arith,
    known,
    ap (λ n. includes n multi_gateway_names)
        (sym ((string_eq.same_iff "surfexp_gateway_hub" a).0 (ground (arith, hub)))),
  )
]

wanted-Fits :
    (ids : IdText) (mode : GatewayMode) (source : ℤ) (es : List Entry) (links requested : Links)
    → OneToOne ids links
    → normalize (gateway_names_for mode) source es [] ≡ inr requested
    → mode_violation ids mode source links requested ≡ none
    → (i : ℤ) (a b : String) → includes a multi_gateway_names ≡ true
    → includes b multi_gateway_names ≡ true
    → Fits i a b (wanted ids source links requested a) (wanted ids source links requested b)
unfolding mode_violation
wanted-Fits ids multi source es links requested before made checked i a b known_a known_b =
    wanted-OneToOne ids source links requested before checked i a b known_a known_b
wanted-Fits ids one_gate source es links requested before made checked i a b known_a known_b =
    let untouched : (n : String) → includes n multi_gateway_names ≡ true → get n requested ≡ none =
      λ n. λ known.
        get-normalize one_gate_names source es [] requested n made (names_disjoint n known) in
    let same : (n : String)
        → includes n multi_gateway_names ≡ true
        → links_of ids links source n ≡ wanted ids source links requested n =
      λ n. λ known. sym (wanted-kept ids source links requested n (untouched n known)) in
    subst₂ (Fits i a b) (same a known_a) (same b known_b) (before source i a b known_a known_b)

module _ (ids : IdText) (mode : GatewayMode) (source : ℤ) (es : List Entry)
    (links requested : Links) where
  apply_links-OneToOne :
      ReadsBack ids
      → OneToOne ids links
      → normalize (gateway_names_for mode) source es [] ≡ inr requested
      → mode_violation ids mode source links requested ≡ none
      → OneToOne ids (apply_links ids source requested links)
  apply_links-OneToOne r before made checked i d a b known_a known_b =
      let once = normalize-KeysOnce (gateway_names_for mode) source es [] requested made tt in
      let at = apply_links-wanted ids source links requested r once i in
      subst₂ (Fits d a b) (sym (at a)) (sym (at b)) (elim (Bool-cases (i == source)) [
        | inl near ↦ rw near (
            wanted-Fits ids mode source es links requested before made checked d a b known_a
              known_b)
        | inr far ↦ rw far (before i d a b known_a known_b)
      ])

-- Whatever the answer to a request, in either mode: if each gateway of the Multi Cluster mode had
-- at most one destination and no two of an instance had the same, so it is after the request.
-- Instance ids are read back as they are written, with no colon in them.
pub handle_set_gateway_link-OneToOne :
    (env : Env) (c : Cluster) (source : ℤ) (es : List Entry) (s : State)
    → ReadsBack env.ids
    → OneToOne env.ids s.links
    → OneToOne env.ids (handle_set_gateway_link env c source es s).0.links
handle_set_gateway_link-OneToOne env c source es s r before =
    elim (handle_set_gateway_link-Outcome env c source es s) [
      | inl (why, e) ↦ subst (λ l. OneToOne env.ids l) (ap (λ p. p.0.links) (sym e)) before
      | inr (requested, (known, made, checked), e, written) ↦
          subst (λ l. OneToOne env.ids l) (sym e)
            (apply_links-OneToOne env.ids env.mode source es s.links requested r before made
              checked)
    ]
