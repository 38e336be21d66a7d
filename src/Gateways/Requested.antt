-- ===== src/Gateways/Requested.antt =====
-- What a request leaves: controller.ts, handleSetGatewayLinkRequest.
use clusterio_surface_export.Prelude.{
  String, ◌≡◌, refl, ap, ◌∙◌, ◌&&◌, Option, none, some, List, [], ◌∷◌, ◌==◌, string_eq,
  if◌then◌else◌, arith, Bool-cases, Option-cases, inl, inr, ◌⊎◌, or_option, is_some, ◌++◌, given_or,
}
use clusterio_surface_export.Prelude.Int.{ℤ, int_eq}
use clusterio_surface_export.JsMap.{get, set, get-set}
use clusterio_surface_export.Cluster.{Cluster}
use clusterio_surface_export.Gateways.{GatewayLink, IdText, gateway_key, Links, gateway_names_for}
use clusterio_surface_export.Gateways.Keys.{ReadsBack}
use clusterio_surface_export.Gateways.Accepted.{handle_set_gateway_link-Outcome}
use clusterio_surface_export.Gateways.Checked.{targets_of, normalize-KeysOnce}
use clusterio_surface_export.Gateways.MultiMode.{links_of, apply_links-wanted, wanted}
use clusterio_surface_export.Gateways.Set.{
  Env, State, RawLink, Entry, Refusal, Answer, refused, normalize, normalized_targets,
  handle_set_gateway_link,
}

-- What one target of a request asks for: nothing where its id is no integer or that of the instance
-- itself; else a link, to the gateway of the same name where it names none.
abbrev asked_link : ℤ → String → Option ℤ → Option String → List GatewayLink
asked_link source name none gateway = []
asked_link source name (some i) gateway =
    if i == source
    then []
    else record { target_instance_id = i; target_gateway = given_or gateway name } ∷ []

abbrev asked_links : ℤ → String → List RawLink → List GatewayLink
asked_links source name [] = []
asked_links source name (l ∷ ls) =
    asked_link source name l.target_instance_id l.target_gateway ++ asked_links source name ls

-- The links that a request asks for a gateway, by its first entry for it.
abbrev pub asked : ℤ → List Entry → String → Option (List GatewayLink)
asked source [] b = none
asked source (e ∷ es) b =
    let rest = asked source es b in
    if e.gateway_name == b then some (asked_links source e.gateway_name e.targets) else rest

normalized_targets-asked_links :
    (source : ℤ) (name : String) (ls : List RawLink)
    → normalized_targets source name ls ≡ asked_links source name ls
normalized_targets-asked_links source name [] = refl
normalized_targets-asked_links source name (l ∷ ls) =
    let tail = normalized_targets-asked_links source name ls in
    elim (Option-cases l.target_instance_id) [
      | inl missing ↦ rw missing tail
      | inr (i, given) ↦ elim (Bool-cases (i == source)) [
        | inl own ↦ rw (given, own) tail
        | inr other ↦
            let t : GatewayLink = record {
              target_instance_id = i;
              target_gateway = given_or l.target_gateway name;
            } in
            rw (given, other) (ap (λ r. t ∷ r) tail)
      ]
    ]

get-normalize-asked :
    (active : List String) (source : ℤ) (es : List Entry) (acc m : Links) (b : String)
    → normalize active source es acc ≡ inr m
    → get b m ≡ or_option (get b acc) (asked source es b)
get-normalize-asked active source [] acc m b e = elim (Option-cases (get b acc)) [
  | inl none_at ↦ ground (arith, e, none_at)
  | inr (ts, at) ↦ ground (arith, e, at)
]
get-normalize-asked active source (x ∷ es) acc m b e =
    let name = x.gateway_name in
    let ts = normalized_targets source name x.targets in
    let meant = normalized_targets-asked_links source name x.targets in
    let tail = get-normalize-asked active source es (set name ts acc) m b in
    elim (Bool-cases (name == b)) [
      | inl same ↦
          let at = ap (λ n. get n acc) ((string_eq.same_iff name b).0 same) in
          ground (arith, tail, get-set name b ts acc, same, at, meant)
      | inr other ↦ ground (arith, tail, get-set name b ts acc, other)
    ]

wanted-asked :
    (ids : IdText) (source : ℤ) (links requested : Links) (i : ℤ) (b : String)
    (o : Option (List GatewayLink))
    → get b requested ≡ o
    → (if i == source then wanted ids source links requested b else links_of ids links i b)
      ≡ (if (i == source) && is_some o then targets_of o else links_of ids links i b)
wanted-asked ids source links requested i b o e = elim (Bool-cases (i == source)) [
  | inr far ↦ rw far refl
  | inl near ↦
      let same = ap (λ n. get (gateway_key ids n b) links) ((int_eq.same_iff i source).0 near) in
      elim (Option-cases o) [
        | inl missing ↦ ground (arith, near, same, e, missing)
        | inr (ts, given) ↦ ground (arith, near, e, given)
      ]
]

-- The state stays, or each gateway of the source that the request names has what it asks.
abbrev pub SetsOrRefuses : Env → ℤ → List Entry → State → State × Answer → Type 0
SetsOrRefuses env source es s r =
    ((why : Refusal) × (r ≡ (s, refused why)))
    ⊎ ((i : ℤ) (b : String)
        → links_of env.ids r.0.links i b ≡ (
            if (i == source) && is_some (asked source es b)
            then targets_of (asked source es b)
            else links_of env.ids s.links i b))

-- A request is refused and changes nothing, or each gateway of the instance that it names has exactly the
-- links that it asks for, but for targets whose id is no integer or that of the instance itself, which
-- are left out; and every other gateway keeps its own. Instance ids are read back as they are written,
-- with no colon in them.
pub handle_set_gateway_link_lem :
    (env : Env) (c : Cluster) (source : ℤ) (es : List Entry) (s : State)
    → ReadsBack env.ids
    → SetsOrRefuses env source es s (handle_set_gateway_link env c source es s)
handle_set_gateway_link_lem env c source es s r =
    elim (handle_set_gateway_link-Outcome env c source es s) [
      | inl kept ↦ inl kept
      | inr (requested, (known, made, checked), e, written) ↦
          let active = gateway_names_for env.mode in
          let once = normalize-KeysOnce active source es [] requested made tt in
          inr (λ i. λ b.
            ap (λ l. links_of env.ids l i b) e
            ∙ apply_links-wanted env.ids source s.links requested r once i b
            ∙ wanted-asked env.ids source s.links requested i b (asked source es b)
                (get-normalize-asked active source es [] requested b made))
    ]
