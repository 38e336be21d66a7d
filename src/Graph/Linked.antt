-- ===== src/Graph/Linked.antt =====
-- Which gateways are linked after a change: web/gateway/gateway-graph.ts, applyConnect and
-- applyDisconnect.
use clusterio_surface_export.Prelude.{
  String, ◌≡◌, refl, ap, ◌∙◌, Bool, true, not, ◌&&◌, ◌||◌, Option, some, List, [], ◌∷◌, ◌++◌, ◌==◌,
  string_eq, if◌then◌else◌, any, or_else, arith, Bool-cases, inl, inr,
}
use clusterio_surface_export.Prelude.Int.{ℤ, int_eq}
use clusterio_surface_export.JsMap.{get, set, get-set}
use clusterio_surface_export.Gateways.{GatewayLink, IdText, gateway_key}
use clusterio_surface_export.Gateways.Keys.{ReadsBack}
use clusterio_surface_export.Gateways.Proposed.{same_key}
use clusterio_surface_export.Graph.{
  Edits, targets_at, is_same_target, with_target, without_target, ConnectRequest, link_to,
  change_both,
}

-- Gateway a of instance i links to gateway b of instance j.
abbrev pub is_linked : IdText → Edits → ℤ → String → ℤ → String → Bool
is_linked ids edits i a j b =
    any (λ t. is_same_target t (link_to j b)) (targets_at (gateway_key ids i a) edits)

any-append_one :
    (p : GatewayLink → Bool) (ts : List GatewayLink) (t : GatewayLink)
    → any p (ts ++ t ∷ []) ≡ any p ts || p t
any-append_one p [] t = ground arith
any-append_one p (u ∷ ts) t = ground (arith, any-append_one p ts t)

-- Whether the link (j, b) is that of `add`, which is the same both ways round.
abbrev pub is_that : GatewayLink → ℤ → String → Bool
is_that add j b = is_same_target add (link_to j b)

same_left :
    (t u l : GatewayLink) → is_same_target t u ≡ true → is_same_target t l ≡ is_same_target u l
same_left t u l same =
    let ids =
      (int_eq.same_iff t.target_instance_id u.target_instance_id).0 (ground (arith, same)) in
    let names = (string_eq.same_iff t.target_gateway u.target_gateway).0 (ground (arith, same)) in
    ap (λ n. (n == l.target_instance_id) && (t.target_gateway == l.target_gateway)) ids
    ∙ ap (λ n. (u.target_instance_id == l.target_instance_id) && (n == l.target_gateway)) names

same_self : (t : GatewayLink) → is_same_target t t ≡ true
same_self t = ground (arith, string_eq.same_iff t.target_gateway t.target_gateway)

any-same :
    (ts : List GatewayLink) (u l : GatewayLink)
    → any (λ t. is_same_target t u) ts ≡ true
    → is_same_target u l ≡ true
    → any (λ t. is_same_target t l) ts ≡ true
any-same [] u l h same = ground (arith, h)
any-same (t ∷ ts) u l h same = elim (Bool-cases (is_same_target t u)) [
  | inl here ↦ ground (arith, same_left t u l here, same)
  | inr there ↦ ground (arith, there, h, any-same ts u l, same)
]

pub any-with_target :
    (ts : List GatewayLink) (add : GatewayLink) (j : ℤ) (b : String)
    → any (λ t. is_same_target t (link_to j b)) (with_target ts add)
      ≡ any (λ t. is_same_target t (link_to j b)) ts || is_that add j b
any-with_target ts add j b =
    let l = link_to j b in
    elim (Bool-cases (any (λ t. is_same_target t add) ts)) [
      | inr new ↦ rw new (any-append_one (λ t. is_same_target t l) ts add)
      | inl present ↦ elim (Bool-cases (is_same_target add l)) [
        | inl same ↦ rw present (ground (arith, same, any-same ts add l present same))
        | inr other ↦ rw present (ground (arith, other))
      ]
    ]

pub any-without_target :
    (ts : List GatewayLink) (drop : GatewayLink) (j : ℤ) (b : String)
    → any (λ t. is_same_target t (link_to j b)) (without_target ts drop)
      ≡ any (λ t. is_same_target t (link_to j b)) ts && not (is_that drop j b)
any-without_target [] drop j b = refl
any-without_target (t ∷ ts) drop j b =
    let l = link_to j b in
    let tail = any-without_target ts drop j b in
    elim (Bool-cases (is_same_target t drop)) [
      | inl same ↦ ground (arith, same, tail, same_left t drop l same)
      | inr other ↦ elim (Bool-cases (is_same_target t l)) [
        | inr far ↦ ground (arith, other, far, tail)
        | inl near ↦ elim (Bool-cases (is_same_target drop l)) [
          | inr apart ↦ ground (arith, other, near, apart)
          | inl same ↦
              ground
                (arith, other, same_left t l drop near, same_left drop l drop same, same_self drop)
        ]
      ]
    ]

-- Whether the gateway is that end of the request.
abbrev pub is_end : GatewayLink → ℤ → String → Bool
is_end end i a = (i == end.target_instance_id) && (end.target_gateway == a)

module _ (change : List GatewayLink → GatewayLink → List GatewayLink) (op : Bool → Bool → Bool)
    (any_change : (ts : List GatewayLink) (l : GatewayLink) (j : ℤ) (b : String)
      → any (λ t. is_same_target t (link_to j b)) (change ts l)
        ≡ op (any (λ t. is_same_target t (link_to j b)) ts) (is_that l j b))
    (ids : IdText) (edits : Edits) (q : ConnectRequest) (r : ReadsBack ids) where
  abbrev pub source : GatewayLink
  source = link_to q.source_instance_id q.source_gateway

  abbrev pub target : GatewayLink
  target = link_to q.target_instance_id q.target_gateway

  pub is_linked-change_both :
      (i j : ℤ) (a b : String)
      → is_linked ids (change_both change ids edits q) i a j b ≡ (
          if is_end target i a
          then op (is_linked ids edits i a j b) (is_that source j b)
          else if is_end source i a
          then op (is_linked ids edits i a j b) (is_that target j b)
          else is_linked ids edits i a j b)
  is_linked-change_both i j a b =
      let forward = gateway_key ids q.source_instance_id q.source_gateway in
      let reverse = gateway_key ids q.target_instance_id q.target_gateway in
      let key = gateway_key ids i a in
      let p : Option (List GatewayLink) → Bool =
        λ o. any (λ t. is_same_target t (link_to j b)) (or_else o []) in
      let first = change (targets_at forward edits) target in
      let second = change (targets_at reverse edits) source in
      let found = get-set reverse key second (set forward first edits) in
      let inner = get-set forward key first edits in
      let changed : (end : GatewayLink) (k : String)
          → (k == key) ≡ true
          → any (λ t. is_same_target t (link_to j b)) (change (targets_at k edits) end)
            ≡ op (is_linked ids edits i a j b) (is_that end j b) =
        λ end. λ k. λ same.
          any_change (targets_at k edits) end j b
          ∙ ap (λ n. op (p (get n edits)) (is_that end j b)) ((string_eq.same_iff k key).0 same) in
      let at_target = same_key ids q.target_instance_id i q.target_gateway a r in
      let at_source = same_key ids q.source_instance_id i q.source_gateway a r in
      elim (Bool-cases (reverse == key)) [
        | inl same ↦
            ap p found
            ∙ ap (λ x. p (if x then some second else get key (set forward first edits))) same
            ∙ changed source reverse same
            ∙ ground (arith, same, at_target)
        | inr other ↦
            ap p found
            ∙ ap (λ x. p (if x then some second else get key (set forward first edits))) other
            ∙ ap p inner
            ∙ elim (Bool-cases (forward == key)) [
              | inl same ↦
                  ap (λ x. p (if x then some first else get key edits)) same
                  ∙ changed target forward same
                  ∙ ground (arith, same, other, at_target, at_source)
              | inr far ↦
                  ap (λ x. p (if x then some first else get key edits)) far
                  ∙ ground (arith, far, other, at_target, at_source)
            ]
      ]
