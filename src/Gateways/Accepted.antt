-- ===== src/Gateways/Accepted.antt =====
-- Which requests change the links: controller.ts, handleSetGatewayLinkRequest.
use clusterio_surface_export.Prelude.{
  String, ◌≡◌, refl, sym, ap, subst, ◌∙◌, false, Bool, true, Option, none, some, List, [], ◌∷◌,
  arith, Bool-cases, inl, inr, ◌⊎◌,
}
use clusterio_surface_export.Prelude.Int.{ℤ, int_eq}
use clusterio_surface_export.JsMap.{get}
use clusterio_surface_export.Cluster.{Cluster, is_instance_online}
use clusterio_surface_export.Gateways.{Links, Violation, gateway_names_for}
use clusterio_surface_export.Gateways.Set.{
  Env, State, Entry, Refusal, Answer, refused, not_written, saved_not_pushed, saved, violates,
  no_gateways, unknown_source, normalize, mode_violation, apply_links, is_known_instance,
  push_gateway_config, persist_gateway_config, apply_checked, after_normalize,
  handle_set_gateway_link,
}

-- The request passes every check, as `requested`.
abbrev pub Accepts : Env → Cluster → ℤ → List Entry → State → Links → Type 0
Accepts env c source es s requested =
    (is_known_instance (get source c.instances) ≡ true)
    × (normalize (gateway_names_for env.mode) source es [] ≡ inr requested)
    × (mode_violation env.ids env.mode source s.links requested ≡ none)

-- The answer says that the links are on disk.
abbrev pub is_written : Answer → Bool
is_written (refused r) = false
is_written (not_written e) = false
is_written (saved_not_pushed e) = true
is_written saved = true

-- The request is refused and the state stays, or it is accepted and applied.
abbrev pub Outcome : Env → Cluster → ℤ → List Entry → State → State × Answer → Type 0
Outcome env c source es s r =
    ((why : Refusal) × (r ≡ (s, refused why)))
    ⊎ ((requested : Links) × Accepts env c source es s requested
        × (r.0.links ≡ apply_links env.ids source requested s.links)
        × (is_written r.1 ≡ true → r.0.file ≡ some r.0.links))

links-push :
    (env : Env) (c : Cluster) (source : ℤ) (s : State)
    → (push_gateway_config env c source s).0.links ≡ s.links
unfolding push_gateway_config
links-push env c source s = elim (Bool-cases (is_instance_online c source)) [
  | inl e ↦ rw e refl
  | inr e ↦ rw e refl
]

links-persist :
    (env : Env) (c : Cluster) (source : ℤ) (e : Option String) (s : State)
    → (persist_gateway_config env c source e s).0.links ≡ s.links
unfolding persist_gateway_config
links-persist env c source none s = links-push env c source (record s { file = some s.links })
links-persist env c source (some reason) s = refl

file-push :
    (env : Env) (c : Cluster) (source : ℤ) (s : State)
    → (push_gateway_config env c source s).0.file ≡ s.file
unfolding push_gateway_config
file-push env c source s = elim (Bool-cases (is_instance_online c source)) [
  | inl e ↦ rw e refl
  | inr e ↦ rw e refl
]

file-persist :
    (env : Env) (c : Cluster) (source : ℤ) (e : Option String) (s : State)
    → is_written (persist_gateway_config env c source e s).1 ≡ true
    → let s' = (persist_gateway_config env c source e s).0 in s'.file ≡ some s'.links
unfolding persist_gateway_config
file-persist env c source none s h =
    let written = record s { file = some s.links } in
    file-push env c source written ∙ ap some (sym (links-push env c source written))
file-persist env c source (some reason) s h = ground (arith, h)

apply_checked-Outcome :
    (env : Env) (c : Cluster) (source : ℤ) (es : List Entry) (s : State) (requested : Links)
    (v : Option Violation)
    → is_known_instance (get source c.instances) ≡ true
    → normalize (gateway_names_for env.mode) source es [] ≡ inr requested
    → mode_violation env.ids env.mode source s.links requested ≡ v
    → Outcome env c source es s (apply_checked env c source requested v s)
unfolding apply_checked
apply_checked-Outcome env c source es s requested (some v) known e checked = inl (violates v, refl)
apply_checked-Outcome env c source es s requested none known e checked =
    let applied = record s { links = apply_links env.ids source requested s.links } in
    inr (
      requested,
      (known, e, checked),
      links-persist env c source env.write_error applied,
      file-persist env c source env.write_error applied,
    )

after_normalize-Outcome :
    (env : Env) (c : Cluster) (source : ℤ) (es : List Entry) (s : State) (o : Refusal ⊎ Links)
    → is_known_instance (get source c.instances) ≡ true
    → normalize (gateway_names_for env.mode) source es [] ≡ o
    → Outcome env c source es s (after_normalize env c source o s)
unfolding after_normalize
after_normalize-Outcome env c source es s (inl r) known e = inl (r, refl)
after_normalize-Outcome env c source es s (inr requested) known e =
    let v = mode_violation env.ids env.mode source s.links requested in
    apply_checked-Outcome env c source es s requested v known e refl

pub handle_set_gateway_link-Outcome :
    (env : Env) (c : Cluster) (source : ℤ) (es : List Entry) (s : State)
    → Outcome env c source es s (handle_set_gateway_link env c source es s)
unfolding handle_set_gateway_link
handle_set_gateway_link-Outcome env c source [] s = inl (no_gateways, refl)
handle_set_gateway_link-Outcome env c source (e ∷ es) s =
    let o = normalize (gateway_names_for env.mode) source (e ∷ es) [] in
    elim (Bool-cases (is_known_instance (get source c.instances))) [
      | inr unknown ↦ inl (unknown_source source, rw unknown refl)
      | inl known ↦
          let step : handle_set_gateway_link env c source (e ∷ es) s
              ≡ after_normalize env c source o s =
            rw known refl in
          subst (λ r. Outcome env c source (e ∷ es) s r) (sym step)
            (after_normalize-Outcome env c source (e ∷ es) s o known refl)
    ]
