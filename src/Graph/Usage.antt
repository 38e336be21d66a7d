-- ===== src/Graph/Usage.antt =====
-- The edges and the counts agree with the links: web/gateway/gateway-graph.ts.
use clusterio_surface_export.Prelude.{
  ℕ, ◌+◌, String, ◌≡◌, refl, ap, ◌∙◌, arith, Bool, true, false, ◌&&◌, Option, List, [], ◌∷◌, ◌==◌,
  string_eq, if◌then◌else◌, or_else, Bool-cases, inl, inr,
}
use clusterio_surface_export.Prelude.Int.{ℤ, int_eq}
use clusterio_surface_export.JsMap.{JsMap, get, set, get-set}
use clusterio_surface_export.Gateways.{IdText}
use clusterio_surface_export.Graph.{Edits, DirectedLink, directed_links}
use clusterio_surface_export.Graph.Edges.{
  GatewayUsage, Usage, usage_at, bump, one_out, one_in, count_links, gateway_usage,
}

abbrev is_at : ℤ → String → ℤ → String → Bool
is_at i name j other = i == j && name == other

abbrev one_if : Bool → ℕ
one_if true = 1
one_if false = 0

-- How many links start at a gateway, and how many end there.
abbrev pub starts_at : ℤ → String → List DirectedLink → ℕ
starts_at i name [] = 0
starts_at i name (l ∷ ls) =
    one_if (is_at l.from_instance l.from_gateway i name) + starts_at i name ls

abbrev pub ends_at : ℤ → String → List DirectedLink → ℕ
ends_at i name [] = 0
ends_at i name (l ∷ ls) = one_if (is_at l.to_instance l.to_gateway i name) + ends_at i name ls

abbrev entry_in : Option (JsMap String GatewayUsage) → String → GatewayUsage
entry_in o b = or_else (get b (or_else o [])) (record { outgoing = 0; incoming = 0 })

usage_at-bump :
    (change : GatewayUsage → GatewayUsage) (i j : ℤ) (a b : String) (u : Usage)
    → usage_at j b (bump change i a u)
      ≡ (if is_at i a j b then change (usage_at j b u) else usage_at j b u)
usage_at-bump change i j a b u =
    let per = or_else (get i u) [] in
    let e = change (usage_at i a u) in
    ap (λ o. entry_in o b) (get-set i j (set a e per) u) ∙ (elim (Bool-cases (i == j)) [
      | inr apart ↦ rw apart refl
      | inl same ↦
          let here : i ≡ j = (int_eq.same_iff i j).0 same in
          rw same (
            ap (λ o. or_else o (record { outgoing = 0; incoming = 0 })) (get-set a b e per)
            ∙ (elim (Bool-cases (a == b)) [
              | inl named ↦ rw named (
                  ap (λ n. change (usage_at i n u)) ((string_eq.same_iff a b).0 named)
                  ∙ ap (λ n. change (usage_at n b u)) here)
              | inr other ↦ rw other (ap (λ n. usage_at n b u) here)
            ]))
    ])

outgoing-count_links :
    (i : ℤ) (name : String) (ls : List DirectedLink) (u : Usage)
    → (usage_at i name (count_links ls u)).outgoing
      ≡ (usage_at i name u).outgoing + starts_at i name ls
outgoing-count_links i name [] u = omega arith
outgoing-count_links i name (l ∷ ls) u =
    let u' = bump one_out l.from_instance l.from_gateway u in
    let u'' = bump one_in l.to_instance l.to_gateway u' in
    ground (
      arith,
      outgoing-count_links i name ls u'',
      usage_at-bump one_in l.to_instance i l.to_gateway name u',
      usage_at-bump one_out l.from_instance i l.from_gateway name u,
    )

incoming-count_links :
    (i : ℤ) (name : String) (ls : List DirectedLink) (u : Usage)
    → (usage_at i name (count_links ls u)).incoming
      ≡ (usage_at i name u).incoming + ends_at i name ls
incoming-count_links i name [] u = omega arith
incoming-count_links i name (l ∷ ls) u =
    let u' = bump one_out l.from_instance l.from_gateway u in
    let u'' = bump one_in l.to_instance l.to_gateway u' in
    ground (
      arith,
      incoming-count_links i name ls u'',
      usage_at-bump one_in l.to_instance i l.to_gateway name u',
      usage_at-bump one_out l.from_instance i l.from_gateway name u,
    )

pub usage_at-gateway_usage :
    (ids : IdText) (edits : Edits) (i : ℤ) (name : String)
    → let u = usage_at i name (gateway_usage ids edits) in
      let ls = directed_links ids edits in
      (u.outgoing ≡ starts_at i name ls) × (u.incoming ≡ ends_at i name ls)
unfolding gateway_usage
usage_at-gateway_usage ids edits i name =
    let ls = directed_links ids edits in
    (
      omega (arith, outgoing-count_links i name ls []),
      omega (arith, incoming-count_links i name ls []),
    )
