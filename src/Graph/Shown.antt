-- ===== src/Graph/Shown.antt =====
-- The page shows a way of an edge where there is a link that way: web/gateway/gateway-graph.ts.
use clusterio_surface_export.Prelude.{
  String, ◌≡◌, refl, ap, ◌∙◌, arith, Bool, true, false, not, ◌&&◌, ◌||◌, List, [], ◌∷◌, any, All,
  ◌==◌, string_eq, or_else, Bool-cases, inl, inr,
}
use clusterio_surface_export.Prelude.Sort.{any-sort_by}
use clusterio_surface_export.JsMap.{JsMap, get, set, values, All-set_entry}
use clusterio_surface_export.Gateways.{IdText}
use clusterio_surface_export.Graph.{Edits, DirectedLink, directed_links}
use clusterio_surface_export.Graph.Edges.{
  GatewayEdge, Endpoint, from_endpoint, to_endpoint, low_of, high_of, new_edge, mark_way, flips,
  link_id, add_link, add_links, build_edges,
}

-- Each edge stands under its own id.
abbrev HasOwnId : JsMap String GatewayEdge → Type 0
HasOwnId m = All (λ p. p.1.id ≡ p.0) m

id-mark_way : (b : Bool) (e : GatewayEdge) → (mark_way b e).id ≡ e.id
id-mark_way true e = refl
id-mark_way false e = refl

id-found :
    (k : String) (fresh : GatewayEdge) (m : JsMap String GatewayEdge)
    → fresh.id ≡ k
    → HasOwnId m
    → (or_else (get k m) fresh).id ≡ k
id-found k fresh [] own h = own
id-found k fresh ((j, e) ∷ m) own (here, h) = elim (Bool-cases (j == k)) [
  | inl same ↦ rw same (here ∙ (string_eq.same_iff j k).0 same)
  | inr other ↦ rw other (id-found k fresh m own h)
]

forward-mark_way : (b : Bool) (e : GatewayEdge) → (mark_way b e).forward ≡ e.forward || not b
forward-mark_way true e = ground arith
forward-mark_way false e = ground arith

reverse-mark_way : (b : Bool) (e : GatewayEdge) → (mark_way b e).reverse ≡ e.reverse || b
reverse-mark_way true e = ground arith
reverse-mark_way false e = ground arith

-- A way of an edge, and the links that go that way.
module _ (way : GatewayEdge → Bool) (goes : Bool → Bool)
    (way-mark : (b : Bool) (e : GatewayEdge) → way (mark_way b e) ≡ way e || goes b) where
  abbrev shows : String → GatewayEdge → Bool
  shows k e = e.id == k && way e

  shows-mark :
      (k j : String) (b : Bool) (e : GatewayEdge)
      → e.id ≡ j
      → shows k (mark_way b e) ≡ shows k e || (j == k && goes b)
  shows-mark k j b e own =
      let both : (x w g : Bool) → x && (w || g) ≡ (x && w) || (x && g) = λ x w g. ground arith in
      ap (λ n. n == k && way (mark_way b e)) (id-mark_way b e)
      ∙ ap (λ w. e.id == k && w) (way-mark b e)
      ∙ both (e.id == k) (way e) (goes b)
      ∙ ap (λ n. (e.id == k && way e) || (n == k && goes b)) own

  any-set_mark :
      (k j : String) (b : Bool) (fresh : GatewayEdge) (m : JsMap String GatewayEdge)
      → fresh.id ≡ j
      → way fresh ≡ false
      → HasOwnId m
      → any (shows k) (values (set j (mark_way b (or_else (get j m) fresh)) m))
        ≡ any (shows k) (values m) || (j == k && goes b)
  any-set_mark k j b fresh [] own off h = ground (arith, shows-mark k j b fresh own, off)
  any-set_mark k j b fresh ((i, e) ∷ m) own off (here, h) = elim (Bool-cases (i == j)) [
    | inl same ↦
        let mine : e.id ≡ j = here ∙ (string_eq.same_iff i j).0 same in
        let swap : (x y z : Bool) → (x || y) || z ≡ (x || z) || y = λ x y z. ground arith in
        rw same (
          ap (λ x. x || any (shows k) (values m)) (shows-mark k j b e mine)
          ∙ swap (shows k e) (j == k && goes b) (any (shows k) (values m)))
    | inr other ↦
        let assoc : (x y z : Bool) → x || (y || z) ≡ (x || y) || z = λ x y z. ground arith in
        let skip : get j ((i, e) ∷ m) ≡ get j m = rw other refl in
        ap (λ o. any (shows k) (values (set j (mark_way b (or_else o fresh)) ((i, e) ∷ m)))) skip
        ∙ rw other (
            ap (λ x. shows k e || x) (any-set_mark k j b fresh m own off h)
            ∙ assoc (shows k e) (any (shows k) (values m)) (j == k && goes b))
  ]

  module _ (precedes : String → String → Bool) (ids : IdText)
      (off : (k : String) (low high : Endpoint) → way (new_edge ids k low high) ≡ false) where
    any-add_links :
        (k : String) (ls : List DirectedLink) (m : JsMap String GatewayEdge)
        → HasOwnId m
        → any (shows k) (values (add_links precedes ids ls m))
          ≡ any (shows k) (values m)
            || any (λ l. link_id precedes ids l == k && goes (flips precedes ids l)) ls
    any-add_links k [] m h = ground arith
    any-add_links k (l ∷ ls) m h =
        let j = link_id precedes ids l in
        let b = flips precedes ids l in
        let low = low_of precedes ids (from_endpoint l) (to_endpoint l) in
        let high = high_of precedes ids (from_endpoint l) (to_endpoint l) in
        let fresh = new_edge ids j low high in
        let e = mark_way b (or_else (get j m) fresh) in
        let own : e.id ≡ j = id-mark_way b (or_else (get j m) fresh) ∙ id-found j fresh m refl h in
        let h' = All-set_entry (λ p. p.1.id ≡ p.0) j e m own h in
        let assoc : (x y z : Bool) → (x || y) || z ≡ x || (y || z) = λ x y z. ground arith in
        let those = any (λ l. link_id precedes ids l == k && goes (flips precedes ids l)) ls in
        any-add_links k ls (add_link precedes ids l m) h'
        ∙ ap (λ x. x || those) (any-set_mark k j b fresh m refl (off j low high) h)
        ∙ assoc (any (shows k) (values m)) (j == k && goes b) those

-- An edge with an id is shown forward exactly where a link has that edge and is not flipped, and in
-- reverse exactly where a link has it and is flipped.
ways-build_edges :
    (precedes collates : String → String → Bool) (ids : IdText) (edits : Edits) (k : String)
    → let es = build_edges precedes collates ids edits in
      let ls = directed_links ids edits in
      (any (λ e. e.id == k && e.forward) es
        ≡ any (λ l. link_id precedes ids l == k && not (flips precedes ids l)) ls)
      × (any (λ e. e.id == k && e.reverse) es
          ≡ any (λ l. link_id precedes ids l == k && flips precedes ids l) ls)
unfolding build_edges
ways-build_edges precedes collates ids edits k =
    let ls = directed_links ids edits in
    let m = values (add_links precedes ids ls []) in
    (
      any-sort_by (λ a b. collates a.id b.id) (λ e. e.id == k && e.forward) m
          ∙ any-add_links (λ e. e.forward) not forward-mark_way precedes ids (λ k low high. refl) k
              ls [] tt,
      any-sort_by (λ a b. collates a.id b.id) (λ e. e.id == k && e.reverse) m
          ∙ any-add_links (λ e. e.reverse) (λ b. b) reverse-mark_way precedes ids
              (λ k low high. refl) k ls [] tt,
    )
