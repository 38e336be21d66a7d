-- ===== src/Graph/Mirrored.antt =====
-- Links go both ways: web/gateway/gateway-graph.ts, applyConnect and applyDisconnect.
use clusterio_surface_export.Prelude.{
  String, ◌≡◌, sym, ap, ◌∙◌, Bool, true, false, not, ◌&&◌, ◌||◌, ◌==◌, string_eq, if◌then◌else◌,
  is_empty, arith, Bool-cases, inl, inr,
}
use clusterio_surface_export.Prelude.Int.{ℤ, int_eq}
use clusterio_surface_export.Gateways.{GatewayLink, IdText}
use clusterio_surface_export.Gateways.Keys.{ReadsBack}
use clusterio_surface_export.Graph.{
  Edits, with_target, without_target, ConnectRequest, link_to, change_both, apply_connect,
  apply_disconnect,
}
use clusterio_surface_export.Graph.Linked.{
  is_linked, is_that, is_end, any-with_target, any-without_target, is_linked-change_both,
}

abbrev pub Mirrored : IdText → Edits → Type 0
Mirrored ids edits =
    (i j : ℤ) (a b : String) → is_linked ids edits i a j b ≡ is_linked ids edits j b i a

is_that-is_end : (end : GatewayLink) (i : ℤ) (a : String) → is_that end i a ≡ is_end end i a
is_that-is_end end i a = ground arith

abbrev after_change : (Bool → Bool → Bool) → Bool → Bool → Bool → Bool → Bool → Bool
after_change op linked at_target at_source to_source to_target =
    if at_target then op linked to_source else if at_source then op linked to_target else linked

-- At two gateways: t and s say whether the first is the target and the source of the request, u and
-- v whether the second is.
both_ways_added :
    (l t s u v : Bool)
    → t && s ≡ false
    → u && v ≡ false
    → after_change ◌||◌ l t s v u ≡ after_change ◌||◌ l u v s t
both_ways_added l t s u v h g = ground arith

both_ways_dropped :
    (l t s u v : Bool)
    → (t ≡ true → u ≡ true → s ≡ v)
    → after_change (λ x. λ y. x && not y) l t s v u ≡ after_change (λ x. λ y. x && not y) l u v s t
both_ways_dropped l t s u v h = ground (arith, h)

module _ (ids : IdText) (edits : Edits) (q : ConnectRequest) (r : ReadsBack ids) where
  abbrev from_end : GatewayLink
  from_end = link_to q.source_instance_id q.source_gateway

  abbrev to_end : GatewayLink
  to_end = link_to q.target_instance_id q.target_gateway

  -- The changed links at (i, a), all in terms of which ends (i, a) and (j, b) are.
  is_linked-ends :
      (op : Bool → Bool → Bool) (l : Bool) (i j : ℤ) (a b : String)
      → after_change op l
          (is_end to_end i a)
          (is_end from_end i a)
          (is_that from_end j b)
          (is_that to_end j b)
        ≡ after_change op l
            (is_end to_end i a)
            (is_end from_end i a)
            (is_end from_end j b)
            (is_end to_end j b)
  is_linked-ends op l i j a b =
      ap (λ x. after_change op l (is_end to_end i a) (is_end from_end i a) x (is_that to_end j b))
        (is_that-is_end from_end j b)
      ∙ ap
          (λ x. after_change op l (is_end to_end i a) (is_end from_end i a) (is_end from_end j b) x)
          (is_that-is_end to_end j b)

  connect-Mirrored :
      (q.source_instance_id == q.target_instance_id) ≡ false
      → Mirrored ids edits
      → Mirrored ids (change_both with_target ids edits q)
  connect-Mirrored apart before i j a b =
      let linked = is_linked-change_both with_target ◌||◌ any-with_target ids edits q r in
      let l = is_linked ids edits i a j b in
      let l' = is_linked ids edits j b i a in
      linked i j a b
      ∙ is_linked-ends ◌||◌ l i j a b
      ∙ both_ways_added l (is_end to_end i a) (is_end from_end i a) (is_end to_end j b)
          (is_end from_end j b) (ground (arith, apart)) (ground (arith, apart))
      ∙ ap
          (λ x.
            after_change ◌||◌ x (is_end to_end j b) (is_end from_end j b) (is_end from_end i a)
              (is_end to_end i a))
          (before i j a b)
      ∙ sym (is_linked-ends ◌||◌ l' j i b a)
      ∙ sym (linked j i b a)

  one_end :
      (i j : ℤ) (a b : String)
      → is_end to_end i a ≡ true
      → is_end to_end j b ≡ true
      → is_end from_end i a ≡ is_end from_end j b
  one_end i j a b h g =
      let same_id : i ≡ j =
        (int_eq.same_iff i q.target_instance_id).0 (ground (arith, h))
        ∙ sym ((int_eq.same_iff j q.target_instance_id).0 (ground (arith, g))) in
      let same_name : a ≡ b =
        sym ((string_eq.same_iff q.target_gateway a).0 (ground (arith, h)))
        ∙ (string_eq.same_iff q.target_gateway b).0 (ground (arith, g)) in
      ap (λ n. is_end from_end n a) same_id ∙ ap (λ n. is_end from_end j n) same_name

  disconnect-Mirrored : Mirrored ids edits → Mirrored ids (change_both without_target ids edits q)
  disconnect-Mirrored before i j a b =
      let op : Bool → Bool → Bool = λ x. λ y. x && not y in
      let linked = is_linked-change_both without_target op any-without_target ids edits q r in
      let l = is_linked ids edits i a j b in
      let l' = is_linked ids edits j b i a in
      linked i j a b
      ∙ is_linked-ends op l i j a b
      ∙ both_ways_dropped l (is_end to_end i a) (is_end from_end i a) (is_end to_end j b)
          (is_end from_end j b) (one_end i j a b)
      ∙ ap
          (λ x.
            after_change op x (is_end to_end j b) (is_end from_end j b) (is_end from_end i a)
              (is_end to_end i a))
          (before i j a b)
      ∙ sym (is_linked-ends op l' j i b a)
      ∙ sym (linked j i b a)

-- Connecting two gateways and disconnecting them keep every link mirrored: a gateway links to
-- another exactly when that one links back. Instance ids are read back as they are written, with
-- no colon in them.
pub apply-Mirrored :
    (ids : IdText) (edits : Edits) (q : ConnectRequest)
    → ReadsBack ids
    → Mirrored ids edits
    → Mirrored ids (apply_connect ids edits q) × Mirrored ids (apply_disconnect ids edits q)
unfolding apply_connect apply_disconnect
apply-Mirrored ids edits q r before = (
  elim (Bool-cases (q.source_instance_id == q.target_instance_id)) [
    | inl same ↦ rw same before
    | inr apart ↦ elim (Bool-cases (is_empty q.source_gateway || is_empty q.target_gateway)) [
      | inl unnamed ↦ rw (apart, unnamed) before
      | inr named ↦ rw (apart, named) (connect-Mirrored ids edits q r apart before)
    ]
  ],
  disconnect-Mirrored ids edits q r before,
)
