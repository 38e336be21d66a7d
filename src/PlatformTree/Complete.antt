-- ===== src/PlatformTree/Complete.antt =====
-- Every live instance stands in the tree once: lib/platform-tree.ts, buildPlatformTree.
use clusterio_surface_export.Prelude.{
  ℕ, ◌+◌, String, ◌≡◌, refl, sym, ap, ◌∙◌, arith, Bool, false, not, Option, none, some, List, [],
  ◌∷◌, ◌++◌, map, filter, sum, Bool-cases, inl, inr, ◌==◌, if◌then◌else◌,
}
use clusterio_surface_export.Prelude.Int.{ℤ, int_eq}
use clusterio_surface_export.Prelude.Sort.{sum-sort_by}
use clusterio_surface_export.JsMap.{JsMap, get, set, values}
use clusterio_surface_export.PlatformTree.{
  InstanceNode, HostNode, Tree, HostEntry, InstanceEntry, TreeEnv, node_of, Nodes, host_node,
  host_nodes_of, under, place_instances, sorted_host, build_platform_tree,
}

module _ (p : InstanceNode → Bool) where
  abbrev weight : InstanceNode → ℕ
  weight n = if p n then 1 else 0

  -- How many nodes pass the test.
  abbrev pub count : List InstanceNode → ℕ
  count ns = sum (map weight ns)

  abbrev pub count_hosts : List HostNode → ℕ
  count_hosts hs = sum (map (λ h. count h.instances) hs)

  abbrev pub count_tree : Tree → ℕ
  count_tree t = count_hosts t.hosts + count t.unassigned_instances

  count-append : (xs ys : List InstanceNode) → count (xs ++ ys) ≡ count xs + count ys
  count-append [] ys = omega arith
  count-append (x ∷ xs) ys = omega (arith, count-append xs ys)

  abbrev count_at : Option HostNode → ℕ
  count_at none = 0
  count_at (some h) = count h.instances

  count_hosts-set :
      (k : ℤ) (h : HostNode) (m : JsMap ℤ HostNode)
      → count_hosts (values (set k h m)) + count_at (get k m)
        ≡ count_hosts (values m) + count h.instances
  count_hosts-set k h [] = omega arith
  count_hosts-set k h ((j, g) ∷ m) = elim (Bool-cases (j == k)) [
    | inl same ↦ rw same (omega arith)
    | inr other ↦ rw other (omega (arith, count_hosts-set k h m))
  ]

  abbrev in_nodes : Nodes → ℕ
  in_nodes m = count_hosts (values m.host_nodes) + count m.unassigned

  in_nodes-under :
      (o : Option HostNode) (n : InstanceNode) (m : Nodes)
      → get n.host_id m.host_nodes ≡ o
      → in_nodes (under o n m) ≡ in_nodes m + count (n ∷ [])
  in_nodes-under none n m e = omega (arith, count-append m.unassigned (n ∷ []))
  in_nodes-under (some h) n m e =
      let h' : HostNode = record h { instances = h.instances ++ n ∷ [] } in
      omega (
        arith,
        count_hosts-set n.host_id h' m.host_nodes,
        ap count_at e,
        count-append h.instances (n ∷ []),
      )

  count_hosts-host_nodes_of :
      (hs : List HostEntry) (m : JsMap ℤ HostNode)
      → count_hosts (values m) ≡ 0
      → count_hosts (values (host_nodes_of hs m)) ≡ 0
  count_hosts-host_nodes_of [] m h = h
  count_hosts-host_nodes_of (x ∷ hs) m h =
      let m' = set x.id (host_node x) m in
      let new : count_hosts (values m') ≡ 0 =
        omega (arith, h, count_hosts-set x.id (host_node x) m) in
      elim (Bool-cases x.is_deleted) [
        | inl gone ↦ rw gone (count_hosts-host_nodes_of hs m h)
        | inr live ↦ rw live (count_hosts-host_nodes_of hs m' new)
      ]

  -- The nodes of the live instances, each once.
  abbrev pub live_nodes : TreeEnv → String → List InstanceEntry → List InstanceNode
  live_nodes v force is = map (node_of v force) (filter (λ i. not i.is_deleted) is)

  in_nodes-place_instances :
      (v : TreeEnv) (force : String) (is : List InstanceEntry) (m : Nodes)
      → in_nodes (place_instances v force is m) ≡ in_nodes m + count (live_nodes v force is)
  in_nodes-place_instances v force [] m = omega arith
  in_nodes-place_instances v force (i ∷ is) m =
      let n = node_of v force i in
      let m' = under (get n.host_id m.host_nodes) n m in
      let rest = live_nodes v force is in
      let placed : Bool → ℕ = λ b. in_nodes (place_instances v force is (if b then m else m')) in
      let live : List InstanceEntry = filter (λ i. not i.is_deleted) is in
      let due : Bool → ℕ =
        λ b. in_nodes m + count (map (node_of v force) (if not b then i ∷ live else live)) in
      let same : placed i.is_deleted ≡ due i.is_deleted = elim (Bool-cases i.is_deleted) [
        | inl gone ↦ ap placed gone ∙ in_nodes-place_instances v force is m ∙ sym (ap due gone)
        | inr kept ↦
            let turn : placed false ≡ due false = omega (
              arith,
              in_nodes-place_instances v force is m',
              in_nodes-under (get n.host_id m.host_nodes) n m refl,
            ) in
            ap placed kept ∙ turn ∙ sym (ap due kept)
      ] in
      same

  count-sorted_hosts :
      (v : TreeEnv) (hs : List HostNode) → count_hosts (map (sorted_host v) hs) ≡ count_hosts hs
  unfolding sorted_host
  count-sorted_hosts v [] = refl
  count-sorted_hosts v (h ∷ hs) = omega (
    arith,
    sum-sort_by (λ a b. v.collates a.instance_name b.instance_name) weight h.instances,
    count-sorted_hosts v hs,
  )

  -- As many nodes of the tree pass any test as nodes of live instances do: every instance that is not
  -- deleted stands in the tree once, and no other does.
  pub count-build_platform_tree :
      (v : TreeEnv) (force : String)
      → count_tree (build_platform_tree v force) ≡ count (live_nodes v force (values v.instances))
  unfolding build_platform_tree
  count-build_platform_tree v force =
      let start : Nodes = record {
        host_nodes = host_nodes_of (values v.hosts) [];
        unassigned = [];
      } in
      let m = place_instances v force (values v.instances) start in
      omega (
        arith,
        sum-sort_by (λ a b. v.collates a.host_name b.host_name) (λ h. count h.instances)
            (map (sorted_host v) (values m.host_nodes)),
        sum-sort_by (λ a b. v.collates a.instance_name b.instance_name) weight m.unassigned,
        count-sorted_hosts v (values m.host_nodes),
        in_nodes-place_instances v force (values v.instances) start,
        count_hosts-host_nodes_of (values v.hosts) [] refl,
      )
