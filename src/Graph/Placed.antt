-- ===== src/Graph/Placed.antt =====
-- No two nodes overlap: web/gateway/gateway-graph.ts, buildGraph.
use clusterio_surface_export.Prelude.{
  ℕ, ◌+◌, ◌*◌, ◌≤◌, String, ◌≡◌, refl, arith, Bool, List, [], ◌∷◌, ◌++◌, All, ◌⊎◌, inl, inr,
  All-append, All-map,
}
use clusterio_surface_export.Gateways.{IdText, GatewayMode}
use clusterio_surface_export.Graph.{Edits}
use clusterio_surface_export.Graph.Nodes.{
  GraphTree, GraphInstance, GraphNode, Column, Drawing, column_nodes, nodes_from, columns_of,
  build_graph, drawing_of, column_pitch, column_inset, row_pitch, node_diameter, caption_width,
  caption_height,
}

-- b stands right of a, or under it in the same column; each takes the width and height of its circle
-- and caption.
abbrev pub IsClearOf : GraphNode → GraphNode → Type 0
IsClearOf a b =
    (a.x + caption_width ≤ b.x) ⊎ ((a.x ≡ b.x) × (a.y + node_diameter + caption_height ≤ b.y))

abbrev pub AreClear : List GraphNode → Type 0
AreClear [] = Unit
AreClear (n ∷ ns) = All (IsClearOf n) ns × AreClear ns

abbrev StandsIn : ℕ → ℕ → GraphNode → Type 0
StandsIn column row n = (n.x ≡ column * column_pitch + column_inset) × (row * row_pitch ≤ n.y)

column_nodes-StandsIn :
    (d : Drawing) (k i j : ℕ) (c : Column) (xs : List GraphInstance)
    → j ≤ i
    → All (StandsIn k j) (column_nodes d k i c xs)
column_nodes-StandsIn d k i j c [] h = tt
column_nodes-StandsIn d k i j c (x ∷ xs) h =
    ((refl, omega arith), column_nodes-StandsIn d k (i + 1) j c xs (omega arith))

column_nodes-AreClear :
    (d : Drawing) (k i : ℕ) (c : Column) (xs : List GraphInstance)
    → AreClear (column_nodes d k i c xs)
column_nodes-AreClear d k i c [] = tt
column_nodes-AreClear d k i c (x ∷ xs) = (
  All-map (λ n h. inr (omega (arith, h.0), omega (arith, h.1))) (column_nodes d k (i + 1) c xs)
      (column_nodes-StandsIn d k (i + 1) (i + 1) c xs (omega arith)),
  column_nodes-AreClear d k (i + 1) c xs,
)

abbrev StandsFrom : ℕ → GraphNode → Type 0
StandsFrom column n = column * column_pitch + column_inset ≤ n.x

nodes_from-StandsFrom :
    (d : Drawing) (k j : ℕ) (cs : List Column) → j ≤ k → All (StandsFrom j) (nodes_from d k cs)
nodes_from-StandsFrom d k j [] h = tt
nodes_from-StandsFrom d k j (c ∷ cs) h =
    All-append (StandsFrom j) (column_nodes d k 0 c c.instances) (nodes_from d (k + 1) cs)
      (All-map (λ n s. omega (arith, s.0)) (column_nodes d k 0 c c.instances)
        (column_nodes-StandsIn d k 0 0 c c.instances (omega arith)))
      (nodes_from-StandsFrom d (k + 1) j cs (omega arith))

AreClear-append :
    (xs ys : List GraphNode)
    → AreClear xs
    → AreClear ys
    → All (λ x. All (IsClearOf x) ys) xs
    → AreClear (xs ++ ys)
AreClear-append [] ys hx hy across = hy
AreClear-append (x ∷ xs) ys (here, hx) hy (first, across) =
    (All-append (IsClearOf x) xs ys here first, AreClear-append xs ys hx hy across)

nodes_from-AreClear : (d : Drawing) (k : ℕ) (cs : List Column) → AreClear (nodes_from d k cs)
nodes_from-AreClear d k [] = tt
nodes_from-AreClear d k (c ∷ cs) =
    let mine = column_nodes d k 0 c c.instances in
    let others = nodes_from d (k + 1) cs in
    AreClear-append mine others (column_nodes-AreClear d k 0 c c.instances)
      (nodes_from-AreClear d (k + 1) cs)
      (All-map
        (λ n s.
          All-map (λ m t. inl (omega (arith, s.0, t))) others
            (nodes_from-StandsFrom d (k + 1) (k + 1) cs (omega arith)))
        mine (column_nodes-StandsIn d k 0 0 c c.instances (omega arith)))

-- No two nodes of the graph overlap, with their captions: of any two, the later one stands right of the
-- other or under it.
pub build_graph-AreClear :
    (precedes collates : String → String → Bool) (ids : IdText) (t : GraphTree) (edits : Edits)
    (mode : GatewayMode) (host_filter : String)
    → AreClear (build_graph precedes collates ids t edits mode host_filter).nodes
unfolding build_graph
build_graph-AreClear precedes collates ids t edits mode host_filter =
    let columns = columns_of collates ids t in
    nodes_from-AreClear (drawing_of ids t edits mode host_filter columns) 0 columns
