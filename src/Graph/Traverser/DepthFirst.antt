-- ===== src/Graph/Traverser/DepthFirst.antt =====
-- `DepthFirstTraversal` and `dfsVisit` of traverser.go. `left` is `maxDepth - depth`, and zero where
-- that is negative. The argument `path`, which the code extends and never reads, is left out.
pub mod Reached
use function_kubecore_schema.Base.{
  ℕ, zero, suc, Bool, true, false, Option, none, some, List, [], ◌∷◌, ◌++◌, string_eq,
  if◌then◌else◌, ltb, nat_eq, ◌==◌, length, ℤ, pos_part, Dict, lookup, insert, get_or,
}
use function_kubecore_schema.Graph.Types.{NodeId, EdgeId, ResourceNode, ResourceEdge, ResourceGraph}
use function_kubecore_schema.Graph.Walks.{edges_of}
use function_kubecore_schema.Graph.Traverser.Visits.{
  VisitationStrategy, VisitOrder, TraversalResult, Traversal, is_seen, visit_node, skip_edge,
  traverse_edge, admits, new_traversal,
}

-- The body of the loop over the edges of a node. `visit` is the recursive call.
unfoldable pub follow_edge :
    VisitationStrategy
    → (NodeId → Traversal → Traversal)
    → ResourceGraph
    → ℤ
    → ℕ
    → EdgeId
    → Traversal
    → Traversal
follow_edge strategy visit g max_depth depth id s = elim (lookup id g.edges) [
  | none ↦ s
  | some edge ↦ elim (strategy.should_traverse_edge edge depth max_depth) [
    | false ↦ skip_edge id s
    | true ↦ elim (is_seen s edge.target) [
      | true ↦ s
      | false ↦ elim (admits strategy g max_depth (suc depth) edge.target) [
        | false ↦ s
        | true ↦ visit edge.target (traverse_edge id s)
      ]
    ]
  ]
]

unfoldable pub follow_edges :
    VisitationStrategy
    → (NodeId → Traversal → Traversal)
    → ResourceGraph
    → ℤ
    → ℕ
    → List EdgeId
    → Traversal
    → Traversal
follow_edges strategy visit g max_depth depth [] s = s
follow_edges strategy visit g max_depth depth (id ∷ ids) s =
    follow_edges strategy visit g max_depth depth ids
      (follow_edge strategy visit g max_depth depth id s)

-- `dfsVisit`
unfoldable pub dfs_visit :
    VisitationStrategy → ResourceGraph → ℤ → ℕ → ℕ → NodeId → Traversal → Traversal
dfs_visit strategy g max_depth zero depth n s = visit_node n depth s
dfs_visit strategy g max_depth (suc left) depth n s =
    follow_edges strategy (λ m s'. dfs_visit strategy g max_depth left (suc depth) m s') g max_depth
      depth (edges_of g n) (visit_node n depth s)

-- The loop over the root nodes.
unfoldable pub visit_roots :
    VisitationStrategy → ResourceGraph → ℤ → List NodeId → Traversal → Traversal
visit_roots strategy g max_depth [] s = s
visit_roots strategy g max_depth (root ∷ roots) s = visit_roots strategy g max_depth roots (
    if admits strategy g max_depth 0 root
    then dfs_visit strategy g max_depth (pos_part max_depth) 0 root s
    else s)

-- `DepthFirstTraversal`
unfoldable pub depth_first_traversal : VisitationStrategy → ResourceGraph → ℤ → TraversalResult
depth_first_traversal strategy g max_depth =
    if length g.metadata.root_nodes == 0
    then (new_traversal VisitOrder.depth_first g).result
    else (visit_roots strategy g max_depth g.metadata.root_nodes
        (new_traversal VisitOrder.depth_first g)).result
