-- ===== src/Graph/Traverser/AllPaths/Simple.antt =====
-- The simple paths of a graph: what `FindAllPaths` is to find.
use function_kubecore_schema.Base.{
  ℕ, ◌≤◌, ◌≡◌, ◌≢◌, none, some, List, [], ◌∷◌, ◌++◌, string_eq, length, lookup, Member,
}
use function_kubecore_schema.Graph.Types.{NodeId, EdgeId, ResourceEdge, ResourceGraph}
use function_kubecore_schema.Graph.Walks.{edges_of}
use function_kubecore_schema.Graph.Traverser.AllPaths.{PathResult, path_result}

-- The edges `ids` lead from `u` to the target, each along the adjacency list of the node before it.
-- No node comes twice, none of `on` comes at all, and the target comes only at the end.
abbrev pub Simple : ResourceGraph → NodeId → List NodeId → NodeId → List EdgeId → Type 0
Simple g target on u [] = u ≡ target
Simple g target on u (id ∷ ids) =
    (u ≢ target)
    × Member id (edges_of g u)
    × ((e : ResourceEdge) × (lookup id g.edges ≡ some e)
        × (¬ (Member e.target (u ∷ on)))
        × Simple g target (u ∷ on) e.target ids)

-- The nodes at the ends of edges.
abbrev pub targets : ResourceGraph → List EdgeId → List NodeId
targets g [] = []
targets g (id ∷ ids) =
    let rest = targets g ids in elim (lookup id g.edges) [ none ↦ rest | some e ↦ e.target ∷ rest ]

-- The result for a simple path of at most `left` edges from `u`, behind a path and its edges.
abbrev pub Hit :
    ResourceGraph
    → NodeId
    → ℕ
    → List NodeId
    → NodeId
    → List NodeId
    → List EdgeId
    → PathResult
    → Type 0
Hit g target left on u path edges p =
    (ids : List EdgeId) × (length ids ≤ left)
    × Simple g target on u ids
    × (p ≡ path_result (path ++ targets g ids) (edges ++ ids))
