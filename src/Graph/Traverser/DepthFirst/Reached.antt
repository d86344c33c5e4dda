-- ===== src/Graph/Traverser/DepthFirst/Reached.antt =====
-- What the depth-first traversal reports.
use function_kubecore_schema.Base.{
  ℕ, zero, suc, ◌+◌, ◌≡◌, refl, inl, inr, false, List, [], ◌∷◌, arith, ℤ, pos_part, string_eq,
  nat_eq, ◌==◌, Bool-cases, Option-cases, lookup, Member, length,
}
use function_kubecore_schema.Graph.Types.{NodeId, EdgeId, ResourceGraph}
use function_kubecore_schema.Graph.Walks.{edges_of}
use function_kubecore_schema.Graph.Traverser.Visits.{
  VisitationStrategy, VisitOrder, Traversal, is_seen, visit_node, traverse_edge, admits,
  new_traversal,
}
use function_kubecore_schema.Graph.Traverser.Visits.Reached.{
  Reached, Reported, Inv, visit_node-Inv, skip_edge-Inv, traverse_edge-Inv, new_traversal-Inv,
}
use function_kubecore_schema.Graph.Traverser.DepthFirst.{
  follow_edge, follow_edges, dfs_visit, visit_roots, depth_first_traversal,
}

module _ (strategy : VisitationStrategy) (g : ResourceGraph) (max_depth : ℤ) where
  follow_edge-Inv :
      (visit : NodeId → Traversal → Traversal) (depth : ℕ) (n : NodeId) (id : EdgeId)
      (s : Traversal)
      → ((m : NodeId) (s' : Traversal)
          → Reached strategy g max_depth (suc depth) m
          → is_seen s' m ≡ false
          → Inv strategy g max_depth s'
          → Inv strategy g max_depth (visit m s'))
      → Reached strategy g max_depth depth n
      → Member id (edges_of g n)
      → Inv strategy g max_depth s
      → Inv strategy g max_depth (follow_edge strategy visit g max_depth depth id s)
  unfolding follow_edge
  follow_edge-Inv visit depth n id s v reached listed inv =
      elim (Option-cases (lookup id g.edges)) [
        | inl absent ↦ rw (absent, follow_edge) inv
        | inr (e, found) ↦ elim (Bool-cases (strategy.should_traverse_edge e depth max_depth)) [
          | inr skipped ↦
              rw (found, follow_edge)
                (rw (skipped, follow_edge) (skip_edge-Inv strategy g max_depth id s inv))
          | inl taken ↦ elim (Bool-cases (is_seen s e.target)) [
            | inl seen ↦
                rw (found, follow_edge) (rw (taken, follow_edge) (rw (seen, follow_edge) inv))
            | inr new ↦ elim (Bool-cases (admits strategy g max_depth (suc depth) e.target)) [
              | inr refused ↦
                  rw (found, follow_edge)
                    (rw (taken, follow_edge)
                      (rw (new, follow_edge) (rw (refused, follow_edge) inv)))
              | inl admitted ↦
                  rw (found, follow_edge)
                    (rw (taken, follow_edge)
                      (rw (new, follow_edge)
                        (rw (admitted, follow_edge)
                          (v e.target (traverse_edge id s)
                            (Reached.step n id e reached listed found taken admitted) new
                            (traverse_edge-Inv strategy g max_depth id s inv)))))
            ]
          ]
        ]
      ]

  follow_edges-Inv :
      (visit : NodeId → Traversal → Traversal) (depth : ℕ) (n : NodeId) (ids : List EdgeId)
      (s : Traversal)
      → ((m : NodeId) (s' : Traversal)
          → Reached strategy g max_depth (suc depth) m
          → is_seen s' m ≡ false
          → Inv strategy g max_depth s'
          → Inv strategy g max_depth (visit m s'))
      → Reached strategy g max_depth depth n
      → ((id : EdgeId) → Member id ids → Member id (edges_of g n))
      → Inv strategy g max_depth s
      → Inv strategy g max_depth (follow_edges strategy visit g max_depth depth ids s)
  unfolding follow_edges
  follow_edges-Inv visit depth n [] s v reached listed inv = inv
  follow_edges-Inv visit depth n (id ∷ ids) s v reached listed inv =
      follow_edges-Inv visit depth n ids (follow_edge strategy visit g max_depth depth id s) v
        reached (λ x h. listed x (inr h))
        (follow_edge-Inv visit depth n id s v reached (listed id (inl refl)) inv)

  dfs_visit-Inv :
      (left depth : ℕ) (n : NodeId) (s : Traversal)
      → depth + left ≡ pos_part max_depth
      → Reached strategy g max_depth depth n
      → (¬ Member n g.metadata.root_nodes → is_seen s n ≡ false)
      → Inv strategy g max_depth s
      → Inv strategy g max_depth (dfs_visit strategy g max_depth left depth n s)
  unfolding dfs_visit
  dfs_visit-Inv zero depth n s bound reached new inv =
      visit_node-Inv strategy g max_depth n depth s (omega arith) reached new inv
  dfs_visit-Inv (suc left) depth n s bound reached new inv =
      follow_edges-Inv (λ m s'. dfs_visit strategy g max_depth left (suc depth) m s') depth n
        (edges_of g n) (visit_node n depth s)
        (λ m s' h off inv'. dfs_visit-Inv left (suc depth) m s' (omega arith) h (λ _. off) inv')
        reached (λ id h. h)
        (visit_node-Inv strategy g max_depth n depth s (omega arith) reached new inv)

  visit_roots-Inv :
      (roots : List NodeId) (s : Traversal)
      → ((n : NodeId) → Member n roots → Member n g.metadata.root_nodes)
      → Inv strategy g max_depth s
      → Inv strategy g max_depth (visit_roots strategy g max_depth roots s)
  unfolding visit_roots
  visit_roots-Inv [] s listed inv = inv
  visit_roots-Inv (n ∷ roots) s listed inv = elim (Bool-cases (admits strategy g max_depth 0 n)) [
    | inr refused ↦
        rw (refused, visit_roots) (visit_roots-Inv roots s (λ m h. listed m (inr h)) inv)
    | inl admitted ↦
        let here = listed n (inl refl) in
        rw (admitted, visit_roots)
          (visit_roots-Inv roots (dfs_visit strategy g max_depth (pos_part max_depth) 0 n s)
            (λ m h. listed m (inr h))
            (dfs_visit-Inv (pos_part max_depth) 0 n s (omega arith) (Reached.root here admitted)
              (λ other. absurd (other here)) inv))
  ]

  -- `DepthFirstTraversal` counts the nodes and the edges that it lists. Each node listed, in the order
  -- of the visits and by depth, is as many steps from a root node as its depth says, over edges and
  -- nodes of the graph that the strategy admits, and no depth exceeds the maximum. A node that is not a
  -- root node is listed at most once.
  pub depth_first_traversal-Reported :
      Reported strategy g max_depth (depth_first_traversal strategy g max_depth)
  unfolding depth_first_traversal
  depth_first_traversal-Reported = elim (Bool-cases (length g.metadata.root_nodes == 0)) [
    | inl no_roots ↦ rw no_roots (new_traversal-Inv strategy g max_depth VisitOrder.depth_first).0
    | inr roots ↦
        rw roots
          (visit_roots-Inv g.metadata.root_nodes (new_traversal VisitOrder.depth_first g) (λ n h. h)
            (new_traversal-Inv strategy g max_depth VisitOrder.depth_first)).0
  ]
