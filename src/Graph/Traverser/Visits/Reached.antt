-- ===== src/Graph/Traverser/Visits/Reached.antt =====
-- What the traversals report, and the invariant behind it.
use function_kubecore_schema.Base.{
  ℕ, suc, ◌≤◌, ◌≡◌, refl, sym, subst, inl, inr, true, false, some, List, [], ◌∷◌, ◌++◌, arith, ℤ,
  pos_part, string_eq, nat_eq, ◌==◌, ==_iff, Bool-cases, Dict, lookup, insert, lookup-insert,
  get_or, Member, All, All-append, All-map, length, length-append, count, count-append,
}
use function_kubecore_schema.Graph.Types.{NodeId, EdgeId, ResourceEdge, ResourceGraph}
use function_kubecore_schema.Graph.Walks.{edges_of}
use function_kubecore_schema.Graph.Traverser.Visits.{
  VisitationStrategy, VisitOrder, TraversalResult, Traversal, is_seen, visit_node, skip_edge,
  traverse_edge, admits, new_traversal,
}

module _ (strategy : VisitationStrategy) (g : ResourceGraph) (max_depth : ℤ) where
  -- A node that the strategy admits, as many steps from a root node as the depth says, over edges and
  -- nodes that the strategy admits.
  pub data Reached : ℕ → NodeId → Type 0 where
    root :
        {n : NodeId}
        → Member n g.metadata.root_nodes
        → admits strategy g max_depth 0 n ≡ true
        → Reached 0 n
    step :
        {depth : ℕ} (n : NodeId) (id : EdgeId) (edge : ResourceEdge)
        → Reached depth n
        → Member id (edges_of g n)
        → lookup id g.edges ≡ some edge
        → strategy.should_traverse_edge edge depth max_depth ≡ true
        → admits strategy g max_depth (suc depth) edge.target ≡ true
        → Reached (suc depth) edge.target

abbrev pub times : NodeId → List NodeId → ℕ
times n ns = count (λ m. m == n) ns

-- The counts are those of the lists, the depth stays in its bound, what is listed for a depth is
-- reached at that depth, and a node is listed twice only if it is a root node.
pub record Reported (strategy : VisitationStrategy) (g : ResourceGraph) (max_depth : ℤ)
    (r : TraversalResult) : Type 0 where
  pub nodes_counted : r.traversal_metadata.statistics.nodes_visited ≡ length r.visited_nodes
  pub edges_counted : r.traversal_metadata.statistics.edges_traversed ≡ length r.visited_edges
  pub depth_bounded : r.max_depth_reached ≤ pos_part max_depth
  pub nodes_reached :
      All
        (λ n. (depth : ℕ) × (depth ≤ r.max_depth_reached) × Reached strategy g max_depth depth n)
        r.visited_nodes
  pub depths_reached :
      (depth : ℕ) → All (Reached strategy g max_depth depth) (get_or depth r.nodes_by_depth [])
  pub visited_once : (n : NodeId) → ¬ Member n g.metadata.root_nodes → times n r.visited_nodes ≤ 1

-- Behind the marks: a node without a mark is not listed.
abbrev pub Inv : VisitationStrategy → ResourceGraph → ℤ → Traversal → Type 0
Inv strategy g max_depth s =
    Reported strategy g max_depth s.result
    × ((n : NodeId) → is_seen s n ≡ false → times n s.result.visited_nodes ≡ 0)

-- A node entered in the group of its depth.
group-All :
    (P : ℕ → NodeId → Type 0) (k : ℕ) (n : NodeId) (m : Dict ℕ (List NodeId))
    → ((d : ℕ) → All (P d) (get_or d m []))
    → P k n
    → (d : ℕ) → All (P d) (get_or d (insert k (get_or k m [] ++ n ∷ []) m) [])
group-All P k n m all p d =
    let grown = get_or k m [] ++ n ∷ [] in
    elim (Bool-cases (k == d)) [
      | inl same ↦
          let e : grown ≡ get_or d (insert k grown m) [] =
            ground (arith, same, lookup-insert k d grown m) in
          subst (λ xs. All (P d) xs) e
            (subst (λ x. All (P x) grown) ((==_iff k d).0 same)
              (All-append (P k) (get_or k m []) (n ∷ []) (all k) (p, tt)))
      | inr other ↦
          let e : get_or d m [] ≡ get_or d (insert k grown m) [] =
            ground (arith, other, lookup-insert k d grown m) in
          subst (λ xs. All (P d) xs) e (all d)
    ]

module _ (strategy : VisitationStrategy) (g : ResourceGraph) (max_depth : ℤ) where
  pub visit_node-Inv :
      (n : NodeId) (depth : ℕ) (s : Traversal)
      → depth ≤ pos_part max_depth
      → Reached strategy g max_depth depth n
      → (¬ Member n g.metadata.root_nodes → is_seen s n ≡ false)
      → Inv strategy g max_depth s
      → Inv strategy g max_depth (visit_node n depth s)
  visit_node-Inv n depth s bound reached new (r, unmarked) = (
    record {
      nodes_counted =
          ground (arith, r.nodes_counted, length-append s.result.visited_nodes (n ∷ []));
      edges_counted = r.edges_counted;
      depth_bounded = ground (arith, r.depth_bounded);
      nodes_reached =
          All-append _ s.result.visited_nodes (n ∷ [])
            (All-map _ _ s.result.visited_nodes (λ m (d, le, h). (d, ground arith, h))
              r.nodes_reached)
            ((depth, ground arith, reached), tt);
      depths_reached =
          group-All (Reached strategy g max_depth) depth n s.result.nodes_by_depth r.depths_reached
            reached;
      visited_once = λ m other. elim (Bool-cases (n == m)) [
        | inl same ↦ ground (
          arith,
          same,
          ==_iff n m,
          unmarked m (
              subst (λ k. is_seen s k ≡ false) ((==_iff n m).0 same)
                (new (
                  subst (λ k. ¬ Member k g.metadata.root_nodes) (sym ((==_iff n m).0 same))
                    other))),
          count-append (λ k. k == m) s.result.visited_nodes (n ∷ []),
        )
        | inr apart ↦ ground (
          arith,
          apart,
          r.visited_once m other,
          count-append (λ k. k == m) s.result.visited_nodes (n ∷ []),
        )
      ];
    },
    λ m off. ground (
      arith,
      off,
      unmarked m,
      lookup-insert n m true s.visited,
      count-append (λ k. k == m) s.result.visited_nodes (n ∷ []),
    ),
  )

  -- What was skipped, and the size of the queue, do not matter.
  pub Reported-skips :
      (nodes edges : List NodeId) (skipped_nodes skipped_edges size : ℕ) (r : TraversalResult)
      → Reported strategy g max_depth r
      → Reported strategy g max_depth (record r {
        traversal_metadata = record r.traversal_metadata {
          skipped_nodes = nodes;
          skipped_edges = edges;
          statistics = record r.traversal_metadata.statistics {
            nodes_skipped = skipped_nodes;
            edges_skipped = skipped_edges;
            max_queue_size = size;
          };
        };
      })
  Reported-skips nodes edges skipped_nodes skipped_edges size r h = record {
    nodes_counted = h.nodes_counted;
    edges_counted = h.edges_counted;
    depth_bounded = h.depth_bounded;
    nodes_reached = h.nodes_reached;
    depths_reached = h.depths_reached;
    visited_once = h.visited_once;
  }

  pub skip_edge-Inv :
      (id : EdgeId) (s : Traversal)
      → Inv strategy g max_depth s
      → Inv strategy g max_depth (skip_edge id s)
  skip_edge-Inv id s (r, unmarked) = (Reported-skips _ _ _ _ _ s.result r, unmarked)

  pub traverse_edge-Inv :
      (id : EdgeId) (s : Traversal)
      → Inv strategy g max_depth s
      → Inv strategy g max_depth (traverse_edge id s)
  traverse_edge-Inv id s (r, unmarked) = (
    record {
      nodes_counted = r.nodes_counted;
      edges_counted =
          ground (arith, r.edges_counted, length-append s.result.visited_edges (id ∷ []));
      depth_bounded = r.depth_bounded;
      nodes_reached = r.nodes_reached;
      depths_reached = r.depths_reached;
      visited_once = r.visited_once;
    },
    unmarked,
  )

  pub new_traversal-Inv : (order : VisitOrder) → Inv strategy g max_depth (new_traversal order g)
  unfolding lookup
  new_traversal-Inv order = (
    record {
      nodes_counted = refl;
      edges_counted = refl;
      depth_bounded = omega arith;
      nodes_reached = tt;
      depths_reached = λ d. tt;
      visited_once = λ n other. omega arith;
    },
    λ n off. refl,
  )
