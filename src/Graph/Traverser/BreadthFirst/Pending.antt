-- ===== src/Graph/Traverser/BreadthFirst/Pending.antt =====
-- What may still be entered into the queue: the edges listed for the nodes without a mark.
use function_kubecore_schema.Base.{
  ℕ, suc, ◌+◌, ◌≤◌, ◌≡◌, refl, sym, subst, inl, inr, Bool, true, false, some, List, [], ◌∷◌, ◌++◌,
  arith, ℤ, string_eq, ◌==◌, ==_iff, ◌∙◌, if◌then◌else◌, Bool-cases, Option-cases, Dict, lookup,
  insert, lookup-insert, get_or, length, length-append,
}
use function_kubecore_schema.Graph.Types.{NodeId, EdgeId, ResourceNode, ResourceEdge, ResourceGraph}
use function_kubecore_schema.Graph.Walks.{edges_of}
use function_kubecore_schema.Graph.Traverser.Visits.{
  VisitationStrategy, is_seen, admits, traverse_edge,
}
use function_kubecore_schema.Graph.Traverser.BreadthFirst.{
  Search, push_item, count_skipped_edge, skip_node, enqueue_edge, enqueue_edges, listed_edges,
}

module _ (g : ResourceGraph) where
  abbrev pub pending : Dict NodeId Bool → Dict NodeId ResourceNode → ℕ
  pending visited [] = 0
  pending visited ((n, _) ∷ nodes) =
      (if get_or n visited false then 0 else length (edges_of g n)) + pending visited nodes

  pub pending-none : (nodes : Dict NodeId ResourceNode) → pending [] nodes ≡ listed_edges g nodes
  unfolding lookup
  pending-none [] = refl
  pending-none ((n, _) ∷ nodes) = ground (arith, pending-none nodes)

  mark_less :
      (n : NodeId) (visited : Dict NodeId Bool) (nodes : Dict NodeId ResourceNode)
      → pending (insert n true visited) nodes ≤ pending visited nodes
  mark_less n visited [] = omega arith
  mark_less n visited ((m, _) ∷ nodes) =
      ground (arith, mark_less n visited nodes, lookup-insert n m true visited)

  -- A mark takes the edges of its node away.
  pub pending-mark :
      (n : NodeId) (node : ResourceNode) (visited : Dict NodeId Bool)
      (nodes : Dict NodeId ResourceNode)
      → lookup n nodes ≡ some node
      → get_or n visited false ≡ false
      → pending (insert n true visited) nodes + length (edges_of g n) ≤ pending visited nodes
  unfolding lookup
  pending-mark n node visited [] found new = cc
  pending-mark n node visited ((m, _) ∷ nodes) found new = elim (Bool-cases (m == n)) [
    | inl same ↦
        let e = (==_iff m n).0 same in
        ground (
          arith,
          mark_less n visited nodes,
          lookup-insert n m true visited,
          (==_iff n m).1 (sym e),
          subst (λ k. get_or k visited false ≡ false) (sym e) new,
          subst (λ k. length (edges_of g k) ≡ length (edges_of g n)) (sym e) refl,
        )
    | inr other ↦ ground (
      arith,
      other,
      pending-mark n node visited nodes,
      lookup-insert n m true visited,
      found,
      new,
    )
  ]

length-push {ℓ} : {A : Type ℓ} (xs : List A) (x : A) → length (xs ++ x ∷ []) ≡ suc (length xs)
length-push xs x = ground (arith, length-append xs (x ∷ []))

module _ (strategy : VisitationStrategy) (g : ResourceGraph) (max_depth : ℤ) where
  -- To show something of every branch of `enqueue_edge`.
  pub enqueue_edge-cases :
      (P : Search → Type 0) (depth : ℕ) (id : EdgeId) (s : Search)
      → P s
      → P (record s { traversal = count_skipped_edge id s.traversal })
      → ((n : NodeId) → P (record s { traversal = skip_node n s.traversal }))
      → ((edge : ResourceEdge)
          → lookup id g.edges ≡ some edge
          → strategy.should_traverse_edge edge depth max_depth ≡ true
          → admits strategy g max_depth (suc depth) edge.target ≡ true
          → P (
              push_item edge.target
                (suc depth)
                (record s { traversal = traverse_edge id s.traversal })))
      → P (enqueue_edge strategy g max_depth depth id s)
  unfolding enqueue_edge
  enqueue_edge-cases P depth id s same skipped passed pushed =
      elim (Option-cases (lookup id g.edges)) [
        | inl absent ↦ rw (absent, enqueue_edge) same
        | inr (e, found) ↦ elim (Bool-cases (strategy.should_traverse_edge e depth max_depth)) [
          | inr refused ↦ rw (found, enqueue_edge) (rw (refused, enqueue_edge) skipped)
          | inl taken ↦ elim (Option-cases (lookup e.target g.nodes)) [
            | inl no_node ↦
                rw (found, enqueue_edge)
                  (rw (taken, enqueue_edge) (rw (no_node, enqueue_edge) same))
            | inr (node, there) ↦ elim (Bool-cases (is_seen s.traversal e.target)) [
              | inl seen ↦
                  rw (found, enqueue_edge)
                    (rw (taken, enqueue_edge)
                      (rw (there, enqueue_edge) (rw (seen, enqueue_edge) same)))
              | inr new ↦ elim (Bool-cases (strategy.should_visit node (suc depth) max_depth)) [
                | inr closed ↦
                    rw (found, enqueue_edge)
                      (rw (taken, enqueue_edge)
                        (rw (there, enqueue_edge)
                          (rw (new, enqueue_edge) (rw (closed, enqueue_edge) (passed e.target)))))
                | inl visit ↦
                    rw (found, enqueue_edge)
                      (rw (taken, enqueue_edge)
                        (rw (there, enqueue_edge)
                          (rw (new, enqueue_edge)
                            (rw (visit, enqueue_edge)
                              (pushed e found taken (ground (arith, there, visit)))))))
              ]
            ]
          ]
        ]
      ]

  enqueue_edge-keeps :
      (depth : ℕ) (id : EdgeId) (s : Search)
      → (length (enqueue_edge strategy g max_depth depth id s).queue ≤ suc (length s.queue))
        × ((enqueue_edge strategy g max_depth depth id s).traversal.visited ≡ s.traversal.visited)
  enqueue_edge-keeps depth id s =
      enqueue_edge-cases
        (λ s'.
          (length s'.queue ≤ suc (length s.queue)) × (s'.traversal.visited ≡ s.traversal.visited))
        depth id s (omega arith, refl) (omega arith, refl) (λ n. (omega arith, refl))
        (λ e found taken admitted. (
          ground (arith, length-push s.queue (record { node_id = e.target; depth = suc depth })),
          refl,
        ))

  pub enqueue_edges-keeps :
      (depth : ℕ) (ids : List EdgeId) (s : Search)
      → (length (enqueue_edges strategy g max_depth depth ids s).queue
          ≤ length s.queue + length ids)
        × ((enqueue_edges strategy g max_depth depth ids s).traversal.visited ≡ s.traversal.visited)
  unfolding enqueue_edges
  enqueue_edges-keeps depth [] s = (omega arith, refl)
  enqueue_edges-keeps depth (id ∷ ids) s =
      let s' = enqueue_edge strategy g max_depth depth id s in
      let (short, same) = enqueue_edge-keeps depth id s in
      let (rest, kept) = enqueue_edges-keeps depth ids s' in
      (ground (arith, short, rest), kept ∙ same)
