-- ===== src/Graph/Traverser/BreadthFirst/Returns.antt =====
-- The breadth-first traversal returns, and what it reports.
use function_kubecore_schema.Base.{
  ℕ, zero, suc, ◌+◌, ◌≤◌, ◌≡◌, refl, sym, subst, inl, inr, true, false, some, List, [], ◌∷◌, arith,
  ℤ, pos_part, string_eq, nat_eq, ◌==◌, ==_iff, Bool-cases, Option-cases, lookup, Member, All,
  All-append, length, count-append, ltb,
}
use function_kubecore_schema.Graph.Types.{NodeId, EdgeId, ResourceNode, ResourceGraph}
use function_kubecore_schema.Graph.Walks.{edges_of}
use function_kubecore_schema.Graph.Traverser.Visits.{
  VisitationStrategy, VisitOrder, TraversalResult, Traversal, is_seen, visit_node, admits,
  new_traversal,
}
use function_kubecore_schema.Graph.Traverser.Visits.Reached.{
  Reached, Reported, Inv, times, visit_node-Inv, Reported-skips, traverse_edge-Inv,
  new_traversal-Inv,
}
use function_kubecore_schema.Graph.Traverser.BreadthFirst.{
  TraversalQueueItem, Search, enqueue_edge, enqueue_edges, process_item, process_queue, root_items,
  end_search, listed_edges, breadth_first_traversal,
}
use function_kubecore_schema.Graph.Traverser.BreadthFirst.Pending.{
  pending, pending-none, pending-mark, enqueue_edge-cases, enqueue_edges-keeps,
}

module _ (strategy : VisitationStrategy) (g : ResourceGraph) (max_depth : ℤ) where
  abbrev Queued : TraversalQueueItem → Type 0
  Queued i = Reached strategy g max_depth i.depth i.node_id × (i.depth ≤ pos_part max_depth)

  -- No node is listed twice, and every item is reached at its depth.
  abbrev BfsInv : Search → Type 0
  BfsInv s =
      Inv strategy g max_depth s.traversal
      × ((n : NodeId) → times n s.traversal.result.visited_nodes ≤ 1)
      × All Queued s.queue

  admits-found :
      (depth : ℕ) (n : NodeId)
      → admits strategy g max_depth depth n ≡ true
      → (node : ResourceNode) × (lookup n g.nodes ≡ some node)
  admits-found depth n h = elim (Option-cases (lookup n g.nodes)) [
    | inl absent ↦ absurd (ground (arith, absent, h))
    | inr found ↦ found
  ]

  Reached-found :
      (depth : ℕ) (n : NodeId)
      → Reached strategy g max_depth depth n
      → (node : ResourceNode) × (lookup n g.nodes ≡ some node)
  Reached-found _ _ (Reached.root {n} listed h) = admits-found 0 n h
  Reached-found _ _ (Reached.step {depth} n id edge reached listed found taken h) =
      admits-found (suc depth) edge.target h

  enqueue_edges-Inv :
      (depth : ℕ) (n : NodeId) (ids : List EdgeId) (s : Search)
      → Reached strategy g max_depth depth n
      → suc depth ≤ pos_part max_depth
      → ((id : EdgeId) → Member id ids → Member id (edges_of g n))
      → BfsInv s
      → BfsInv (enqueue_edges strategy g max_depth depth ids s)
  unfolding enqueue_edges
  enqueue_edges-Inv depth n [] s reached bound listed inv = inv
  enqueue_edges-Inv depth n (id ∷ ids) s reached bound listed ((r, unmarked), once, queued) =
      enqueue_edges-Inv depth n ids (enqueue_edge strategy g max_depth depth id s) reached bound
        (λ x h. listed x (inr h))
        (enqueue_edge-cases strategy g max_depth BfsInv depth id s ((r, unmarked), once, queued)
          (
            (Reported-skips strategy g max_depth _ _ _ _ _ s.traversal.result r, unmarked),
            once,
            queued,
          )
          (λ m. (
            (Reported-skips strategy g max_depth _ _ _ _ _ s.traversal.result r, unmarked),
            once,
            queued,
          ))
          (λ e found taken admitted. (
            traverse_edge-Inv strategy g max_depth id s.traversal (r, unmarked),
            once,
            All-append Queued s.queue _ queued (
              (Reached.step n id e reached (listed id (inl refl)) found taken admitted, bound),
              tt,
            ),
          )))

  -- A visit of a node that was not seen lists it for the first time.
  visit_node-once :
      (n : NodeId) (depth : ℕ) (s : Traversal)
      → is_seen s n ≡ false
      → Inv strategy g max_depth s
      → ((m : NodeId) → times m s.result.visited_nodes ≤ 1)
      → (m : NodeId) → times m (visit_node n depth s).result.visited_nodes ≤ 1
  visit_node-once n depth s new (r, unmarked) once m =
      let more = count-append (λ k. k == m) s.result.visited_nodes (n ∷ []) in
      elim (Bool-cases (n == m)) [
        | inl same ↦
            let first = unmarked m (subst (λ k. is_seen s k ≡ false) ((==_iff n m).0 same) new) in
            ground (arith, same, first, more)
        | inr other ↦ ground (arith, other, once m, more)
      ]

  -- A round keeps the invariant, and enters no more items than edges are taken from those pending.
  process_item-Inv :
      (i : TraversalQueueItem) (s : Search)
      → Queued i
      → BfsInv s
      → BfsInv (process_item strategy g max_depth i s)
        × (length (process_item strategy g max_depth i s).queue
              + pending g (process_item strategy g max_depth i s).traversal.visited g.nodes
            ≤ length s.queue + pending g s.traversal.visited g.nodes)
  unfolding process_item
  process_item-Inv i s (reached, bound) (inv, once, queued) =
      elim (Bool-cases (is_seen s.traversal i.node_id)) [
        | inl seen ↦ rw (seen, process_item) ((inv, once, queued), omega arith)
        | inr new ↦
            let visited = record s { traversal = visit_node i.node_id i.depth s.traversal } in
            let kept : BfsInv visited = (
              visit_node-Inv strategy g max_depth i.node_id i.depth s.traversal bound reached
                  (λ _. new) inv,
              visit_node-once i.node_id i.depth s.traversal new inv once,
              queued,
            ) in
            let (node, found) = Reached-found i.depth i.node_id reached in
            let taken = pending-mark g i.node_id node s.traversal.visited g.nodes found new in
            elim (Bool-cases (ltb i.depth (pos_part max_depth))) [
              | inr deep ↦
                  rw (new, process_item) (rw (deep, process_item) (kept, ground (arith, taken)))
              | inl further ↦
                  let ids = edges_of g i.node_id in
                  let (short, same) =
                    enqueue_edges-keeps strategy g max_depth i.depth ids visited in
                  rw (new, process_item)
                    (rw (further, process_item)
                      (
                        enqueue_edges-Inv i.depth i.node_id ids visited reached
                            (ground (arith, further)) (λ id h. h) kept,
                        subst
                            (λ v.
                              length (enqueue_edges strategy g max_depth i.depth ids visited).queue
                                + pending g v g.nodes
                              ≤ length s.queue + pending g s.traversal.visited g.nodes)
                            (sym same) (ground (arith, short, taken)),
                      ))
            ]
      ]

  process_queue-returns :
      (fuel : ℕ) (queue : List TraversalQueueItem) (size : ℕ) (t : Traversal)
      → suc (length queue + pending g t.visited g.nodes) ≤ fuel
      → BfsInv (record { queue = queue; max_queue_size = size; traversal = t })
      → (s : Search) × (process_queue fuel strategy g max_depth
            (record { queue = queue; max_queue_size = size; traversal = t })
          ≡ some s)
        × BfsInv s
  unfolding process_queue
  process_queue-returns zero queue size t enough inv = absurd (omega arith)
  process_queue-returns (suc fuel) [] size t enough inv =
      (record { queue = []; max_queue_size = size; traversal = t }, refl, inv)
  process_queue-returns (suc fuel) (i ∷ rest) size t enough (inv, once, (q, queued)) =
      let s : Search = record { queue = rest; max_queue_size = size; traversal = t } in
      let (kept, less) = process_item-Inv i s q (inv, once, queued) in
      let s' = process_item strategy g max_depth i s in
      process_queue-returns fuel s'.queue s'.max_queue_size s'.traversal (omega arith) kept

  root_items-Queued :
      (roots : List NodeId)
      → ((n : NodeId) → Member n roots → Member n g.metadata.root_nodes)
      → All Queued (root_items strategy g max_depth roots)
        × (length (root_items strategy g max_depth roots) ≤ length roots)
  unfolding root_items
  root_items-Queued [] listed = (tt, omega arith)
  root_items-Queued (n ∷ roots) listed =
      let (queued, short) = root_items-Queued roots (λ m h. listed m (inr h)) in
      elim (Bool-cases (admits strategy g max_depth 0 n)) [
        | inl admitted ↦
            rw (admitted, root_items)
              (((Reached.root (listed n (inl refl)) admitted, omega arith), queued), omega arith)
        | inr refused ↦ rw (refused, root_items) (queued, omega arith)
      ]

  -- `BreadthFirstTraversal` returns: a round for each root node and for each edge that is listed for a
  -- node of the graph, and one more, is enough. It counts the nodes and the edges that it lists. Each
  -- node listed, in the order of the visits and by depth, is as many steps from a root node as its
  -- depth says, over edges and nodes of the graph that the strategy admits, and no depth exceeds the
  -- maximum. No node is listed twice.
  pub breadth_first_traversal-returns :
      (r : TraversalResult) × (breadth_first_traversal strategy g max_depth ≡ some r)
      × Reported strategy g max_depth r
      × ((n : NodeId) → times n r.visited_nodes ≤ 1)
  unfolding breadth_first_traversal
  breadth_first_traversal-returns =
      let new = new_traversal-Inv strategy g max_depth VisitOrder.breadth_first in
      elim (Bool-cases (length g.metadata.root_nodes == 0)) [
        | inl no_roots ↦ (
          (new_traversal VisitOrder.breadth_first g).result,
          rw no_roots refl,
          new.0,
          λ n. omega arith,
        )
        | inr roots ↦
            let items = root_items strategy g max_depth g.metadata.root_nodes in
            let (queued, short) = root_items-Queued g.metadata.root_nodes (λ n h. h) in
            let all = pending-none g g.nodes in
            let (s, ends, ((r, unmarked), once, _)) =
              process_queue-returns (suc (length g.metadata.root_nodes + listed_edges g g.nodes))
                items (length items) (new_traversal VisitOrder.breadth_first g) (omega arith)
                (new, (λ n. omega arith), queued) in
            (
              end_search s,
              rw roots (rw ends refl),
              Reported-skips strategy g max_depth _ _ _ _ s.max_queue_size s.traversal.result r,
              once,
            )
      ]
