-- ===== src/Graph/Traverser/BreadthFirst.antt =====
-- `BreadthFirstTraversal` and `ForwardTraversal` of traverser.go. The loop over the queue takes fuel:
-- `none` is fuel that ran out. `Parent` and `Path` of an item, which the code never reads, are left out.
pub mod Pending
pub mod Returns
use function_kubecore_schema.Base.{
  ℕ, zero, suc, ◌+◌, Bool, true, false, Option, none, some, List, [], ◌∷◌, ◌++◌, string_eq, nat_eq,
  ◌==◌, if◌then◌else◌, ltb, length, ℤ, pos_part, Dict, lookup,
}
use function_kubecore_schema.Graph.Types.{NodeId, EdgeId, ResourceNode, ResourceGraph}
use function_kubecore_schema.Graph.Walks.{edges_of}
use function_kubecore_schema.Graph.Traverser.Visits.{
  VisitationStrategy, VisitOrder, TraversalResult, Traversal, is_seen, visit_node, skip_edge,
  traverse_edge, admits, new_traversal,
}

pub record TraversalQueueItem : Type 0 where
  pub node_id : NodeId
  pub depth : ℕ

pub record Search : Type 0 where
  pub queue : List TraversalQueueItem
  pub max_queue_size : ℕ
  pub traversal : Traversal

abbrev pub push_item : NodeId → ℕ → Search → Search
push_item n depth s = record s { queue = s.queue ++ (record { node_id = n; depth = depth }) ∷ [] }

-- An edge that the strategy refuses, which this traversal counts.
abbrev pub count_skipped_edge : EdgeId → Traversal → Traversal
count_skipped_edge id t =
    let s = skip_edge id t in
    record s {
      result = record s.result {
        traversal_metadata = record s.result.traversal_metadata {
          statistics = record s.result.traversal_metadata.statistics {
            edges_skipped = suc s.result.traversal_metadata.statistics.edges_skipped;
          };
        };
      };
    }

abbrev pub skip_node : NodeId → Traversal → Traversal
skip_node n s = record s {
  result = record s.result {
    traversal_metadata = record s.result.traversal_metadata {
      skipped_nodes = s.result.traversal_metadata.skipped_nodes ++ n ∷ [];
      statistics = record s.result.traversal_metadata.statistics {
        nodes_skipped = suc s.result.traversal_metadata.statistics.nodes_skipped;
      };
    };
  };
}

-- The body of the loop over the edges of a node of a depth.
unfoldable pub enqueue_edge : VisitationStrategy → ResourceGraph → ℤ → ℕ → EdgeId → Search → Search
enqueue_edge strategy g max_depth depth id s = elim (lookup id g.edges) [
  | none ↦ s
  | some edge ↦ elim (strategy.should_traverse_edge edge depth max_depth) [
    | false ↦ record s { traversal = count_skipped_edge id s.traversal }
    | true ↦ elim (lookup edge.target g.nodes) [
      | none ↦ s
      | some node ↦ elim (is_seen s.traversal edge.target) [
        | true ↦ s
        | false ↦ elim (strategy.should_visit node (suc depth) max_depth) [
          | true ↦
              push_item edge.target (suc depth)
                (record s { traversal = traverse_edge id s.traversal })
          | false ↦ record s { traversal = skip_node edge.target s.traversal }
        ]
      ]
    ]
  ]
]

unfoldable pub enqueue_edges :
    VisitationStrategy → ResourceGraph → ℤ → ℕ → List EdgeId → Search → Search
enqueue_edges strategy g max_depth depth [] s = s
enqueue_edges strategy g max_depth depth (id ∷ ids) s =
    enqueue_edges strategy g max_depth depth ids (enqueue_edge strategy g max_depth depth id s)

abbrev pub update_size : Search → Search
update_size s = record s {
  max_queue_size =
      if ltb s.max_queue_size (length s.queue) then length s.queue else s.max_queue_size;
}

-- A round of the loop over the queue, behind `queue = queue[1:]`. No depth is negative, so that
-- `current.Depth >= maxDepth` compares with zero where the maximum is negative.
unfoldable pub process_item :
    VisitationStrategy → ResourceGraph → ℤ → TraversalQueueItem → Search → Search
process_item strategy g max_depth current s = elim (is_seen s.traversal current.node_id) [
  | true ↦ s
  | false ↦
      let visited = record s { traversal = visit_node current.node_id current.depth s.traversal } in
      elim (ltb current.depth (pos_part max_depth)) [
        | false ↦ visited
        | true ↦
            update_size (
              enqueue_edges strategy g max_depth current.depth (edges_of g current.node_id) visited)
      ]
]

unfoldable pub process_queue : ℕ → VisitationStrategy → ResourceGraph → ℤ → Search → Option Search
process_queue zero strategy g max_depth s = none
process_queue (suc fuel) strategy g max_depth s = elim s.queue [
  | [] ↦ some s
  | current ∷ rest ↦
      process_queue fuel strategy g max_depth
        (process_item strategy g max_depth current (record s { queue = rest }))
]

-- The loop over the root nodes.
unfoldable pub root_items :
    VisitationStrategy → ResourceGraph → ℤ → List NodeId → List TraversalQueueItem
root_items strategy g max_depth [] = []
root_items strategy g max_depth (root ∷ roots) =
    if admits strategy g max_depth 0 root
    then (record { node_id = root; depth = 0 }) ∷ root_items strategy g max_depth roots
    else root_items strategy g max_depth roots

abbrev pub search_from : ResourceGraph → List TraversalQueueItem → Search
search_from g items = record {
  queue = items;
  max_queue_size = length items;
  traversal = new_traversal VisitOrder.breadth_first g;
}

-- `Statistics.MaxQueueSize = maxQueueSize` at the end.
abbrev pub end_search : Search → TraversalResult
end_search s = record s.traversal.result {
  traversal_metadata = record s.traversal.result.traversal_metadata {
    statistics = record s.traversal.result.traversal_metadata.statistics {
      max_queue_size = s.max_queue_size;
    };
  };
}

abbrev pub ended : Option Search → Option TraversalResult
ended none = none
ended (some s) = some (end_search s)

-- The edges listed for the nodes of the graph.
abbrev pub listed_edges : ResourceGraph → Dict NodeId ResourceNode → ℕ
listed_edges g [] = 0
listed_edges g ((n, _) ∷ nodes) = length (edges_of g n) + listed_edges g nodes

-- `BreadthFirstTraversal`. An item is entered for a root node or for an edge of a node visited.
unfoldable pub breadth_first_traversal :
    VisitationStrategy → ResourceGraph → ℤ → Option TraversalResult
breadth_first_traversal strategy g max_depth =
    if length g.metadata.root_nodes == 0
    then some (new_traversal VisitOrder.breadth_first g).result
    else ended (
        process_queue (suc (length g.metadata.root_nodes + listed_edges g g.nodes)) strategy g
          max_depth (search_from g (root_items strategy g max_depth g.metadata.root_nodes)))

-- `ForwardTraversal`, and the graph that it leaves.
unfoldable pub forward_traversal :
    VisitationStrategy → ResourceGraph → List NodeId → ℤ → Option TraversalResult × ResourceGraph
forward_traversal strategy g start_nodes max_depth =
    let started = record g { metadata = record g.metadata { root_nodes = start_nodes } } in
    (
      breadth_first_traversal strategy started max_depth,
      record started { metadata = record started.metadata { root_nodes = g.metadata.root_nodes } },
    )
