-- ===== src/Graph/Traverser/Visits.antt =====
-- What the traversals of traverser.go share: the interface of their callers, the result, the visit of a
-- node. The map `visited` and the result, which the code writes in place, are passed along.
-- `MemoryUsage`, which no traversal sets, is left out.
pub mod Reached
use function_kubecore_schema.Base.{
  ℕ, suc, Bool, true, false, Option, none, some, List, [], ◌∷◌, ◌++◌, string_eq, nat_eq,
  if◌then◌else◌, ltb, ℤ, Dict, lookup, insert, get_or,
}
use function_kubecore_schema.Graph.Types.{NodeId, EdgeId, ResourceNode, ResourceEdge, ResourceGraph}

-- The interface that a caller implements, less `GetPriority`, which nothing in the package calls.
pub record VisitationStrategy : Type 0 where
  pub should_visit : ResourceNode → ℕ → ℤ → Bool
  pub should_traverse_edge : ResourceEdge → ℕ → ℤ → Bool

pub data VisitOrder : Type 0 where
  breadth_first depth_first : VisitOrder

pub data TraversalDirection : Type 0 where
  forward reverse bidirectional : TraversalDirection

pub record TraversalStatistics : Type 0 where
  pub nodes_visited : ℕ
  pub edges_traversed : ℕ
  pub nodes_skipped : ℕ
  pub edges_skipped : ℕ
  pub max_queue_size : ℕ

pub record TraversalMetadata : Type 0 where
  pub start_nodes : List NodeId
  pub direction : TraversalDirection
  pub skipped_nodes : List NodeId
  pub skipped_edges : List EdgeId
  pub statistics : TraversalStatistics

pub record TraversalResult : Type 0 where
  pub visited_nodes : List NodeId
  pub visited_edges : List EdgeId
  pub traversal_order : VisitOrder
  pub max_depth_reached : ℕ
  pub nodes_by_depth : Dict ℕ (List NodeId)
  pub traversal_metadata : TraversalMetadata

pub record Traversal : Type 0 where
  pub visited : Dict NodeId Bool
  pub result : TraversalResult

abbrev pub is_seen : Traversal → NodeId → Bool
is_seen s n = get_or n s.visited false

-- What a call does before it looks at the edges.
abbrev pub visit_node : NodeId → ℕ → Traversal → Traversal
visit_node n depth s = record {
  visited = insert n true s.visited;
  result = record s.result {
    visited_nodes = s.result.visited_nodes ++ n ∷ [];
    max_depth_reached =
        if ltb s.result.max_depth_reached depth then depth else s.result.max_depth_reached;
    nodes_by_depth =
        insert depth (get_or depth s.result.nodes_by_depth [] ++ n ∷ []) s.result.nodes_by_depth;
    traversal_metadata = record s.result.traversal_metadata {
      statistics = record s.result.traversal_metadata.statistics {
        nodes_visited = suc s.result.traversal_metadata.statistics.nodes_visited;
      };
    };
  };
}

abbrev pub skip_edge : EdgeId → Traversal → Traversal
skip_edge id s = record s {
  result = record s.result {
    traversal_metadata = record s.result.traversal_metadata {
      skipped_edges = s.result.traversal_metadata.skipped_edges ++ id ∷ [];
    };
  };
}

abbrev pub traverse_edge : EdgeId → Traversal → Traversal
traverse_edge id s = record s {
  result = record s.result {
    visited_edges = s.result.visited_edges ++ id ∷ [];
    traversal_metadata = record s.result.traversal_metadata {
      statistics = record s.result.traversal_metadata.statistics {
        edges_traversed = suc s.result.traversal_metadata.statistics.edges_traversed;
      };
    };
  };
}

-- `targetExists && ShouldVisit(targetNode, depth, maxDepth)`
abbrev pub admits : VisitationStrategy → ResourceGraph → ℤ → ℕ → NodeId → Bool
admits strategy g max_depth depth n = elim (lookup n g.nodes) [
  | none ↦ false
  | some node ↦ strategy.should_visit node depth max_depth
]

abbrev pub new_traversal : VisitOrder → ResourceGraph → Traversal
new_traversal order g = record {
  visited = [];
  result = record {
    visited_nodes = [];
    visited_edges = [];
    traversal_order = order;
    max_depth_reached = 0;
    nodes_by_depth = [];
    traversal_metadata = record {
      start_nodes = g.metadata.root_nodes;
      direction = TraversalDirection.forward;
      skipped_nodes = [];
      skipped_edges = [];
      statistics = record {
        nodes_visited = 0;
        edges_traversed = 0;
        nodes_skipped = 0;
        edges_skipped = 0;
        max_queue_size = 0;
      };
    };
  };
}
