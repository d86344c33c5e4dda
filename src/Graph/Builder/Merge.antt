-- ===== src/Graph/Builder/Merge.antt =====
-- `MergeGraphs` of builder.go: the nodes by UID, then the edges, the roots and the cycles, along the
-- map from the nodes of the graphs to those of the result. `none` is a panic.
use function_kubecore_schema.Base.{
  String, Bool, true, false, Option, none, some, List, [], ◌∷◌, ◌++◌, string_eq, if◌then◌else◌,
  Dict, lookup, insert, get_or,
}
use function_kubecore_schema.Graph.Types.{
  NodeId, EdgeId, Resource, ResourceNode, ResourceEdge, Cycle, ResourceGraph,
}
use function_kubecore_schema.Graph.Builder.Keys.{generate_edge_id}
use function_kubecore_schema.Graph.Builder.Defs.{new_graph, shorten, add_node, EdgeSpec, add_edge}
use function_kubecore_schema.Graph.Builder.Build.{◌>>=◌, push_root}

pub record Merging : Type 0 where
  pub graph : ResourceGraph
  pub node_mapping : Dict NodeId NodeId
  pub uid_to_node_id : Dict String NodeId

-- A node whose UID a merged node has, under `existing_id`.
unfoldable pub merge_known : Merging → ResourceNode → NodeId → Option Merging
merge_known s node existing_id = elim (lookup existing_id s.graph.nodes) [
  | none ↦ none
  | some existing ↦ some (record s {
    graph = record s.graph {
      nodes =
          insert existing_id (shorten existing node.discovery_depth node.discovery_path)
            s.graph.nodes;
    };
    node_mapping = insert node.id existing_id s.node_mapping;
  })
]

unfoldable pub merge_new : (Resource → Bool) → Merging → ResourceNode → Resource → Merging
merge_new is_platform s node resource =
    let (g, n) = add_node is_platform s.graph resource node.discovery_depth node.discovery_path in
    record {
      graph = g;
      node_mapping = insert node.id n.id s.node_mapping;
      uid_to_node_id = insert node.uid n.id s.uid_to_node_id;
    }

unfoldable pub merge_node : (Resource → Bool) → Merging → ResourceNode → Option Merging
merge_node is_platform s node = elim (lookup node.uid s.uid_to_node_id) [
  | some existing_id ↦ merge_known s node existing_id
  | none ↦ elim node.resource [
    | none ↦ none
    | some resource ↦ some (merge_new is_platform s node resource)
  ]
]

-- The loops over the nodes
unfoldable pub merge_nodes : (Resource → Bool) → Merging → Dict NodeId ResourceNode → Option Merging
merge_nodes is_platform s [] = some s
merge_nodes is_platform s ((id, node) ∷ rest) = do
  s' ← merge_node is_platform s node
  merge_nodes is_platform s' rest

unfoldable pub merge_all_nodes : (Resource → Bool) → Merging → List ResourceGraph → Option Merging
merge_all_nodes is_platform s [] = some s
merge_all_nodes is_platform s (g ∷ gs) = do
  s' ← merge_nodes is_platform s g.nodes
  merge_all_nodes is_platform s' gs

-- The merged graph, and what was seen of the edges' keys or of the roots.
pub record Seen : Type 0 where
  pub graph : ResourceGraph
  pub seen : Dict String Bool

abbrev pub spec_of : ResourceEdge → EdgeSpec
spec_of e = record {
  relation_type = e.relation_type;
  field_path = e.field_path;
  field_name = e.field_name;
  confidence = e.confidence;
}

-- An edge between two merged nodes. The key of the deduplication has the form of an edge's
-- identifier.
unfoldable pub merge_mapped : Seen → NodeId → NodeId → ResourceEdge → Option Seen
merge_mapped s source target edge =
    let key = generate_edge_id source target edge.field_path in
    if get_or key s.seen false then some s else do
      (g, e) ← add_edge s.graph source target (spec_of edge)
      some (record { graph = g; seen = insert key true s.seen })

unfoldable pub merge_edge : Dict NodeId NodeId → Seen → ResourceEdge → Option Seen
merge_edge mapping s edge = elim (lookup edge.source mapping) [
  | none ↦ some s
  | some source ↦ elim (lookup edge.target mapping) [
    | none ↦ some s
    | some target ↦ merge_mapped s source target edge
  ]
]

unfoldable pub merge_edges : Dict NodeId NodeId → Seen → Dict EdgeId ResourceEdge → Option Seen
merge_edges mapping s [] = some s
merge_edges mapping s ((id, edge) ∷ rest) = do
  s' ← merge_edge mapping s edge
  merge_edges mapping s' rest

unfoldable pub merge_all_edges : Dict NodeId NodeId → Seen → List ResourceGraph → Option Seen
merge_all_edges mapping s [] = some s
merge_all_edges mapping s (g ∷ gs) = do
  s' ← merge_edges mapping s g.edges
  merge_all_edges mapping s' gs

unfoldable pub merge_root : Dict NodeId NodeId → Seen → NodeId → Seen
merge_root mapping s id = elim (lookup id mapping) [
  | none ↦ s
  | some root ↦
      if get_or root s.seen false
      then s
      else record { graph = push_root s.graph root; seen = insert root true s.seen }
]

unfoldable pub merge_roots : Dict NodeId NodeId → Seen → List NodeId → Seen
merge_roots mapping s [] = s
merge_roots mapping s (id ∷ ids) = merge_roots mapping (merge_root mapping s id) ids

unfoldable pub merge_all_roots : Dict NodeId NodeId → Seen → List ResourceGraph → Seen
merge_all_roots mapping s [] = s
merge_all_roots mapping s (g ∷ gs) =
    merge_all_roots mapping (merge_roots mapping s g.metadata.root_nodes) gs

abbrev pub map_nodes : Dict NodeId NodeId → List NodeId → List NodeId
map_nodes mapping [] = []
map_nodes mapping (id ∷ ids) =
    let rest = map_nodes mapping ids in
    elim (lookup id mapping) [ none ↦ rest | some mapped ↦ mapped ∷ rest ]

abbrev pub mapped_cycle : Dict NodeId NodeId → Cycle → Cycle
mapped_cycle mapping c = record {
  nodes = map_nodes mapping c.nodes;
  edges = [];
  cycle_type = c.cycle_type;
}

abbrev pub mapped_cycles : Dict NodeId NodeId → List Cycle → List Cycle
mapped_cycles mapping [] = []
mapped_cycles mapping (c ∷ cs) = mapped_cycle mapping c ∷ mapped_cycles mapping cs

unfoldable pub merge_all_cycles :
    Dict NodeId NodeId → ResourceGraph → List ResourceGraph → ResourceGraph
merge_all_cycles mapping merged [] = merged
merge_all_cycles mapping merged (g ∷ gs) =
    merge_all_cycles mapping
      (record merged {
        metadata = record merged.metadata {
          cycles_detected =
              merged.metadata.cycles_detected ++ mapped_cycles mapping g.metadata.cycles_detected;
        };
      })
      gs

-- `MergeGraphs`
unfoldable pub merge_graphs : (Resource → Bool) → List ResourceGraph → Option ResourceGraph
merge_graphs is_platform [] = some new_graph
merge_graphs is_platform (g ∷ []) = some g
merge_graphs is_platform (g ∷ h ∷ gs) = do
  let graphs = g ∷ h ∷ gs
  s ←
      merge_all_nodes is_platform
        (record { graph = new_graph; node_mapping = []; uid_to_node_id = [] }) graphs
  t ← merge_all_edges s.node_mapping (record { graph = s.graph; seen = [] }) graphs
  let r = merge_all_roots s.node_mapping (record { graph = t.graph; seen = [] }) graphs
  some (merge_all_cycles s.node_mapping r.graph graphs)
