-- ===== src/Graph/Builder/Defs.antt =====
-- The operations of `DefaultGraphBuilder` (builder.go) in state-passing style. A panic by a nil
-- pointer is `none`. `is_platform` is the method of the `PlatformChecker` interface.
use function_kubecore_schema.Base.{
  ◌+◌, String, Bool, true, false, not, Option, none, some, List, [], ◌∷◌, ◌++◌, string_eq, ◌==◌,
  if◌then◌else◌, ltb, length, ℤ, pos, ltb_ℤ, Dict, lookup, insert, get_or,
}
use function_kubecore_schema.Graph.Types.{
  NodeId, RelationType, owner_ref, custom_ref, config_map_ref, secret_ref, service_ref, pvc_ref,
  Resource, NodeMetadata, ResourceNode, ResourceEdge, ResourceGraph,
}
use function_kubecore_schema.Graph.Builder.Keys.{
  generate_node_id, generate_edge_id, extract_api_group,
}

-- dynamic.RefType and dynamic.ReferenceField (pkg/dynamic/types.go)
pub data RefType : Type 0 where
  ref_owner ref_config_map ref_secret ref_service ref_pvc ref_custom : RefType

pub record ReferenceField : Type 0 where
  pub field_path : String
  pub field_name : String
  pub target_kind : String
  pub target_group : String
  pub target_version : String
  pub ref_type : RefType
  pub confidence : ℤ
  pub detection_method : String

unfoldable pub map_reference_type : RefType → RelationType
map_reference_type ref_owner = owner_ref
map_reference_type ref_config_map = config_map_ref
map_reference_type ref_secret = secret_ref
map_reference_type ref_service = service_ref
map_reference_type ref_pvc = pvc_ref
map_reference_type ref_custom = custom_ref

unfoldable pub new_graph : ResourceGraph
new_graph = record {
  nodes = [];
  edges = [];
  adjacency_list = [];
  reverse_adjacency_list = [];
  metadata = record {
    root_nodes = [];
    total_nodes = 0;
    total_edges = 0;
    max_depth = pos 0;
    platform_nodes = 0;
    external_nodes = 0;
    cycles_detected = [];
  };
}

-- An existing node takes over a shorter discovery path.
unfoldable pub shorten : ResourceNode → ℤ → List NodeId → ResourceNode
shorten node depth path =
    if ltb (length path) (length node.discovery_path)
    then record node { discovery_path = path; discovery_depth = depth }
    else node

unfoldable pub fresh_node : Bool → Resource → ℤ → List NodeId → ResourceNode
fresh_node platform resource depth path = record {
  id = generate_node_id resource;
  resource = some resource;
  uid = resource.uid;
  discovery_depth = depth;
  discovery_path = path;
  platform = platform;
  metadata = some (record {
    outbound_reference_count = 0;
    inbound_reference_count = 0;
    skipped_references = [];
    api_group = extract_api_group resource.api_version;
    kind = resource.kind;
    namespace = resource.namespace;
    name = resource.name;
  });
}

-- The part of `AddNode` behind the test for an existing node.
unfoldable pub enter_node : ResourceGraph → NodeId → ResourceNode → ResourceGraph
enter_node g id node = record {
  nodes = insert id node g.nodes;
  edges = g.edges;
  adjacency_list = insert id [] g.adjacency_list;
  reverse_adjacency_list = insert id [] g.reverse_adjacency_list;
  metadata = record g.metadata {
    total_nodes = g.metadata.total_nodes + 1;
    platform_nodes = g.metadata.platform_nodes + (if node.platform then 1 else 0);
    external_nodes = g.metadata.external_nodes + (if node.platform then 0 else 1);
    max_depth =
        if ltb_ℤ g.metadata.max_depth node.discovery_depth
        then node.discovery_depth
        else g.metadata.max_depth;
  };
}

-- `AddNode`, with the node that it returns.
unfoldable pub add_node :
    (Resource → Bool) → ResourceGraph → Resource → ℤ → List NodeId → ResourceGraph × ResourceNode
add_node is_platform g resource depth path =
    let id = generate_node_id resource in
    elim (lookup id g.nodes) [
      | some existing ↦
          let node = shorten existing depth path in
          (record g { nodes = insert id node g.nodes }, node)
      | none ↦
          let node = fresh_node (is_platform resource) resource depth path in
          (enter_node g id node, node)
    ]

-- A write through `node.Metadata` of the node that `nodes` holds under `id`.
unfoldable pub update_metadata :
    NodeId → (NodeMetadata → NodeMetadata) → Dict NodeId ResourceNode → Dict NodeId ResourceNode
update_metadata id f nodes = elim (lookup id nodes) [
  | none ↦ nodes
  | some node ↦ elim node.metadata [
    | none ↦ nodes
    | some m ↦ insert id (record node { metadata = some (f m) }) nodes
  ]
]

abbrev pub count_outbound : NodeMetadata → NodeMetadata
count_outbound m = record m { outbound_reference_count = m.outbound_reference_count + 1 }

abbrev pub count_inbound : NodeMetadata → NodeMetadata
count_inbound m = record m { inbound_reference_count = m.inbound_reference_count + 1 }

unfoldable pub fresh_edge :
    NodeId → NodeId → RelationType → String → String → ℤ → Bool → ResourceEdge
fresh_edge source target relation field_path field_name confidence cross = record {
  id = generate_edge_id source target field_path;
  source = source;
  target = target;
  relation_type = relation;
  field_path = field_path;
  field_name = field_name;
  confidence = confidence;
  detection_method = "reference_field_analysis";
  metadata = record { is_optional = false; is_cross_namespace = cross; target_exists = true };
}

-- The part of `AddEdge` behind its checks.
unfoldable pub enter_edge : ResourceGraph → ResourceEdge → ResourceGraph
enter_edge g e = record {
  nodes = update_metadata e.target count_inbound (update_metadata e.source count_outbound g.nodes);
  edges = insert e.id e g.edges;
  adjacency_list =
      insert e.source (get_or e.source g.adjacency_list [] ++ e.id ∷ []) g.adjacency_list;
  reverse_adjacency_list =
      insert e.target (get_or e.target g.reverse_adjacency_list [] ++ e.id ∷ [])
        g.reverse_adjacency_list;
  metadata = record g.metadata { total_edges = g.metadata.total_edges + 1 };
}

-- What an edge field holds: the parameters of `AddEdge` behind its two nodes.
pub record EdgeSpec : Type 0 where
  pub relation_type : RelationType
  pub field_path : String
  pub field_name : String
  pub confidence : ℤ

-- `AddEdge` between two nodes that exist; it reads the namespaces of both.
unfoldable pub link :
    ResourceGraph
    → NodeId
    → NodeId
    → EdgeSpec
    → ResourceNode
    → ResourceNode
    → Option (ResourceGraph × Option ResourceEdge)
link g source target spec source_node target_node = elim source_node.metadata [
  | none ↦ none
  | some sm ↦ elim target_node.metadata [
    | none ↦ none
    | some tm ↦
        let e =
          fresh_edge source target spec.relation_type spec.field_path spec.field_name
            spec.confidence (not (sm.namespace == tm.namespace)) in
        some (enter_edge g e, some e)
  ]
]

-- `AddEdge`, with the edge that it returns (nil where a node is missing).
unfoldable pub add_edge :
    ResourceGraph → NodeId → NodeId → EdgeSpec → Option (ResourceGraph × Option ResourceEdge)
add_edge g source target spec =
    elim (lookup (generate_edge_id source target spec.field_path) g.edges) [
      | some existing ↦ some (g, some existing)
      | none ↦ elim (lookup source g.nodes) [
        | none ↦ some (g, none)
        | some source_node ↦ elim (lookup target g.nodes) [
          | none ↦ some (g, none)
          | some target_node ↦ link g source target spec source_node target_node
        ]
      ]
    ]
