-- ===== src/Graph/Builder/Validate.antt =====
-- `ValidateGraph` of builder.go. A Go function that appends to `result.Errors` is a function that
-- returns what it appends; warnings likewise.
use function_kubecore_schema.Base.{
  Bool, true, false, not, ◌||◌, Option, none, some, List, [], ◌∷◌, ◌++◌, nat_beq, string_eq, ◌==◌,
  is_some, length, collect, pos, ltb_ℤ, lookup, has, count_values,
}
use function_kubecore_schema.Graph.Types.{
  NodeId, EdgeId, ResourceNode, ResourceEdge, ResourceGraph, ErrorType, WarningType,
  GraphValidationError, GraphValidationWarning, GraphValidationResult,
}

abbrev pub graph_error : ErrorType → GraphValidationError
graph_error t = record { type = t; node_id = none; edge_id = none }

abbrev pub node_error : ErrorType → NodeId → GraphValidationError
node_error t id = record { type = t; node_id = some id; edge_id = none }

abbrev pub edge_error : ErrorType → EdgeId → GraphValidationError
edge_error t id = record { type = t; node_id = none; edge_id = some id }

-- `if !ok { errors = append(errors, e) }`
abbrev pub unless {ℓ} : {A : Type ℓ} → Bool → A → List A
unless true e = []
unless false e = e ∷ []

unfoldable pub validate_node : NodeId → ResourceNode → List GraphValidationError
validate_node id node =
    unless (node.id == id) (node_error ErrorType.node_id_mismatch id)
    ++ (unless (is_some node.resource) (node_error ErrorType.missing_resource id)
        ++ unless (is_some node.metadata) (node_error ErrorType.missing_metadata id))

unfoldable pub validate_node_warnings : NodeId → ResourceNode → List GraphValidationWarning
validate_node_warnings id node =
    unless (not (ltb_ℤ node.discovery_depth (pos 0)))
      (record { type = WarningType.negative_depth; node_id = some id; edge_id = none })

unfoldable pub validate_edge : ResourceGraph → EdgeId → ResourceEdge → List GraphValidationError
validate_edge g id edge =
    unless (edge.id == id) (edge_error ErrorType.edge_id_mismatch id)
    ++ (unless (has edge.source g.nodes) (edge_error ErrorType.missing_source_node id)
        ++ unless (has edge.target g.nodes) (edge_error ErrorType.missing_target_node id))

-- confidences are in hundredths
unfoldable pub validate_edge_warnings : EdgeId → ResourceEdge → List GraphValidationWarning
validate_edge_warnings id edge =
    unless (not (ltb_ℤ edge.confidence (pos 0) || ltb_ℤ (pos 100) edge.confidence))
      (record { type = WarningType.invalid_confidence; node_id = none; edge_id = some id })

-- One edge identifier of an adjacency list: `dangling` if no edge has it, `mismatch` if `end` of
-- the edge is another node.
unfoldable pub judge_listed :
    (ResourceEdge → NodeId)
    → ErrorType
    → ErrorType
    → NodeId
    → Option ResourceEdge
    → List GraphValidationError
judge_listed end dangling mismatch node none = graph_error dangling ∷ []
judge_listed end dangling mismatch node (some edge) =
    unless (end edge == node) (graph_error mismatch)

unfoldable pub validate_listed :
    ResourceGraph
    → (ResourceEdge → NodeId)
    → ErrorType
    → ErrorType
    → NodeId
    → EdgeId
    → List GraphValidationError
unfolding judge_listed
validate_listed g end dangling mismatch node id =
    judge_listed end dangling mismatch node (lookup id g.edges)

unfoldable pub validate_adjacency_entry :
    ResourceGraph
    → (ResourceEdge → NodeId)
    → ErrorType
    → ErrorType
    → ErrorType
    → NodeId × List EdgeId
    → List GraphValidationError
validate_adjacency_entry g end orphaned dangling mismatch (node, ids) =
    unless (has node g.nodes) (graph_error orphaned)
    ++ collect (validate_listed g end dangling mismatch node) ids

unfoldable pub validate_adjacency_lists : ResourceGraph → List GraphValidationError
validate_adjacency_lists g =
    collect
      (validate_adjacency_entry g (λ e. e.source) ErrorType.orphaned_adjacency_entry
        ErrorType.missing_edge_in_adjacency ErrorType.adjacency_source_mismatch)
      g.adjacency_list
    ++ collect
        (validate_adjacency_entry g (λ e. e.target) ErrorType.orphaned_reverse_adjacency_entry
          ErrorType.missing_edge_in_reverse_adjacency ErrorType.reverse_adjacency_target_mismatch)
        g.reverse_adjacency_list

unfoldable pub validate_graph_metadata : ResourceGraph → List GraphValidationError
validate_graph_metadata g =
    unless (nat_beq g.metadata.total_nodes (length g.nodes))
      (graph_error ErrorType.node_count_mismatch)
    ++ (unless (nat_beq g.metadata.total_edges (length g.edges))
          (graph_error ErrorType.edge_count_mismatch)
        ++ collect (λ r. unless (has r g.nodes) (graph_error ErrorType.missing_root_node))
            g.metadata.root_nodes)

unfoldable pub validate_graph_metadata_warnings : ResourceGraph → List GraphValidationWarning
validate_graph_metadata_warnings g =
    unless (nat_beq g.metadata.platform_nodes (count_values (λ n. n.platform) g.nodes))
      (record { type = WarningType.platform_count_mismatch; node_id = none; edge_id = none })

unfoldable pub validation_errors : ResourceGraph → List GraphValidationError
validation_errors g =
    collect (λ entry. validate_node entry.0 entry.1) g.nodes
    ++ (collect (λ entry. validate_edge g entry.0 entry.1) g.edges
        ++ (validate_adjacency_lists g ++ validate_graph_metadata g))

unfoldable pub validation_warnings : ResourceGraph → List GraphValidationWarning
validation_warnings g =
    collect (λ entry. validate_node_warnings entry.0 entry.1) g.nodes
    ++ (collect (λ entry. validate_edge_warnings entry.0 entry.1) g.edges
        ++ validate_graph_metadata_warnings g)

unfoldable pub validate_graph : ResourceGraph → GraphValidationResult
validate_graph g =
    let errors = validation_errors g in
    let warnings = validation_warnings g in
    record {
      valid = elim errors [ [] ↦ true | _ ∷ _ ↦ false ];
      errors = errors;
      warnings = warnings;
      statistics = record {
        nodes_validated = length g.nodes;
        edges_validated = length g.edges;
        error_count = length errors;
        warning_count = length warnings;
      };
    }
