-- ===== src/Graph/Types.antt =====
-- The data of the resource graph, of pkg/graph/types.go. A Go map is a `Dict`, a pointer that the
-- code compares with nil is an `Option`, a confidence is in hundredths. Timestamps, which no
-- operation of the package reads, and message texts are left out.
use function_kubecore_schema.Base.{ℕ, String, ℤ, Bool, Option, List, Dict}

abbrev pub NodeId : Type 0
NodeId = String

abbrev pub EdgeId : Type 0
EdgeId = String

pub data RelationType : Type 0 where
  owner_ref custom_ref config_map_ref secret_ref service_ref pvc_ref : RelationType

-- A Kubernetes object, as far as the code reads it: what the getters of `unstructured` return.
pub record Resource : Type 0 where
  pub api_version : String
  pub kind : String
  pub namespace : String
  pub name : String
  pub uid : String

pub record SkippedReference : Type 0 where
  pub field_path : String
  pub field_name : String
  pub reason : String
  pub target_kind : String
  pub target_group : String

pub record NodeMetadata : Type 0 where
  pub outbound_reference_count : ℕ
  pub inbound_reference_count : ℕ
  pub skipped_references : List SkippedReference
  pub api_group : String
  pub kind : String
  pub namespace : String
  pub name : String

pub record ResourceNode : Type 0 where
  pub id : NodeId
  pub resource : Option Resource
  pub uid : String
  pub discovery_depth : ℤ
  pub discovery_path : List NodeId
  pub platform : Bool
  pub metadata : Option NodeMetadata

pub record EdgeMetadata : Type 0 where
  pub is_optional : Bool
  pub is_cross_namespace : Bool
  pub target_exists : Bool

pub record ResourceEdge : Type 0 where
  pub id : EdgeId
  pub source : NodeId
  pub target : NodeId
  pub relation_type : RelationType
  pub field_path : String
  pub field_name : String
  pub confidence : ℤ
  pub detection_method : String
  pub metadata : EdgeMetadata

pub record Cycle : Type 0 where
  pub nodes : List NodeId
  pub edges : List EdgeId
  pub cycle_type : String

pub record GraphMetadata : Type 0 where
  pub root_nodes : List NodeId
  pub total_nodes : ℕ
  pub total_edges : ℕ
  pub max_depth : ℤ
  pub platform_nodes : ℕ
  pub external_nodes : ℕ
  pub cycles_detected : List Cycle

pub record ResourceGraph : Type 0 where
  pub nodes : Dict NodeId ResourceNode
  pub edges : Dict EdgeId ResourceEdge
  pub adjacency_list : Dict NodeId (List EdgeId)
  pub reverse_adjacency_list : Dict NodeId (List EdgeId)
  pub metadata : GraphMetadata

-- The `Type` strings of validation errors and warnings.
pub data ErrorType : Type 0 where
  node_id_mismatch missing_resource missing_metadata : ErrorType
  edge_id_mismatch missing_source_node missing_target_node : ErrorType
  orphaned_adjacency_entry missing_edge_in_adjacency adjacency_source_mismatch : ErrorType
  orphaned_reverse_adjacency_entry missing_edge_in_reverse_adjacency : ErrorType
  reverse_adjacency_target_mismatch : ErrorType
  node_count_mismatch edge_count_mismatch missing_root_node : ErrorType

pub data WarningType : Type 0 where
  negative_depth invalid_confidence platform_count_mismatch : WarningType

pub record GraphValidationError : Type 0 where
  pub type : ErrorType
  pub node_id : Option NodeId
  pub edge_id : Option EdgeId

pub record GraphValidationWarning : Type 0 where
  pub type : WarningType
  pub node_id : Option NodeId
  pub edge_id : Option EdgeId

pub record ValidationStatistics : Type 0 where
  pub nodes_validated : ℕ
  pub edges_validated : ℕ
  pub error_count : ℕ
  pub warning_count : ℕ

pub record GraphValidationResult : Type 0 where
  pub valid : Bool
  pub errors : List GraphValidationError
  pub warnings : List GraphValidationWarning
  pub statistics : ValidationStatistics
