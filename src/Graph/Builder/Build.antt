-- ===== src/Graph/Builder/Build.antt =====
-- `BuildGraph` of builder.go: the roots, then the edges of each resource's reference fields.
use function_kubecore_schema.Base.{
  String, Bool, Option, none, some, List, [], ◌∷◌, ◌++◌, string_eq, pos, Dict, lookup,
}
use function_kubecore_schema.Graph.Types.{
  NodeId, Resource, SkippedReference, NodeMetadata, ResourceGraph,
}
use function_kubecore_schema.Graph.Builder.Keys.{build_target_resource_key}
use function_kubecore_schema.Graph.Builder.Defs.{
  ReferenceField, map_reference_type, new_graph, add_node, update_metadata, EdgeSpec, add_edge,
}

infixl 5 ◌>>=◌
abbrev pub ◌>>=◌ {ℓ κ} : {A : Type ℓ} {B : Type κ} → Option A → (A → Option B) → Option B
none >>= f = none
some a >>= f = f a

abbrev pub push_root : ResourceGraph → NodeId → ResourceGraph
push_root g id = record g {
  metadata = record g.metadata { root_nodes = g.metadata.root_nodes ++ id ∷ [] };
}

-- one root
unfoldable pub add_root : (Resource → Bool) → ResourceGraph → Resource → ResourceGraph
add_root is_platform g resource =
    let (g', node) = add_node is_platform g resource (pos 0) [] in push_root g' node.id

-- the first loop
unfoldable pub add_roots : (Resource → Bool) → ResourceGraph → List Resource → ResourceGraph
add_roots is_platform g [] = g
add_roots is_platform g (r ∷ rs) = add_roots is_platform (add_root is_platform g r) rs

abbrev pub skipped_reference : ReferenceField → SkippedReference
skipped_reference f = record {
  field_path = f.field_path;
  field_name = f.field_name;
  reason = "target_not_discovered";
  target_kind = f.target_kind;
  target_group = f.target_group;
}

abbrev pub record_skipped : ReferenceField → NodeMetadata → NodeMetadata
record_skipped f m = record m {
  skipped_references = m.skipped_references ++ skipped_reference f ∷ [];
}

abbrev pub edge_spec : ReferenceField → EdgeSpec
edge_spec f = record {
  relation_type = map_reference_type f.ref_type;
  field_path = f.field_path;
  field_name = f.field_name;
  confidence = f.confidence;
}

-- One reference field: an edge if the target is in the graph, a skipped reference if not.
unfoldable pub add_reference :
    ResourceGraph → NodeId → String → ReferenceField → Option ResourceGraph
add_reference g source namespace f =
    let target = build_target_resource_key f.target_kind f.target_group namespace in
    elim (lookup target g.nodes) [
      | some _ ↦ do (g', _) ← add_edge g source target (edge_spec f); some g'
      | none ↦ some (record g { nodes = update_metadata source (record_skipped f) g.nodes })
    ]

-- the inner loop
unfoldable pub add_references :
    ResourceGraph → NodeId → String → List ReferenceField → Option ResourceGraph
add_references g source namespace [] = some g
add_references g source namespace (f ∷ fs) = do
  g' ← add_reference g source namespace f
  add_references g' source namespace fs

-- One entry of the map of references; a read of the namespace of a node without metadata panics.
unfoldable pub add_entry : ResourceGraph → NodeId → List ReferenceField → Option ResourceGraph
add_entry g source fields = elim (lookup source g.nodes) [
  | none ↦ some g
  | some node ↦ elim fields [
    | [] ↦ some g
    | f ∷ fs ↦ do m ← node.metadata; add_references g source m.namespace (f ∷ fs)
  ]
]

-- the second loop
unfoldable pub add_entries :
    ResourceGraph → Dict String (List ReferenceField) → Option ResourceGraph
add_entries g [] = some g
add_entries g ((key, fields) ∷ rest) = do g' ← add_entry g key fields; add_entries g' rest

unfoldable pub build_graph :
    (Resource → Bool) → List Resource → Dict String (List ReferenceField) → Option ResourceGraph
build_graph is_platform roots references =
    add_entries (add_roots is_platform new_graph roots) references
