-- ===== src/Graph/Builder/Built.antt =====
-- `BuildGraph` never panics, and `ValidateGraph` accepts what it builds.
use function_kubecore_schema.Base.{
  ◌≡◌, refl, String, Bool, true, Option, none, some, List, [], ◌∷◌, arith, string_eq, inl, inr,
  Option-cases, ℤ, pos, All-append, Dict, lookup, has, has-insert_self, Entries-lookup,
}
use function_kubecore_schema.Graph.Types.{NodeId, Resource, ResourceEdge, ResourceGraph}
use function_kubecore_schema.Graph.Builder.Keys.{generate_node_id, build_target_resource_key}
use function_kubecore_schema.Graph.Builder.Defs.{
  ReferenceField, new_graph, shorten, fresh_node, enter_node, add_node, add_edge,
}
use function_kubecore_schema.Graph.Builder.Build.{
  add_root, add_roots, add_reference, add_references, add_entry, add_entries, build_graph,
  record_skipped, edge_spec, ◌>>=◌,
}
use function_kubecore_schema.Graph.Builder.Validate.{validate_graph}
use function_kubecore_schema.Graph.Builder.WellFormed.{NodeOk, WellFormed, validate_graph-valid_iff}
use function_kubecore_schema.Graph.Builder.Preserve.{
  with_nodes-WellFormed, WellFormed-new, add_node-WellFormed,
}
use function_kubecore_schema.Graph.Builder.PreserveEdges.{
  update_metadata-Rewrites, add_edge-WellFormed, GraphIs, is_some-metadata,
}

-- The call returns, and what it returns has the property.
abbrev pub Yields : (ResourceGraph → Type 0) → Option ResourceGraph → Type 0
Yields P none = ⊥
Yields P (some g) = P g

pub Yields-bind :
    (P Q : ResourceGraph → Type 0) (m : Option ResourceGraph)
    (f : ResourceGraph → Option ResourceGraph)
    → Yields P m
    → ((g : ResourceGraph) → P g → Yields Q (f g))
    → Yields Q (m >>= f)
Yields-bind P Q none f h k = absurd h
Yields-bind P Q (some g) f h k = k g h

pub Yields-edge :
    (P : ResourceGraph → Type 0) (m : Option (ResourceGraph × Option ResourceEdge))
    → GraphIs P m
    → Yields P (m >>= λ r. some r.0)
Yields-edge P none h = absurd h
Yields-edge P (some (g, e)) h = h

-- The node that `AddNode` returns is in the graph.
pub has-add_node :
    (is_platform : Resource → Bool) (g : ResourceGraph) (r : Resource) (depth : ℤ)
    (path : List NodeId)
    → WellFormed g
    → has (add_node is_platform g r depth path).1.id (add_node is_platform g r depth path).0.nodes
      ≡ true
unfolding add_node shorten fresh_node enter_node
has-add_node is_platform g r depth path w =
    let id = generate_node_id r in
    elim (Option-cases (lookup id g.nodes)) [
      | inl absent ↦ rw (absent, add_node) (has-insert_self id _ g.nodes)
      | inr (old, found) ↦
          let ok = Entries-lookup NodeOk id g.nodes old w.nodes_ok found in
          rw (found, add_node)
            (ground (arith, ok.0, has-insert_self id (shorten old depth path) g.nodes))
    ]

add_root-WellFormed :
    (is_platform : Resource → Bool) (g : ResourceGraph) (r : Resource)
    → WellFormed g
    → WellFormed (add_root is_platform g r)
unfolding add_root
add_root-WellFormed is_platform g r w =
    let w' = add_node-WellFormed is_platform g r (pos 0) [] w in
    record {
      nodes_ok = w'.nodes_ok;
      edges_ok = w'.edges_ok;
      adjacency_ok = w'.adjacency_ok;
      reverse_ok = w'.reverse_ok;
      node_count = w'.node_count;
      edge_count = w'.edge_count;
      roots_ok = All-append _ _ _ w'.roots_ok (has-add_node is_platform g r (pos 0) [] w, tt);
    }

pub add_roots-WellFormed :
    (is_platform : Resource → Bool) (g : ResourceGraph) (rs : List Resource)
    → WellFormed g
    → WellFormed (add_roots is_platform g rs)
unfolding add_roots
add_roots-WellFormed is_platform g [] w = w
add_roots-WellFormed is_platform g (r ∷ rs) w =
    add_roots-WellFormed is_platform (add_root is_platform g r) rs
      (add_root-WellFormed is_platform g r w)

add_reference-Yields :
    (g : ResourceGraph) (source : NodeId) (namespace : String) (f : ReferenceField)
    → WellFormed g
    → Yields WellFormed (add_reference g source namespace f)
unfolding add_reference
add_reference-Yields g source namespace f w =
    let target = build_target_resource_key f.target_kind f.target_group namespace in
    elim (Option-cases (lookup target g.nodes)) [
      | inl absent ↦
          let r = update_metadata-Rewrites source (record_skipped f) g.nodes in
          rw (absent, add_reference) (with_nodes-WellFormed g _ w (r.ok w.nodes_ok) r.size r.grows)
      | inr (node, found) ↦
          rw (found, add_reference)
            (Yields-edge WellFormed (add_edge g source target (edge_spec f))
              (add_edge-WellFormed g source target (edge_spec f) w))
    ]

add_references-Yields :
    (g : ResourceGraph) (source : NodeId) (namespace : String) (fs : List ReferenceField)
    → WellFormed g
    → Yields WellFormed (add_references g source namespace fs)
unfolding add_references
add_references-Yields g source namespace [] w = w
add_references-Yields g source namespace (f ∷ fs) w =
    Yields-bind WellFormed WellFormed (add_reference g source namespace f) _
      (add_reference-Yields g source namespace f w)
      (λ g' w'. add_references-Yields g' source namespace fs w')

add_entry-Yields :
    (g : ResourceGraph) (source : NodeId) (fs : List ReferenceField)
    → WellFormed g
    → Yields WellFormed (add_entry g source fs)
unfolding add_entry
add_entry-Yields g source [] w = elim (Option-cases (lookup source g.nodes)) [
  | inl absent ↦ rw (absent, add_entry) w
  | inr (node, found) ↦ rw (found, add_entry) w
]
add_entry-Yields g source (f ∷ fs) w = elim (Option-cases (lookup source g.nodes)) [
  | inl absent ↦ rw (absent, add_entry) w
  | inr (node, found) ↦ elim (Option-cases node.metadata) [
    | inl bare ↦ absurd (ground (arith, is_some-metadata source g.nodes node w.nodes_ok found))
    | inr (m, e) ↦
        rw (found, add_entry)
          (rw (e, ◌>>=◌) (add_references-Yields g source m.namespace (f ∷ fs) w))
  ]
]

add_entries-Yields :
    (g : ResourceGraph) (references : Dict String (List ReferenceField))
    → WellFormed g
    → Yields WellFormed (add_entries g references)
unfolding add_entries
add_entries-Yields g [] w = w
add_entries-Yields g ((key, fields) ∷ rest) w =
    Yields-bind WellFormed WellFormed (add_entry g key fields) _ (add_entry-Yields g key fields w)
      (λ g' w'. add_entries-Yields g' rest w')

Yields-elim :
    (P : ResourceGraph → Type 0) (m : Option ResourceGraph)
    → Yields P m
    → (g : ResourceGraph) × (m ≡ some g) × P g
Yields-elim P none h = absurd h
Yields-elim P (some g) h = (g, refl, h)

-- `BuildGraph` returns a graph, whatever the roots and references, and `ValidateGraph` finds no
-- error in it.
pub build_graph-valid :
    (is_platform : Resource → Bool) (roots : List Resource)
    (references : Dict String (List ReferenceField))
    → (g : ResourceGraph) × (build_graph is_platform roots references ≡ some g)
      × ((validate_graph g).valid ≡ true)
unfolding build_graph
build_graph-valid is_platform roots references =
    let (g, e, w) = Yields-elim WellFormed _ (
      add_entries-Yields (add_roots is_platform new_graph roots) references
        (add_roots-WellFormed is_platform new_graph roots WellFormed-new)) in
    (g, e, (validate_graph-valid_iff g).1 w)
