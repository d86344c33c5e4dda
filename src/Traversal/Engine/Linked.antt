-- ===== src/Traversal/Engine/Linked.antt =====
-- `addReferencesToGraph` of engine.go: it does not panic, and keeps the graph well-formed and its nodes.
use function_kubecore_schema.Base.{
  ◌≡◌, refl, ◌∙◌, String, Bool, true, ◌&&◌, Option, none, some, List, [], ◌∷◌, arith, string_eq,
  ◌==◌, if◌then◌else◌, Bool-cases, Option-cases, inl, inr, Dict, lookup, has, has-insert_if, ==_iff,
  ℤ,
}
use function_kubecore_schema.Graph.Types.{
  NodeId, ResourceNode, NodeMetadata, ResourceEdge, ResourceGraph, Resource,
}
use function_kubecore_schema.Graph.Builder.Keys.{generate_node_id}
use function_kubecore_schema.Graph.Builder.Defs.{
  ReferenceField, update_metadata, enter_edge, enter_node, add_node, EdgeSpec, add_edge,
}
use function_kubecore_schema.Graph.Builder.Build.{◌>>=◌}
use function_kubecore_schema.Graph.Builder.WellFormed.{WellFormed}
use function_kubecore_schema.Graph.Builder.PreserveEdges.{
  Added, known, missing, linked, add_edge-Added, add_edge-WellFormed, GraphIs,
}
use function_kubecore_schema.Graph.Builder.MergedNodes.{Gives}
use function_kubecore_schema.Traversal.Engine.{
  target_resource_id, reference_spec, add_fields, add_references_to_graph,
}

-- The same nodes, by their identifiers.
abbrev pub SameNodes : ResourceGraph → ResourceGraph → Type 0
SameNodes g g' = (id : NodeId) → has id g'.nodes ≡ has id g.nodes

has-update_metadata :
    (k id : NodeId) (f : NodeMetadata → NodeMetadata) (nodes : Dict NodeId ResourceNode)
    → has id (update_metadata k f nodes) ≡ has id nodes
unfolding update_metadata
has-update_metadata k id f nodes = elim (Option-cases (lookup k nodes)) [
  | inl absent ↦ rw (absent, update_metadata) refl
  | inr (node, found) ↦ elim (Option-cases node.metadata) [
    | inl bare ↦ rw (found, update_metadata) (rw (bare, update_metadata) refl)
    | inr (m, e) ↦
        rw (found, update_metadata)
          (rw (e, update_metadata)
            (has-insert_if k id (record node { metadata = some (f m) }) nodes
              ∙ ground (arith, ==_iff k id, found)))
  ]
]

enter_edge-SameNodes : (g : ResourceGraph) (e : ResourceEdge) → SameNodes g (enter_edge g e)
unfolding enter_edge
enter_edge-SameNodes g e id =
    has-update_metadata e.target id _ _ ∙ has-update_metadata e.source id _ g.nodes

Added-SameNodes :
    {g : ResourceGraph} {source target : NodeId} {spec : EdgeSpec}
    {r : Option (ResourceGraph × Option ResourceEdge)}
    → Added g source target spec r
    → GraphIs (SameNodes g) r
Added-SameNodes (known e found) = λ id. refl
Added-SameNodes (missing h) = λ id. refl
Added-SameNodes {g} (linked e absent s t hs ht) = enter_edge-SameNodes g e

-- Well-formed, with the nodes of `g`.
abbrev pub Extends : ResourceGraph → ResourceGraph → Type 0
Extends g g' = WellFormed g' × SameNodes g g'

after :
    (g g' : ResourceGraph) (m : Option ResourceGraph)
    → SameNodes g g'
    → Gives (Extends g') m
    → Gives (Extends g) m
after g g' none s h = h
after g g' (some g'') s (w, t) = (w, λ id. t id ∙ s id)

Extends-edge :
    (g : ResourceGraph) (m : Option (ResourceGraph × Option ResourceEdge))
    (f : ResourceGraph → Option ResourceGraph)
    → GraphIs WellFormed m
    → GraphIs (SameNodes g) m
    → ((g' : ResourceGraph) → WellFormed g' → Gives (Extends g') (f g'))
    → Gives (Extends g) (m >>= λ r. f r.0)
Extends-edge g none f w s k = absurd w
Extends-edge g (some (g', e)) f w s k = after g g' (f g') s (k g' w)

add_fields-Extends :
    (source : NodeId) (refs : List ReferenceField) (g : ResourceGraph)
    → WellFormed g
    → Gives (Extends g) (add_fields source refs g)
unfolding add_fields
add_fields-Extends source [] g w = (w, λ id. refl)
add_fields-Extends source (ref ∷ refs) g w =
    let target = target_resource_id ref in
    elim (Bool-cases (has source g.nodes && has target g.nodes)) [
      | inl both ↦
          rw (both, add_fields)
            (Extends-edge g (add_edge g source target (reference_spec ref)) (add_fields source refs)
              (add_edge-WellFormed g source target (reference_spec ref) w)
              (Added-SameNodes (add_edge-Added g source target (reference_spec ref) w))
              (λ g' w'. add_fields-Extends source refs g' w'))
      | inr apart ↦ rw (apart, add_fields) (add_fields-Extends source refs g w)
    ]

Extends-bind :
    (g : ResourceGraph) (m : Option ResourceGraph) (f : ResourceGraph → Option ResourceGraph)
    → Gives (Extends g) m
    → ((g' : ResourceGraph) → WellFormed g' → Gives (Extends g') (f g'))
    → Gives (Extends g) (m >>= f)
Extends-bind g none f h k = absurd h
Extends-bind g (some g') f (w, s) k = after g g' (f g') s (k g' w)

pub add_references-Extends :
    (references : Dict String (List ReferenceField)) (g : ResourceGraph)
    → WellFormed g
    → Gives (Extends g) (add_references_to_graph references g)
unfolding add_references_to_graph
add_references-Extends [] g w = (w, λ id. refl)
add_references-Extends ((source, refs) ∷ rest) g w =
    Extends-bind g (add_fields source refs g) (add_references_to_graph rest)
      (add_fields-Extends source refs g w) (λ g' w'. add_references-Extends rest g' w')

-- `AddNode` adds the node of the resource.
pub has-add_node :
    (is_platform : Resource → Bool) (g : ResourceGraph) (r : Resource) (depth : ℤ)
    (path : List NodeId) (id : NodeId)
    → has id (add_node is_platform g r depth path).0.nodes
      ≡ (if generate_node_id r == id then true else has id g.nodes)
unfolding add_node enter_node
has-add_node is_platform g r depth path id =
    elim (Option-cases (lookup (generate_node_id r) g.nodes)) [
      | inl absent ↦ rw (absent, add_node) (has-insert_if (generate_node_id r) id _ g.nodes)
      | inr (old, found) ↦ rw (found, add_node) (has-insert_if (generate_node_id r) id _ g.nodes)
    ]
