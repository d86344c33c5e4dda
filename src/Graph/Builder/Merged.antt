-- ===== src/Graph/Builder/Merged.antt =====
-- `MergeGraphs` of builder.go on well-formed graphs.
use function_kubecore_schema.Base.{
  ◌≡◌, Bool, true, false, Option, List, [], ◌∷◌, string_eq, inl, inr, Bool-cases, Option-cases, All,
  All-append, Dict, Entries-lookup, lookup, has, get_or,
}
use function_kubecore_schema.Graph.Types.{NodeId, EdgeId, Resource, ResourceEdge, ResourceGraph}
use function_kubecore_schema.Graph.Builder.Keys.{generate_edge_id}
use function_kubecore_schema.Graph.Builder.Defs.{
  new_graph, count_outbound, count_inbound, enter_edge, EdgeSpec, add_edge,
}
use function_kubecore_schema.Graph.Builder.Build.{push_root}
use function_kubecore_schema.Graph.Builder.WellFormed.{WellFormed}
use function_kubecore_schema.Graph.Builder.Preserve.{Grows, WellFormed-new}
use function_kubecore_schema.Graph.Builder.PreserveEdges.{
  Rewrites-trans, update_metadata-Rewrites, enter_edge-WellFormed, Added, known, missing, linked,
  add_edge-Added,
}
use function_kubecore_schema.Graph.Builder.Merge.{
  Seen, spec_of, merge_mapped, merge_edge, merge_edges, merge_all_edges, merge_root, merge_roots,
  merge_all_roots, merge_all_cycles, merge_graphs,
}
use function_kubecore_schema.Graph.Builder.MergedNodes.{
  Gives, Gives-bind, Leads, Leads-grow, Merged, merge_all_nodes-Merged,
}

-- The graph is well-formed, and the map leads to its nodes.
pub record Ready (mapping : Dict NodeId NodeId) (g : ResourceGraph) : Type 0 where
  pub well_formed : WellFormed g
  pub mapped : Leads mapping g.nodes

enter_edge-Grows : (g : ResourceGraph) (e : ResourceEdge) → Grows g.nodes (enter_edge g e).nodes
unfolding enter_edge
enter_edge-Grows g e =
    (Rewrites-trans (update_metadata-Rewrites e.source count_outbound g.nodes)
      (update_metadata-Rewrites e.target count_inbound _)).grows

module _ (mapping : Dict NodeId NodeId) where
  Added-Ready :
      (g : ResourceGraph) (source target : NodeId) (spec : EdgeSpec)
      (r : Option (ResourceGraph × Option ResourceEdge))
      → Ready mapping g
      → Added g source target spec r
      → Gives (λ p. Ready mapping p.0) r
  Added-Ready g source target spec _ m (known e found) = m
  Added-Ready g source target spec _ m (missing h) = m
  Added-Ready g source target spec _ m (linked e absent s t hs ht) = record {
    well_formed = enter_edge-WellFormed g e m.well_formed absent (rw s hs) (rw t ht);
    mapped = Leads-grow mapping g.nodes _ (enter_edge-Grows g e) m.mapped;
  }

  merge_mapped-Ready :
      (s : Seen) (source target : NodeId) (edge : ResourceEdge)
      → Ready mapping s.graph
      → Gives (λ t. Ready mapping t.graph) (merge_mapped s source target edge)
  unfolding merge_mapped
  merge_mapped-Ready s source target edge m =
      let key = generate_edge_id source target edge.field_path in
      elim (Bool-cases (get_or key s.seen false)) [
        | inl seen ↦ rw (seen, merge_mapped) m
        | inr fresh ↦
            rw (fresh, merge_mapped)
              (Gives-bind (λ p. Ready mapping p.0) (λ t. Ready mapping t.graph)
                (add_edge s.graph source target (spec_of edge)) _
                (Added-Ready s.graph source target (spec_of edge) _ m
                  (add_edge-Added s.graph source target (spec_of edge) m.well_formed))
                (λ p m'. m'))
      ]

  merge_edge-Ready :
      (s : Seen) (edge : ResourceEdge)
      → Ready mapping s.graph
      → Gives (λ t. Ready mapping t.graph) (merge_edge mapping s edge)
  unfolding merge_edge
  merge_edge-Ready s edge m = elim (Option-cases (lookup edge.source mapping)) [
    | inl absent ↦ rw (absent, merge_edge) m
    | inr (source, p) ↦ elim (Option-cases (lookup edge.target mapping)) [
      | inl absent ↦ rw (p, merge_edge) (rw (absent, merge_edge) m)
      | inr (target, q) ↦
          rw (p, merge_edge) (rw (q, merge_edge) (merge_mapped-Ready s source target edge m))
    ]
  ]

  merge_edges-Ready :
      (s : Seen) (edges : Dict EdgeId ResourceEdge)
      → Ready mapping s.graph
      → Gives (λ t. Ready mapping t.graph) (merge_edges mapping s edges)
  unfolding merge_edges
  merge_edges-Ready s [] m = m
  merge_edges-Ready s ((id, edge) ∷ rest) m =
      Gives-bind (λ t. Ready mapping t.graph) (λ t. Ready mapping t.graph)
        (merge_edge mapping s edge) (λ s'. merge_edges mapping s' rest) (merge_edge-Ready s edge m)
        (λ s' m'. merge_edges-Ready s' rest m')

  merge_all_edges-Ready :
      (s : Seen) (gs : List ResourceGraph)
      → Ready mapping s.graph
      → Gives (λ t. Ready mapping t.graph) (merge_all_edges mapping s gs)
  unfolding merge_all_edges
  merge_all_edges-Ready s [] m = m
  merge_all_edges-Ready s (g ∷ gs) m =
      Gives-bind (λ t. Ready mapping t.graph) (λ t. Ready mapping t.graph)
        (merge_edges mapping s g.edges) (λ s'. merge_all_edges mapping s' gs)
        (merge_edges-Ready s g.edges m) (λ s' m'. merge_all_edges-Ready s' gs m')

  push_root-Ready :
      (g : ResourceGraph) (id : NodeId)
      → has id g.nodes ≡ true
      → Ready mapping g
      → Ready mapping (push_root g id)
  push_root-Ready g id there m =
      let w = m.well_formed in
      record {
        well_formed = record {
          nodes_ok = w.nodes_ok;
          edges_ok = w.edges_ok;
          adjacency_ok = w.adjacency_ok;
          reverse_ok = w.reverse_ok;
          node_count = w.node_count;
          edge_count = w.edge_count;
          roots_ok = All-append _ _ _ w.roots_ok (there, tt);
        };
        mapped = m.mapped;
      }

  merge_root-Ready :
      (s : Seen) (id : NodeId)
      → Ready mapping s.graph
      → Ready mapping (merge_root mapping s id).graph
  unfolding merge_root
  merge_root-Ready s id m = elim (Option-cases (lookup id mapping)) [
    | inl absent ↦ rw (absent, merge_root) m
    | inr (root, found) ↦ elim (Bool-cases (get_or root s.seen false)) [
      | inl seen ↦ rw (found, merge_root) (rw (seen, merge_root) m)
      | inr fresh ↦
          rw (found, merge_root)
            (rw (fresh, merge_root)
              (push_root-Ready s.graph root (Entries-lookup _ id mapping root m.mapped found) m))
    ]
  ]

  merge_roots-Ready :
      (s : Seen) (ids : List NodeId)
      → Ready mapping s.graph
      → Ready mapping (merge_roots mapping s ids).graph
  unfolding merge_roots
  merge_roots-Ready s [] m = m
  merge_roots-Ready s (id ∷ ids) m =
      merge_roots-Ready (merge_root mapping s id) ids (merge_root-Ready s id m)

  merge_all_roots-Ready :
      (s : Seen) (gs : List ResourceGraph)
      → Ready mapping s.graph
      → Ready mapping (merge_all_roots mapping s gs).graph
  unfolding merge_all_roots
  merge_all_roots-Ready s [] m = m
  merge_all_roots-Ready s (g ∷ gs) m =
      merge_all_roots-Ready (merge_roots mapping s g.metadata.root_nodes) gs
        (merge_roots-Ready s g.metadata.root_nodes m)

  merge_all_cycles-WellFormed :
      (gs : List ResourceGraph) (merged : ResourceGraph)
      → WellFormed merged
      → WellFormed (merge_all_cycles mapping merged gs)
  unfolding merge_all_cycles
  merge_all_cycles-WellFormed [] merged w = w
  merge_all_cycles-WellFormed (g ∷ gs) merged w = merge_all_cycles-WellFormed gs _ (record {
    nodes_ok = w.nodes_ok;
    edges_ok = w.edges_ok;
    adjacency_ok = w.adjacency_ok;
    reverse_ok = w.reverse_ok;
    node_count = w.node_count;
    edge_count = w.edge_count;
    roots_ok = w.roots_ok;
  })

-- `MergeGraphs` of well-formed graphs never panics, and the graph that it returns is well-formed.
pub merge_graphs-WellFormed :
    (is_platform : Resource → Bool) (gs : List ResourceGraph)
    → All WellFormed gs
    → Gives WellFormed (merge_graphs is_platform gs)
unfolding merge_graphs
merge_graphs-WellFormed is_platform [] ok = WellFormed-new
merge_graphs-WellFormed is_platform (g ∷ []) ok = ok.0
merge_graphs-WellFormed is_platform (g ∷ h ∷ gs) ok =
    let graphs = g ∷ h ∷ gs in
    let start : Merged (record { graph = new_graph; node_mapping = []; uid_to_node_id = [] }) =
      record { well_formed = WellFormed-new; mapped = tt; by_uid = tt } in
    Gives-bind Merged WellFormed _ _ (merge_all_nodes-Merged is_platform _ graphs ok start) (λ s m.
      Gives-bind (λ t. Ready s.node_mapping t.graph) WellFormed _ _
        (merge_all_edges-Ready s.node_mapping _ graphs
          (record { well_formed = m.well_formed; mapped = m.mapped }))
        (λ t r.
          merge_all_cycles-WellFormed s.node_mapping graphs _
            (merge_all_roots-Ready s.node_mapping (record { graph = t.graph; seen = [] }) graphs
              r).well_formed))
