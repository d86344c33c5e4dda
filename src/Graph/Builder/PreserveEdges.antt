-- ===== src/Graph/Builder/PreserveEdges.antt =====
-- `AddEdge` on a well-formed graph: it does not panic, and the graph stays well-formed.
use function_kubecore_schema.Base.{
  ◌≡◌, refl, sym, ◌∙◌, true, false, ◌&&◌, Option, none, some, List, [], ◌∷◌, ◌++◌, arith, string_eq,
  ==_iff, inl, inr, Option-cases, is_some, length, All, All-append, Dict, lookup, insert, has,
  get_or, Entries, lookup-insert, length-insert, Entries-insert, Entries-lookup, has-insert,
}
use function_kubecore_schema.Graph.Types.{
  NodeId, EdgeId, NodeMetadata, ResourceNode, ResourceEdge, ResourceGraph,
}
use function_kubecore_schema.Graph.Builder.Keys.{generate_edge_id}
use function_kubecore_schema.Graph.Builder.Defs.{
  update_metadata, count_outbound, count_inbound, fresh_edge, enter_edge, EdgeSpec, link, add_edge,
}
use function_kubecore_schema.Graph.Builder.WellFormed.{
  NodeOk, EdgeOk, ListedOk, AdjacencyOk, WellFormed,
}
use function_kubecore_schema.Graph.Builder.Preserve.{
  Grows, Keeps, edges-grow, adjacency-grow, roots-grow, length-insert_old,
}

-- A write to a node's metadata keeps the nodes, their number and their identifiers.
pub record Rewrites (nodes nodes' : Dict NodeId ResourceNode) : Type 0 where
  pub ok : Entries NodeOk nodes → Entries NodeOk nodes'
  pub size : length nodes' ≡ length nodes
  pub grows : Grows nodes nodes'

Rewrites-refl : (nodes : Dict NodeId ResourceNode) → Rewrites nodes nodes
Rewrites-refl nodes = record { ok = λ h. h; size = refl; grows = λ j h. h }

pub update_metadata-Rewrites :
    (id : NodeId) (f : NodeMetadata → NodeMetadata) (nodes : Dict NodeId ResourceNode)
    → Rewrites nodes (update_metadata id f nodes)
unfolding update_metadata
update_metadata-Rewrites id f nodes = elim (Option-cases (lookup id nodes)) [
  | inl absent ↦ rw (absent, update_metadata) (Rewrites-refl nodes)
  | inr (node, found) ↦ elim (Option-cases node.metadata) [
    | inl bare ↦ rw (found, update_metadata) (rw (bare, update_metadata) (Rewrites-refl nodes))
    | inr (m, e) ↦
        rw (found, update_metadata)
          (rw (e, update_metadata)
            (record {
              ok = λ h.
                  let old = Entries-lookup NodeOk id nodes node h found in
                  Entries-insert NodeOk id _ nodes (old.0, old.1, refl) h;
              size = length-insert_old id _ nodes node found;
              grows = λ j. has-insert id j _ nodes;
            }))
  ]
]

pub Rewrites-trans : {a b c : Dict NodeId ResourceNode} → Rewrites a b → Rewrites b c → Rewrites a c
Rewrites-trans p q = record {
  ok = λ h. q.ok (p.ok h);
  size = q.size ∙ p.size;
  grows = λ j h. q.grows j (p.grows j h);
}

-- A new edge hides no other.
insert-Keeps :
    (e : ResourceEdge) (edges : Dict EdgeId ResourceEdge)
    → lookup e.id edges ≡ none
    → Keeps edges (insert e.id e edges)
insert-Keeps e edges absent j x h = ground (arith, lookup-insert e.id j e edges, ==_iff e.id j)

-- The list of a node, with the identifier of the new edge behind it, is in order.
listed-push :
    (end : ResourceEdge → NodeId) (nodes : Dict NodeId ResourceNode)
    (edges : Dict EdgeId ResourceEdge) (e : ResourceEdge) (m : Dict NodeId (List EdgeId))
    → has (end e) nodes ≡ true
    → lookup e.id edges ≡ some e
    → Entries (AdjacencyOk end nodes edges) m
    → Entries (AdjacencyOk end nodes edges) (insert (end e) (get_or (end e) m [] ++ e.id ∷ []) m)
listed-push end nodes edges e m here found h =
    Entries-insert (AdjacencyOk end nodes edges) (end e) _ m
      (
        here,
        All-append (λ id. ListedOk end edges (end e) id) _ (e.id ∷ []) before
            ((e, found, refl), tt),
      )
      h
  where
    listed :
        (o : Option (List EdgeId))
        → lookup (end e) m ≡ o
        → All (λ id. ListedOk end edges (end e) id) (elim o [ none ↦ [] | some v ↦ v ])
    listed none q = tt
    listed (some v) q = (Entries-lookup (AdjacencyOk end nodes edges) (end e) m v h q).1

    before : All (λ id. ListedOk end edges (end e) id) (get_or (end e) m [])
    before = listed (lookup (end e) m) refl

pub enter_edge-WellFormed :
    (g : ResourceGraph) (e : ResourceEdge)
    → WellFormed g
    → lookup e.id g.edges ≡ none
    → has e.source g.nodes ≡ true
    → has e.target g.nodes ≡ true
    → WellFormed (enter_edge g e)
unfolding enter_edge
enter_edge-WellFormed g e w absent s t =
    let nodes1 = update_metadata e.source count_outbound g.nodes in
    let nodes2 = update_metadata e.target count_inbound nodes1 in
    let edges' = insert e.id e g.edges in
    let r : Rewrites g.nodes nodes2 =
      Rewrites-trans (update_metadata-Rewrites e.source count_outbound g.nodes)
        (update_metadata-Rewrites e.target count_inbound nodes1) in
    let keeps = insert-Keeps e g.edges absent in
    let found : lookup e.id edges' ≡ some e =
      ground (arith, lookup-insert e.id e.id e g.edges, ==_iff e.id e.id) in
    record {
      nodes_ok = r.ok w.nodes_ok;
      edges_ok =
          Entries-insert (EdgeOk nodes2) e.id e g.edges
            (refl, r.grows e.source s, r.grows e.target t)
            (edges-grow g.nodes nodes2 r.grows g.edges w.edges_ok);
      adjacency_ok =
          listed-push (λ x. x.source) nodes2 edges' e g.adjacency_list (r.grows e.source s) found
            (adjacency-grow g.nodes nodes2 r.grows (λ x. x.source) g.edges edges' g.adjacency_list
              keeps w.adjacency_ok);
      reverse_ok =
          listed-push (λ x. x.target) nodes2 edges' e g.reverse_adjacency_list (r.grows e.target t)
            found
            (adjacency-grow g.nodes nodes2 r.grows (λ x. x.target) g.edges edges'
              g.reverse_adjacency_list keeps w.reverse_ok);
      node_count = w.node_count ∙ sym r.size;
      edge_count = ground (arith, w.edge_count, length-insert e.id e g.edges);
      roots_ok = roots-grow g.nodes nodes2 r.grows g.metadata.root_nodes w.roots_ok;
    }

-- What `AddEdge` does on a well-formed graph: the known edge, nil, or a new edge.
pub data Added (g : ResourceGraph) (source target : NodeId) (spec : EdgeSpec)
    : Option (ResourceGraph × Option ResourceEdge) → Type 0 where
  known :
      (e : ResourceEdge)
      → lookup (generate_edge_id source target spec.field_path) g.edges ≡ some e
      → Added g source target spec (some (g, some e))
  missing :
      (has source g.nodes && has target g.nodes) ≡ false
      → Added g source target spec (some (g, none))
  linked :
      (e : ResourceEdge)
      → lookup e.id g.edges ≡ none
      → e.source ≡ source
      → e.target ≡ target
      → has source g.nodes ≡ true
      → has target g.nodes ≡ true
      → Added g source target spec (some (enter_edge g e, some e))

pub is_some-metadata :
    (id : NodeId) (nodes : Dict NodeId ResourceNode) (n : ResourceNode)
    → Entries NodeOk nodes
    → lookup id nodes ≡ some n
    → is_some n.metadata ≡ true
is_some-metadata id nodes n h found = (Entries-lookup NodeOk id nodes n h found).2

link-Added :
    (g : ResourceGraph) (source target : NodeId) (spec : EdgeSpec) (sn tn : ResourceNode)
    → WellFormed g
    → lookup (generate_edge_id source target spec.field_path) g.edges ≡ none
    → lookup source g.nodes ≡ some sn
    → lookup target g.nodes ≡ some tn
    → Added g source target spec (link g source target spec sn tn)
unfolding link
link-Added g source target spec sn tn w absent s t = elim (Option-cases sn.metadata) [
  | inl bare ↦ absurd (ground (arith, is_some-metadata source g.nodes sn w.nodes_ok s))
  | inr (sm, p) ↦ elim (Option-cases tn.metadata) [
    | inl bare ↦ absurd (ground (arith, is_some-metadata target g.nodes tn w.nodes_ok t))
    | inr (tm, q) ↦
        rw (p, link) (rw (q, link) (unfold fresh_edge in linked _ absent refl refl (rw s) (rw t)))
  ]
]

-- On a well-formed graph `AddEdge` returns.
pub add_edge-Added :
    (g : ResourceGraph) (source target : NodeId) (spec : EdgeSpec)
    → WellFormed g
    → Added g source target spec (add_edge g source target spec)
unfolding add_edge
add_edge-Added g source target spec w =
    elim (Option-cases (lookup (generate_edge_id source target spec.field_path) g.edges)) [
      | inr (e, found) ↦ rw (found, add_edge) (known e found)
      | inl absent ↦ elim (Option-cases (lookup source g.nodes)) [
        | inl s ↦ rw (absent, add_edge) (rw (s, add_edge) (missing (rw s)))
        | inr (sn, s) ↦ elim (Option-cases (lookup target g.nodes)) [
          | inl t ↦
              rw (absent, add_edge) (rw (s, add_edge) (rw (t, add_edge) (missing (ground arith))))
          | inr (tn, t) ↦
              rw (absent, add_edge)
                (rw (s, add_edge)
                  (rw (t, add_edge) (link-Added g source target spec sn tn w absent s t)))
        ]
      ]
    ]

-- The graph that a call returns, if it returns, is well-formed.
abbrev pub GraphIs :
    (ResourceGraph → Type 0) → Option (ResourceGraph × Option ResourceEdge) → Type 0
GraphIs P none = ⊥
GraphIs P (some (g, _)) = P g

Added-WellFormed :
    {g : ResourceGraph} {source target : NodeId} {spec : EdgeSpec}
    {r : Option (ResourceGraph × Option ResourceEdge)}
    → WellFormed g
    → Added g source target spec r
    → GraphIs WellFormed r
Added-WellFormed w (known e found) = w
Added-WellFormed w (missing h) = w
Added-WellFormed {g} w (linked e absent s t hs ht) =
    enter_edge-WellFormed g e w absent (rw s hs) (rw t ht)

-- On a well-formed graph `AddEdge` never panics, and the graph that it leaves is well-formed.
pub add_edge-WellFormed :
    (g : ResourceGraph) (source target : NodeId) (spec : EdgeSpec)
    → WellFormed g
    → GraphIs WellFormed (add_edge g source target spec)
add_edge-WellFormed g source target spec w =
    Added-WellFormed w (add_edge-Added g source target spec w)
