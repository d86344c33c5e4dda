-- ===== src/Graph/Builder/WellFormed.antt =====
-- What `ValidateGraph` accepts: a predicate on graphs, and the validator as its decision.
use function_kubecore_schema.Base.{
  ◌≡◌, refl, ◌↔◌, Bool, true, false, Option, none, some, List, [], ◌++◌, arith, string_eq, ==_iff,
  nat_beq_iff, is_some, length, append-eq-nil, All, All-map, collect, collect-eq-nil, List-cases,
  inl, inr, Dict, lookup, has, Entries,
}
use function_kubecore_schema.Graph.Types.{
  NodeId, EdgeId, ResourceNode, ResourceEdge, ResourceGraph, ErrorType,
}
use function_kubecore_schema.Graph.Builder.Validate.{
  unless, validate_node, validate_edge, judge_listed, validate_listed, validate_adjacency_entry,
  validate_adjacency_lists, validate_graph_metadata, validation_errors, validate_graph,
}

-- A node stands under its own identifier and has its resource and its metadata.
abbrev pub NodeOk : NodeId → ResourceNode → Type 0
NodeOk id node = (node.id ≡ id) × (is_some node.resource ≡ true) × (is_some node.metadata ≡ true)

-- An edge stands under its own identifier, between two nodes of the graph.
abbrev pub EdgeOk : Dict NodeId ResourceNode → EdgeId → ResourceEdge → Type 0
EdgeOk nodes id edge =
    (edge.id ≡ id) × (has edge.source nodes ≡ true) × (has edge.target nodes ≡ true)

-- An identifier in the list of `node` names an edge that has `node` at the end `end`.
abbrev pub ListedOk : (ResourceEdge → NodeId) → Dict EdgeId ResourceEdge → NodeId → EdgeId → Type 0
ListedOk end edges node id = (e : ResourceEdge) × (lookup id edges ≡ some e) × (end e ≡ node)

abbrev pub AdjacencyOk :
    (ResourceEdge → NodeId)
    → Dict NodeId ResourceNode
    → Dict EdgeId ResourceEdge
    → NodeId
    → List EdgeId
    → Type 0
AdjacencyOk end nodes edges node ids =
    (has node nodes ≡ true) × All (λ id. ListedOk end edges node id) ids

pub record WellFormed (g : ResourceGraph) : Type 0 where
  pub nodes_ok : Entries NodeOk g.nodes
  pub edges_ok : Entries (EdgeOk g.nodes) g.edges
  pub adjacency_ok : Entries (AdjacencyOk (λ e. e.source) g.nodes g.edges) g.adjacency_list
  pub reverse_ok : Entries (AdjacencyOk (λ e. e.target) g.nodes g.edges) g.reverse_adjacency_list
  pub node_count : g.metadata.total_nodes ≡ length g.nodes
  pub edge_count : g.metadata.total_edges ≡ length g.edges
  pub roots_ok : All (λ r. has r g.nodes ≡ true) g.metadata.root_nodes

unless_iff {ℓ} : {A : Type ℓ} (b : Bool) (e : A) → (unless b e ≡ []) ↔ (b ≡ true)
unless_iff true e = (λ _. refl, λ _. refl)
unless_iff false e = (λ h. cc, λ h. cc)

module _ {ℓ} {A : Type ℓ} where
  -- no errors from two parts, three parts
  join₂ :
      (xs ys : List A) {P Q : Type 0} → (xs ≡ []) ↔ P → (ys ≡ []) ↔ Q → (xs ++ ys ≡ []) ↔ (P × Q)
  join₂ xs ys p q = (
    λ h. let (a, b) = (append-eq-nil xs ys).0 h in (p.0 a, q.0 b),
    λ h. (append-eq-nil xs ys).1 (p.1 h.0, q.1 h.1),
  )

  join₃ :
      (xs ys zs : List A) {P Q R : Type 0}
      → (xs ≡ []) ↔ P
      → (ys ≡ []) ↔ Q
      → (zs ≡ []) ↔ R
      → (xs ++ (ys ++ zs) ≡ []) ↔ (P × Q × R)
  join₃ xs ys zs p q r =
      let j = join₂ xs (ys ++ zs) p (join₂ ys zs q r) in
      (λ h. let (a, bc) = j.0 h in (a, bc.0, bc.1), λ h. j.1 (h.0, (h.1, h.2)))

  collect_iff {κ} :
      {B : Type κ} (f : B → List A) (P : B → Type 0) (xs : List B)
      → ((b : B) → (f b ≡ []) ↔ P b)
      → (collect f xs ≡ []) ↔ All P xs
  collect_iff f P xs h = (
    λ q. All-map (λ b. f b ≡ []) P xs (λ b. (h b).0) ((collect-eq-nil f xs).0 q),
    λ q. (collect-eq-nil f xs).1 (All-map P (λ b. f b ≡ []) xs (λ b. (h b).1) q),
  )

test_iff {ℓ} : {A : Type ℓ} {b : Bool} {P : Type 0} (e : A) → (b ≡ true) ↔ P → (unless b e ≡ []) ↔ P
test_iff {b} e h = (λ q. h.0 ((unless_iff b e).0 q), λ p. (unless_iff b e).1 (h.1 p))

same {ℓ} : {P : Type ℓ} → P ↔ P
same = (λ p. p, λ p. p)

validate_node_iff : (id : NodeId) (n : ResourceNode) → (validate_node id n ≡ []) ↔ NodeOk id n
unfolding validate_node
validate_node_iff id n =
    join₃ _ _ _ (test_iff _ (==_iff n.id id)) (test_iff _ (same)) (test_iff _ (same))

validate_edge_iff :
    (g : ResourceGraph) (id : EdgeId) (e : ResourceEdge)
    → (validate_edge g id e ≡ []) ↔ EdgeOk g.nodes id e
unfolding validate_edge
validate_edge_iff g id e =
    join₃ _ _ _ (test_iff _ (==_iff e.id id)) (test_iff _ (same)) (test_iff _ (same))

module _ (g : ResourceGraph) (end : ResourceEdge → NodeId) where
  judge_listed_iff :
      (dangling mismatch : ErrorType) (node : NodeId) (o : Option ResourceEdge)
      → (judge_listed end dangling mismatch node o ≡ [])
        ↔ ((e : ResourceEdge) × (o ≡ some e) × (end e ≡ node))
  unfolding judge_listed
  judge_listed_iff dangling mismatch node none = (λ h. cc, λ (e, found, _). cc)
  judge_listed_iff dangling mismatch node (some e) = (
    λ h. (e, refl, (test_iff _ (==_iff (end e) node)).0 h),
    λ (d, found, h). (test_iff _ (==_iff (end e) node)).1 (ground arith),
  )

  validate_listed_iff :
      (dangling mismatch : ErrorType) (node : NodeId) (id : EdgeId)
      → (validate_listed g end dangling mismatch node id ≡ []) ↔ ListedOk end g.edges node id
  unfolding validate_listed
  validate_listed_iff dangling mismatch node id =
      judge_listed_iff dangling mismatch node (lookup id g.edges)

  validate_adjacency_iff :
      (orphaned dangling mismatch : ErrorType) (entry : NodeId × List EdgeId)
      → (validate_adjacency_entry g end orphaned dangling mismatch entry ≡ [])
        ↔ AdjacencyOk end g.nodes g.edges entry.0 entry.1
  unfolding validate_adjacency_entry
  validate_adjacency_iff orphaned dangling mismatch (node, ids) =
      join₂ _ _ (test_iff _ (same))
        (collect_iff _ _ ids (validate_listed_iff dangling mismatch node))

metadata_iff :
    (g : ResourceGraph)
    → (validate_graph_metadata g ≡ []) ↔ (
        (g.metadata.total_nodes ≡ length g.nodes)
        × (g.metadata.total_edges ≡ length g.edges)
        × All (λ r. has r g.nodes ≡ true) g.metadata.root_nodes)
unfolding validate_graph_metadata
metadata_iff g =
    join₃ _ _ _ (test_iff _ (nat_beq_iff _ _)) (test_iff _ (nat_beq_iff _ _))
      (collect_iff _ _ g.metadata.root_nodes (λ r. test_iff _ (same)))

adjacency_lists_iff :
    (g : ResourceGraph)
    → (validate_adjacency_lists g ≡ []) ↔ (
        Entries (AdjacencyOk (λ e. e.source) g.nodes g.edges) g.adjacency_list
        × Entries (AdjacencyOk (λ e. e.target) g.nodes g.edges) g.reverse_adjacency_list)
unfolding validate_adjacency_lists
adjacency_lists_iff g =
    join₂ _ _ (collect_iff _ _ g.adjacency_list (validate_adjacency_iff g (λ e. e.source) _ _ _))
      (collect_iff _ _ g.reverse_adjacency_list (validate_adjacency_iff g (λ e. e.target) _ _ _))

validation_errors_iff : (g : ResourceGraph) → (validation_errors g ≡ []) ↔ WellFormed g
unfolding validation_errors
validation_errors_iff g =
    let i =
      join₃ _ _ _ (collect_iff _ _ g.nodes (λ n. validate_node_iff n.0 n.1))
        (collect_iff _ _ g.edges (λ e. validate_edge_iff g e.0 e.1))
        (join₂ _ _ (adjacency_lists_iff g) (metadata_iff g)) in
    (
      λ h.
          let (n, e, (a, m)) = i.0 h in
          record {
            nodes_ok = n;
            edges_ok = e;
            adjacency_ok = a.0;
            reverse_ok = a.1;
            node_count = m.0;
            edge_count = m.1;
            roots_ok = m.2;
          },
      λ w. i.1 (
        w.nodes_ok,
        w.edges_ok,
        ((w.adjacency_ok, w.reverse_ok), (w.node_count, w.edge_count, w.roots_ok)),
      ),
    )

-- `ValidateGraph` answers `Valid` exactly for the well-formed graphs.
pub validate_graph-valid_iff :
    (g : ResourceGraph) → ((validate_graph g).valid ≡ true) ↔ WellFormed g
unfolding validate_graph
validate_graph-valid_iff g = elim (List-cases (validation_errors g)) [
  | inl none_found ↦
      (λ _. (validation_errors_iff g).0 none_found, λ _. rw (none_found, validate_graph))
  | inr (x, rest, e) ↦ (
    λ h. absurd (ground (arith, e)),
    λ w. absurd (ground (arith, e, (validation_errors_iff g).1 w)),
  )
]
