-- ===== src/Graph/Builder/Preserve.antt =====
-- The operations of the builder keep graphs well-formed.
use function_kubecore_schema.Base.{
  suc, ◌≡◌, refl, sym, ◌∙◌, Bool, true, none, some, List, [], arith, string_eq, inl, inr,
  Option-cases, length, All, All-map, ℤ, Dict, lookup, insert, has, Entries, length-insert,
  Entries-insert, Entries-lookup, has-insert, has-insert_self,
}
use function_kubecore_schema.Graph.Types.{
  NodeId, EdgeId, Resource, ResourceNode, ResourceEdge, ResourceGraph,
}
use function_kubecore_schema.Graph.Builder.Defs.{
  new_graph, shorten, fresh_node, enter_node, add_node,
}
use function_kubecore_schema.Graph.Builder.Keys.{generate_node_id}
use function_kubecore_schema.Graph.Builder.WellFormed.{NodeOk, EdgeOk, AdjacencyOk, WellFormed}

-- Every node identifier of `nodes` is one of `nodes'`; an edge of `edges` is found in `edges'`.
abbrev pub Grows : Dict NodeId ResourceNode → Dict NodeId ResourceNode → Type 0
Grows nodes nodes' = (j : NodeId) → has j nodes ≡ true → has j nodes' ≡ true

abbrev pub Keeps : Dict EdgeId ResourceEdge → Dict EdgeId ResourceEdge → Type 0
Keeps edges edges' =
    (j : EdgeId) (x : ResourceEdge) → lookup j edges ≡ some x → lookup j edges' ≡ some x

module _ (nodes nodes' : Dict NodeId ResourceNode) (grows : Grows nodes nodes') where
  pub edges-grow :
      (edges : Dict EdgeId ResourceEdge)
      → Entries (EdgeOk nodes) edges
      → Entries (EdgeOk nodes') edges
  edges-grow edges h =
      All-map _ _ edges (λ kv ok. (ok.0, grows kv.1.source ok.1, grows kv.1.target ok.2)) h

  pub adjacency-grow :
      (end : ResourceEdge → NodeId) (edges edges' : Dict EdgeId ResourceEdge)
      (m : Dict NodeId (List EdgeId))
      → Keeps edges edges'
      → Entries (AdjacencyOk end nodes edges) m
      → Entries (AdjacencyOk end nodes' edges') m
  adjacency-grow end edges edges' m keeps h =
      All-map _ _ m
        (λ kv ok. (
          grows kv.0 ok.0,
          All-map _ _ kv.1 (λ id (e, found, ends). (e, keeps id e found, ends)) ok.1,
        ))
        h

  pub roots-grow :
      (roots : List NodeId)
      → All (λ r. has r nodes ≡ true) roots
      → All (λ r. has r nodes' ≡ true) roots
  roots-grow roots h = All-map _ _ roots (λ r. grows r) h

-- Other nodes under the same identifiers.
pub with_nodes-WellFormed :
    (g : ResourceGraph) (nodes' : Dict NodeId ResourceNode)
    → WellFormed g
    → Entries NodeOk nodes'
    → length nodes' ≡ length g.nodes
    → ((j : NodeId) → has j g.nodes ≡ true → has j nodes' ≡ true)
    → WellFormed (record g { nodes = nodes' })
with_nodes-WellFormed g nodes' w ok size grows = record {
  nodes_ok = ok;
  edges_ok = edges-grow _ _ grows g.edges w.edges_ok;
  adjacency_ok =
      adjacency-grow _ _ grows _ g.edges g.edges g.adjacency_list (λ j x h. h) w.adjacency_ok;
  reverse_ok =
      adjacency-grow _ _ grows _ g.edges g.edges g.reverse_adjacency_list (λ j x h. h) w.reverse_ok;
  node_count = w.node_count ∙ sym size;
  edge_count = w.edge_count;
  roots_ok = roots-grow _ _ grows g.metadata.root_nodes w.roots_ok;
}

pub WellFormed-new : WellFormed new_graph
unfolding new_graph
WellFormed-new = record {
  nodes_ok = tt;
  edges_ok = tt;
  adjacency_ok = tt;
  reverse_ok = tt;
  node_count = refl;
  edge_count = refl;
  roots_ok = tt;
}

-- A write to a node that is there changes neither the number of nodes nor their identifiers.
module _ (id : NodeId) (node : ResourceNode) (nodes : Dict NodeId ResourceNode) where
  pub length-insert_old :
      (old : ResourceNode)
      → lookup id nodes ≡ some old
      → length (insert id node nodes) ≡ length nodes
  length-insert_old old h = ground (arith, length-insert id node nodes)

  length-insert_new : lookup id nodes ≡ none → length (insert id node nodes) ≡ suc (length nodes)
  length-insert_new h = ground (arith, length-insert id node nodes)

module _ (g : ResourceGraph) (id : NodeId) (node : ResourceNode) (w : WellFormed g)
    (ok : NodeOk id node) where
  pub rewrite-WellFormed :
      (old : ResourceNode)
      → lookup id g.nodes ≡ some old
      → WellFormed (record g { nodes = insert id node g.nodes })
  rewrite-WellFormed old h =
      with_nodes-WellFormed g (insert id node g.nodes) w
        (Entries-insert NodeOk id node g.nodes ok w.nodes_ok)
        (length-insert_old id node g.nodes old h) (λ j. has-insert id j node g.nodes)

  enter_node-WellFormed : lookup id g.nodes ≡ none → WellFormed (enter_node g id node)
  unfolding enter_node
  enter_node-WellFormed h =
      let grows : Grows g.nodes (insert id node g.nodes) = λ j. has-insert id j node g.nodes in
      let here = has-insert_self id node g.nodes in
      record {
        nodes_ok = Entries-insert NodeOk id node g.nodes ok w.nodes_ok;
        edges_ok = edges-grow _ _ grows g.edges w.edges_ok;
        adjacency_ok =
            Entries-insert _ id [] g.adjacency_list (here, tt)
              (adjacency-grow _ _ grows _ g.edges g.edges g.adjacency_list (λ j x q. q)
                w.adjacency_ok);
        reverse_ok =
            Entries-insert _ id [] g.reverse_adjacency_list (here, tt)
              (adjacency-grow _ _ grows _ g.edges g.edges g.reverse_adjacency_list (λ j x q. q)
                w.reverse_ok);
        node_count = omega (arith, w.node_count, length-insert_new id node g.nodes h);
        edge_count = w.edge_count;
        roots_ok = roots-grow _ _ grows g.metadata.root_nodes w.roots_ok;
      }

pub shorten-NodeOk :
    (id : NodeId) (n : ResourceNode) (depth : ℤ) (path : List NodeId)
    → NodeOk id n
    → NodeOk id (shorten n depth path)
unfolding shorten
shorten-NodeOk id n depth path ok = ground arith

fresh_node-NodeOk :
    (platform : Bool) (r : Resource) (depth : ℤ) (path : List NodeId)
    → NodeOk (generate_node_id r) (fresh_node platform r depth path)
unfolding fresh_node
fresh_node-NodeOk platform r depth path = (refl, refl, refl)

-- `AddNode` keeps a graph well-formed.
pub add_node-WellFormed :
    (is_platform : Resource → Bool) (g : ResourceGraph) (r : Resource) (depth : ℤ)
    (path : List NodeId)
    → WellFormed g
    → WellFormed (add_node is_platform g r depth path).0
unfolding add_node
add_node-WellFormed is_platform g r depth path w =
    elim (Option-cases (lookup (generate_node_id r) g.nodes)) [
      | inl absent ↦
          rw (absent, add_node)
            (enter_node-WellFormed g _ _ w (fresh_node-NodeOk (is_platform r) r depth path) absent)
      | inr (old, found) ↦
          rw (found, add_node)
            (rewrite-WellFormed g _ _ w
              (shorten-NodeOk _ old depth path
                (Entries-lookup NodeOk _ g.nodes old w.nodes_ok found))
              old found)
    ]
