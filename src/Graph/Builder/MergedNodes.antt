-- ===== src/Graph/Builder/MergedNodes.antt =====
-- The nodes of `MergeGraphs` on well-formed graphs.
use function_kubecore_schema.Base.{
  ◌≡◌, String, Bool, true, Option, none, some, List, [], ◌∷◌, arith, string_eq, inl, inr,
  Option-cases, is_some, ℤ, All, All-map, Dict, Entries, Entries-insert, Entries-lookup, lookup,
  insert, has, has-insert,
}
use function_kubecore_schema.Graph.Types.{NodeId, Resource, ResourceNode, ResourceGraph}
use function_kubecore_schema.Graph.Builder.Keys.{generate_node_id}
use function_kubecore_schema.Graph.Builder.Defs.{shorten, enter_node, add_node}
use function_kubecore_schema.Graph.Builder.Build.{◌>>=◌}
use function_kubecore_schema.Graph.Builder.WellFormed.{NodeOk, WellFormed}
use function_kubecore_schema.Graph.Builder.Preserve.{
  Grows, rewrite-WellFormed, shorten-NodeOk, add_node-WellFormed,
}
use function_kubecore_schema.Graph.Builder.PreserveEdges.{}
use function_kubecore_schema.Graph.Builder.Built.{has-add_node}
use function_kubecore_schema.Graph.Builder.Merge.{
  Merging, merge_known, merge_new, merge_node, merge_nodes, merge_all_nodes,
}

-- The call does not panic, and what it returns has the property.
abbrev pub Gives {ℓ} : {A : Type ℓ} → (A → Type 0) → Option A → Type 0
Gives P none = ⊥
Gives P (some a) = P a

pub Gives-bind {ℓ κ} :
    {A : Type ℓ} {B : Type κ} (P : A → Type 0) (Q : B → Type 0) (m : Option A) (f : A → Option B)
    → Gives P m
    → ((a : A) → P a → Gives Q (f a))
    → Gives Q (m >>= f)
Gives-bind P Q none f h k = absurd h
Gives-bind P Q (some a) f h k = k a h

-- Every value of the map is a node of the graph.
abbrev pub Leads : Dict String NodeId → Dict NodeId ResourceNode → Type 0
Leads m nodes = Entries (λ k v. has v nodes ≡ true) m

pub Leads-grow :
    (m : Dict String NodeId) (nodes nodes' : Dict NodeId ResourceNode)
    → Grows nodes nodes'
    → Leads m nodes
    → Leads m nodes'
Leads-grow m nodes nodes' grows l = All-map _ _ m (λ kv. grows kv.1) l

pub record Merged (s : Merging) : Type 0 where
  pub well_formed : WellFormed s.graph
  pub mapped : Leads s.node_mapping s.graph.nodes
  pub by_uid : Leads s.uid_to_node_id s.graph.nodes

add_node-Grows :
    (is_platform : Resource → Bool) (g : ResourceGraph) (r : Resource) (depth : ℤ)
    (path : List NodeId)
    → Grows g.nodes (add_node is_platform g r depth path).0.nodes
unfolding add_node enter_node
add_node-Grows is_platform g r depth path j h =
    let id = generate_node_id r in
    elim (Option-cases (lookup id g.nodes)) [
      | inl absent ↦ rw (absent, add_node) (has-insert id j _ g.nodes h)
      | inr (old, found) ↦ rw (found, add_node) (has-insert id j _ g.nodes h)
    ]

module _ (is_platform : Resource → Bool) where
  merge_known-Merged :
      (s : Merging) (node : ResourceNode) (id : NodeId)
      → Merged s
      → has id s.graph.nodes ≡ true
      → Gives Merged (merge_known s node id)
  unfolding merge_known
  merge_known-Merged s node id m there = elim (Option-cases (lookup id s.graph.nodes)) [
    | inl absent ↦ absurd (ground (arith, absent, there))
    | inr (old, found) ↦
        let node' = shorten old node.discovery_depth node.discovery_path in
        let ok = Entries-lookup NodeOk id s.graph.nodes old m.well_formed.nodes_ok found in
        let grows : Grows s.graph.nodes (insert id node' s.graph.nodes) =
          λ j. has-insert id j node' s.graph.nodes in
        rw (found, merge_known)
          (record {
            well_formed =
                rewrite-WellFormed s.graph id node' m.well_formed (shorten-NodeOk id old _ _ ok) old
                  found;
            mapped =
                Entries-insert _ node.id id s.node_mapping (grows id there)
                  (Leads-grow s.node_mapping s.graph.nodes _ grows m.mapped);
            by_uid = Leads-grow s.uid_to_node_id s.graph.nodes _ grows m.by_uid;
          })
  ]

  merge_new-Merged :
      (s : Merging) (node : ResourceNode) (r : Resource)
      → Merged s
      → Merged (merge_new is_platform s node r)
  unfolding merge_new
  merge_new-Merged s node r m =
      let depth = node.discovery_depth in
      let path = node.discovery_path in
      let grows = add_node-Grows is_platform s.graph r depth path in
      let there = has-add_node is_platform s.graph r depth path m.well_formed in
      record {
        well_formed = add_node-WellFormed is_platform s.graph r depth path m.well_formed;
        mapped =
            Entries-insert _ node.id _ s.node_mapping there
              (Leads-grow s.node_mapping s.graph.nodes _ grows m.mapped);
        by_uid =
            Entries-insert _ node.uid _ s.uid_to_node_id there
              (Leads-grow s.uid_to_node_id s.graph.nodes _ grows m.by_uid);
      }

  merge_node-Merged :
      (s : Merging) (node : ResourceNode)
      → is_some node.resource ≡ true
      → Merged s
      → Gives Merged (merge_node is_platform s node)
  unfolding merge_node
  merge_node-Merged s node real m = elim (Option-cases (lookup node.uid s.uid_to_node_id)) [
    | inr (id, found) ↦
        rw (found, merge_node)
          (merge_known-Merged s node id m
            (Entries-lookup _ node.uid s.uid_to_node_id id m.by_uid found))
    | inl new ↦ elim (Option-cases node.resource) [
      | inl bare ↦ absurd (ground (arith, bare, real))
      | inr (r, found) ↦ rw (new, merge_node) (rw (found, merge_node) (merge_new-Merged s node r m))
    ]
  ]

  merge_nodes-Merged :
      (s : Merging) (nodes : Dict NodeId ResourceNode)
      → Entries NodeOk nodes
      → Merged s
      → Gives Merged (merge_nodes is_platform s nodes)
  unfolding merge_nodes
  merge_nodes-Merged s [] ok m = m
  merge_nodes-Merged s ((id, node) ∷ rest) ok m =
      Gives-bind Merged Merged (merge_node is_platform s node)
        (λ s'. merge_nodes is_platform s' rest) (merge_node-Merged s node ok.0.1 m)
        (λ s' m'. merge_nodes-Merged s' rest ok.1 m')

  pub merge_all_nodes-Merged :
      (s : Merging) (gs : List ResourceGraph)
      → All WellFormed gs
      → Merged s
      → Gives Merged (merge_all_nodes is_platform s gs)
  unfolding merge_all_nodes
  merge_all_nodes-Merged s [] ok m = m
  merge_all_nodes-Merged s (g ∷ gs) ok m =
      Gives-bind Merged Merged (merge_nodes is_platform s g.nodes)
        (λ s'. merge_all_nodes is_platform s' gs) (merge_nodes-Merged s g.nodes ok.0.nodes_ok m)
        (λ s' m'. merge_all_nodes-Merged s' gs ok.1 m')
