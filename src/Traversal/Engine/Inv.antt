-- ===== src/Traversal/Engine/Inv.antt =====
-- What every step of the traversal of engine.go keeps.
use function_kubecore_schema.Base.{
  ℕ, suc, ◌≡◌, refl, sym, ap, ◌∙◌, subst, String, true, List, [], ◌∷◌, string_eq, nat_eq, ◌==◌,
  if◌then◌else◌, Bool-cases, Option-cases, inl, inr, ℤ, pos, lookup, has, sum_values, sum-count_up,
  has-insert_if, Entries, Entries-insert,
}
use function_kubecore_schema.Graph.Types.{Resource, ResourceGraph}
use function_kubecore_schema.Graph.Builder.Keys.{generate_node_id}
use function_kubecore_schema.Graph.Builder.WellFormed.{WellFormed}
use function_kubecore_schema.Graph.Builder.Preserve.{add_node-WellFormed}
use function_kubecore_schema.Traversal.Tracker.{
  ResourceTracker, is_processed, mark_processed, enter_info,
}
use function_kubecore_schema.Traversal.Engine.{
  Run, TraversalStatistics, Components, extract_api_group, count_resource, enter_resource,
  enter_roots, enter_new, add_step,
}
use function_kubecore_schema.Traversal.Engine.Discover.{DiscoveryResult}
use function_kubecore_schema.Traversal.Engine.Linked.{SameNodes, has-add_node}

-- Every count of the statistics adds up to the total.
abbrev pub Summed : TraversalStatistics → Type 0
Summed st =
    (sum_values st.resources_by_depth ≡ st.total_resources)
    × ((sum_values st.resources_by_kind ≡ st.total_resources)
        × (sum_values st.resources_by_api_group ≡ st.total_resources))

count_resource-Summed :
    (depth : ℕ) (r : Resource) (st : TraversalStatistics)
    → Summed st
    → Summed (count_resource depth r st)
unfolding count_resource
count_resource-Summed depth r st (a, (b, c)) = (
  sum-count_up depth st.resources_by_depth ∙ ap suc a,
  (
    sum-count_up r.kind st.resources_by_kind ∙ ap suc b,
    sum-count_up (extract_api_group r.api_version) st.resources_by_api_group ∙ ap suc c,
  ),
)

module _ {V : Type 0} where
  -- The graph is well-formed. It has a node, and the tracker an entry, for exactly the identifiers of
  -- the discovered resources, each of which stands under its own. The counts add up.
  pub record RunInv (s : Run V) : Type 0 where
    pub well_formed : WellFormed s.result.resource_graph
    pub nodes :
        (id : String) → has id s.result.resource_graph.nodes ≡ has id s.result.discovered_resources
    pub tracked : (id : String) → is_processed id s.tracker ≡ has id s.result.discovered_resources
    pub own : Entries (λ id r. generate_node_id r ≡ id) s.result.discovered_resources
    pub summed : Summed s.result.statistics

  has-mark_processed :
      (now : ℕ) (k id : String) (depth : ℤ) (rt : ResourceTracker V)
      → is_processed id (mark_processed now k depth rt)
        ≡ (if k == id then true else is_processed id rt)
  unfolding mark_processed enter_info is_processed
  has-mark_processed now k id depth rt = elim (Option-cases (lookup k rt.processed_resources)) [
    | inl absent ↦ rw (absent, mark_processed) (has-insert_if k id _ rt.processed_resources)
    | inr (info, found) ↦ rw (found, mark_processed) (has-insert_if k id _ rt.processed_resources)
  ]

  module _ (c : Components) where
    pub enter_resource-RunInv :
        (depth : ℕ) (r : Resource) (s : Run V) → RunInv s → RunInv (enter_resource c depth r s)
    unfolding enter_resource
    enter_resource-RunInv depth r s i =
        let id = generate_node_id r in
        record {
          well_formed =
              add_node-WellFormed c.is_platform s.result.resource_graph r (pos depth) []
                i.well_formed;
          nodes = λ q.
              has-add_node c.is_platform s.result.resource_graph r (pos depth) [] q
              ∙ (ap (λ b. if id == q then true else b) (i.nodes q)
                  ∙ sym (has-insert_if id q r s.result.discovered_resources));
          tracked = λ q.
              has-mark_processed (c.clock id) id q (pos depth) s.tracker
              ∙ (ap (λ b. if id == q then true else b) (i.tracked q)
                  ∙ sym (has-insert_if id q r s.result.discovered_resources));
          own = Entries-insert _ id r s.result.discovered_resources refl i.own;
          summed = count_resource-Summed depth r s.result.statistics i.summed;
        }

    pub enter_roots-RunInv :
        (rs : List Resource) (s : Run V) → RunInv s → RunInv (enter_roots c rs s)
    unfolding enter_roots
    enter_roots-RunInv [] s i = i
    enter_roots-RunInv (r ∷ rs) s i =
        enter_roots-RunInv rs (enter_resource c 0 r s) (enter_resource-RunInv 0 r s i)

    pub enter_new-RunInv :
        (depth : ℕ) (rs : List Resource) (s : Run V) → RunInv s → RunInv (enter_new c depth rs s).1
    unfolding enter_new
    enter_new-RunInv depth [] s i = i
    enter_new-RunInv depth (r ∷ rs) s i =
        elim (Bool-cases (is_processed (generate_node_id r) s.tracker)) [
          | inl old ↦ subst RunInv (rw (old, enter_new) refl) (enter_new-RunInv depth rs s i)
          | inr new ↦ subst RunInv (rw (new, enter_new) refl) (
              enter_new-RunInv depth rs (enter_resource c depth r s)
                (enter_resource-RunInv depth r s i))
        ]

    pub add_step-RunInv :
        (depth : ℕ) (d : DiscoveryResult) (new : List Resource) (g : ResourceGraph) (s : Run V)
        → RunInv s
        → WellFormed g
        → SameNodes s.result.resource_graph g
        → RunInv (add_step c depth d new g s)
    unfolding add_step
    add_step-RunInv depth d new g s i w same = record {
      well_formed = w;
      nodes = λ q. same q ∙ i.nodes q;
      tracked = i.tracked;
      own = i.own;
      summed = i.summed;
    }
