-- ===== src/Traversal/Engine/Forward.antt =====
-- The rounds of `executeForwardTraversal` of engine.go.
use function_kubecore_schema.Base.{
  ℤ, pos, ltb_ℤ, int_eq, ◌==◌, ==_iff, ◌⊎◌, Bool, true, ℕ, zero, suc, ◌+◌, ◌≤◌, ◌≡◌, refl, sym, ap,
  subst, Option, List, [], ◌∷◌, ◌++◌, arith, Bool-cases, inl, inr, length, pos_part, reached, All,
  All-append,
}
use function_kubecore_schema.Graph.Types.{Resource, ResourceGraph}
use function_kubecore_schema.Graph.Builder.Keys.{generate_node_id}
use function_kubecore_schema.Graph.Builder.MergedNodes.{Gives, Gives-bind}
use function_kubecore_schema.Traversal.Tracker.{is_processed}
use function_kubecore_schema.Traversal.Filter.Scope.{ScopeFilterConfig, FilterStatistics}
use function_kubecore_schema.Traversal.Engine.{
  TraversalConfig, TraversalStep, Run, TraversalFailure, Components, count_resource, enter_resource,
  enter_roots, enter_new, add_step, add_references_to_graph, forward_from, execute_forward,
}
use function_kubecore_schema.Traversal.Engine.Discover.{
  DiscoveryResult, Overlap, apart, ended, raced, has_places, filter_after, discover_all,
  discover_referenced_resources,
}
use function_kubecore_schema.Traversal.Engine.Linked.{Extends, add_references-Extends}
use function_kubecore_schema.Traversal.Engine.Inv.{RunInv, enter_new-RunInv, add_step-RunInv}

-- What a run needs to return: a place for a goroutine, and either no more than one place or no two
-- writes of the filter's map at once that the runtime ends the program for.
abbrev pub Undisturbed : Components → TraversalConfig → Type 0
Undisturbed c config =
    (ltb_ℤ (pos 0) config.max_concurrent_requests ≡ true)
    × ((config.max_concurrent_requests ≡ pos 1)
        ⊎ ((rs : List Resource) → ¬ (c.scheduler.overlap rs ≡ ended)))

has_places-some :
    (places : ℤ) (rs : List Resource) → ltb_ℤ (pos 0) places ≡ true → has_places places rs ≡ true
unfolding has_places
has_places-some places [] h = ground (arith, h)
has_places-some places (r ∷ rs) h = h

filter_after-returns :
    (places : ℤ) (met : Overlap) (sf : FilterStatistics)
    → ((places ≡ pos 1) ⊎ ¬ (met ≡ ended))
    → Gives (λ _. Unit {0}) (filter_after places met sf)
unfolding filter_after
filter_after-returns places met sf (inl one) = rw ((==_iff places (pos 1)).1 one) tt
filter_after-returns places apart sf (inr fine) = elim (Bool-cases (places == pos 1)) [
  | inl one ↦ rw one tt
  | inr more ↦ rw more tt
]
filter_after-returns places (raced left) sf (inr fine) = elim (Bool-cases (places == pos 1)) [
  | inl one ↦ rw one tt
  | inr more ↦ rw more tt
]
filter_after-returns places ended sf (inr fine) = absurd (fine refl)

discover-returns :
    (c : Components) (config : TraversalConfig) (skip : Bool) (scope : ScopeFilterConfig)
    (rs : List Resource) (sf : FilterStatistics)
    → Undisturbed c config
    → Gives
        (λ _. Unit {0})
        (discover_referenced_resources c.resolver c.checker c.scheduler scope skip
          config.max_concurrent_requests rs sf)
unfolding discover_referenced_resources
discover-returns c config skip scope rs sf (places, calm) =
    let d =
      discover_all c.resolver c.checker scope skip (c.scheduler.order rs)
        (record { discovered = []; references = []; errors = []; filter = sf }) in
    rw (has_places-some config.max_concurrent_requests rs places) (
      Gives-bind (λ _. Unit {0}) (λ _. Unit {0})
        (filter_after config.max_concurrent_requests (c.scheduler.overlap rs) d.filter) _
        (filter_after-returns config.max_concurrent_requests (c.scheduler.overlap rs) d.filter
          (elim calm [ inl one ↦ inl one | inr fine ↦ inr (fine rs) ]))
        (λ left t. tt))

-- The resources that the steps report as new.
abbrev pub followed : List TraversalStep → ℕ
followed [] = 0
followed (st ∷ steps) = st.references_followed + followed steps

followed-push :
    (steps : List TraversalStep) (st : TraversalStep)
    → followed (steps ++ st ∷ []) ≡ followed steps + st.references_followed
followed-push [] st = omega arith
followed-push (s ∷ steps) st = omega (arith, followed-push steps st)

module _ {V : Type 0} where
  -- The state is in order, no round was deeper than `depth`, and the total is what `start` and the
  -- steps account for.
  pub record Sound (start depth : ℕ) (s : Run V) : Type 0 where
    pub inv : RunInv s
    pub reached_le : s.result.max_depth_reached ≤ depth
    pub depths_le : All (λ (st : TraversalStep). st.depth ≤ depth) s.result.steps
    pub ledger : s.result.statistics.total_resources ≡ start + followed s.result.steps

  -- The call returns, with an error or none, and leaves a state with the property.
  abbrev pub Leaves : (Run V → Type 0) → Option (Run V × Option TraversalFailure) → Type 0
  Leaves P m = Gives (λ r. P r.0) m

  refilter :
      (start bound : ℕ) (s : Run V) (filter : FilterStatistics)
      → Sound start bound s
      → Sound start bound (record s { filter = filter })
  refilter start bound s filter i = record {
    inv = record {
      well_formed = i.inv.well_formed;
      nodes = i.inv.nodes;
      tracked = i.inv.tracked;
      own = i.inv.own;
      summed = i.inv.summed;
    };
    reached_le = i.reached_le;
    depths_le = i.depths_le;
    ledger = i.ledger;
  }

  module _ (c : Components) where
    pub enter_new-total :
        (depth : ℕ) (rs : List Resource) (s : Run V)
        → (enter_new c depth rs s).1.result.statistics.total_resources
          ≡ s.result.statistics.total_resources + length (enter_new c depth rs s).0
    unfolding enter_new enter_resource count_resource
    enter_new-total depth [] s = omega arith
    enter_new-total depth (r ∷ rs) s =
        elim (Bool-cases (is_processed (generate_node_id r) s.tracker)) [
          | inl old ↦ rw (old, enter_new) (enter_new-total depth rs s)
          | inr new ↦
              rw (new, enter_new)
                (omega (arith, enter_new-total depth rs (enter_resource c depth r s)))
        ]

    pub enter_new-steps :
        (depth : ℕ) (rs : List Resource) (s : Run V)
        → ((enter_new c depth rs s).1.result.steps ≡ s.result.steps)
          × ((enter_new c depth rs s).1.result.max_depth_reached ≡ s.result.max_depth_reached)
    unfolding enter_new enter_resource
    enter_new-steps depth [] s = (refl, refl)
    enter_new-steps depth (r ∷ rs) s =
        elim (Bool-cases (is_processed (generate_node_id r) s.tracker)) [
          | inl old ↦ rw (old, enter_new) (enter_new-steps depth rs s)
          | inr new ↦ rw (new, enter_new) (enter_new-steps depth rs (enter_resource c depth r s))
        ]

    -- One round, once the edges are in the graph.
    round-Sound :
        (start bound depth : ℕ) (d : DiscoveryResult) (rs : List Resource) (s : Run V)
        (g : ResourceGraph)
        → depth ≤ bound
        → Sound start bound s
        → Extends (enter_new c depth rs s).1.result.resource_graph g
        → Sound start bound
            (add_step c depth d (enter_new c depth rs s).0 g (enter_new c depth rs s).1)
    unfolding add_step
    round-Sound start bound depth d rs s g le i (w, same) =
        let (steps, _) = enter_new-steps depth rs s in
        record {
          inv =
              add_step-RunInv c depth d (enter_new c depth rs s).0 g (enter_new c depth rs s).1
                (enter_new-RunInv c depth rs s i.inv) w same;
          reached_le = le;
          depths_le =
              All-append _ _ _
                (subst (All (λ (st : TraversalStep). st.depth ≤ bound)) (sym steps) i.depths_le)
                (le, tt);
          ledger = omega (
            arith,
            enter_new-total depth rs s,
            i.ledger,
            ap followed steps,
            followed-push (enter_new c depth rs s).1.result.steps _,
          );
        }

    pub forward_from-Sound :
        (config : TraversalConfig) (start bound left depth : ℕ) (current : List Resource)
        (s : Run V)
        → Undisturbed c config
        → depth + left ≡ suc bound
        → Sound start bound s
        → Leaves (Sound start bound) (forward_from c config left depth current s)
    unfolding forward_from
    forward_from-Sound config start bound zero depth current s calm sum i = i
    forward_from-Sound config start bound (suc left) depth [] s calm sum i = i
    forward_from-Sound config start bound (suc left) depth (r ∷ rs) s calm sum i =
        elim (Bool-cases (c.context_done_at depth)) [
          | inl done ↦ rw (done, forward_from) i
          | inr going ↦
              elim (Bool-cases (reached config.max_resources s.result.statistics.total_resources)) [
                | inl full ↦ rw (going, forward_from) (rw (full, forward_from) i)
                | inr room ↦
                    rw (going, forward_from)
                      (rw (room, forward_from)
                        (Gives-bind (λ _. Unit {0}) (λ x. Sound start bound x.0)
                          (discover_referenced_resources c.resolver c.checker c.scheduler
                            config.scope_filter config.skip_missing_references
                            config.max_concurrent_requests (r ∷ rs) s.filter)
                          _
                          (discover-returns c config config.skip_missing_references
                            config.scope_filter (r ∷ rs) s.filter calm)
                          (λ (d, filter) _.
                            let s1 : Run V = record s { filter = filter } in
                            let out = enter_new c depth d.resources s1 in
                            let i1 = refilter start bound s filter i in
                            Gives-bind (Extends out.1.result.resource_graph)
                              (λ x. Sound start bound x.0)
                              (add_references_to_graph d.references out.1.result.resource_graph)
                              (λ g.
                                forward_from c config left (suc depth) out.0
                                  (add_step c depth d out.0 g out.1))
                              (add_references-Extends d.references out.1.result.resource_graph
                                (enter_new-RunInv c depth d.resources s1 i1.inv).well_formed)
                              (λ g e.
                                forward_from-Sound config start bound left (suc depth) out.0 _ calm
                                  (omega (arith, sum))
                                  (round-Sound start bound depth d d.resources s1 g
                                    (omega (arith, sum)) i1 e)))))
              ]
        ]

    pub execute_forward-Sound :
        (config : TraversalConfig) (start : ℕ) (roots : List Resource) (s : Run V)
        → Undisturbed c config
        → Sound start (pos_part config.max_depth) s
        → Leaves (Sound start (pos_part config.max_depth)) (execute_forward c config roots s)
    unfolding execute_forward
    execute_forward-Sound config start roots s calm i =
        forward_from-Sound config start (pos_part config.max_depth) (pos_part config.max_depth) 1
          roots s calm (omega arith) i

    pub enter_roots-total :
        (rs : List Resource) (s : Run V)
        → (enter_roots c rs s).result.statistics.total_resources
          ≡ s.result.statistics.total_resources + length rs
    unfolding enter_roots enter_resource count_resource
    enter_roots-total [] s = omega arith
    enter_roots-total (r ∷ rs) s = omega (arith, enter_roots-total rs (enter_resource c 0 r s))

    pub enter_roots-steps :
        (rs : List Resource) (s : Run V)
        → ((enter_roots c rs s).result.steps ≡ s.result.steps)
          × ((enter_roots c rs s).result.max_depth_reached ≡ s.result.max_depth_reached)
    unfolding enter_roots enter_resource
    enter_roots-steps [] s = (refl, refl)
    enter_roots-steps (r ∷ rs) s = enter_roots-steps rs (enter_resource c 0 r s)
