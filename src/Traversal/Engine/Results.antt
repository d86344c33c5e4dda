-- ===== src/Traversal/Engine/Results.antt =====
-- What `ExecuteTransitiveDiscovery` of engine.go returns.
use function_kubecore_schema.Base.{
  ℕ, ◌+◌, ◌≤◌, ◌≡◌, refl, sym, ap, subst, true, ◌&&◌, Option, none, some, List, [], arith, is_some,
  Bool-cases, inl, inr, length, pos_part, All, ◌⊎◌, lookup,
}
use function_kubecore_schema.Graph.Types.{Resource}
use function_kubecore_schema.Graph.Builder.Build.{◌>>=◌}
use function_kubecore_schema.Graph.Builder.WellFormed.{validate_graph-valid_iff}
use function_kubecore_schema.Graph.Builder.Preserve.{WellFormed-new}
use function_kubecore_schema.Graph.Builder.Defs.{new_graph}
use function_kubecore_schema.Graph.Builder.MergedNodes.{Gives}
use function_kubecore_schema.Traversal.Tracker.{
  ResourceTracker, reset, new_resource_tracker, is_processed,
}
use function_kubecore_schema.Traversal.Filter.Scope.{FilterStatistics}
use function_kubecore_schema.Traversal.Engine.{
  Direction, TraversalStep, forward, reverse, bidirectional, unsupported, TraversalConfig, Run,
  TraversalFailure, Components, enter_roots,
}
use function_kubecore_schema.Traversal.Engine.Execute.{
  Finished, new_result, execute_reverse, then_reverse, execute_bidirectional, run_direction, finish,
  validate_traversal_result, execute_transitive_discovery, TraversalValidationResult,
}
use function_kubecore_schema.Traversal.Engine.Inv.{RunInv, enter_roots-RunInv}
use function_kubecore_schema.Traversal.Engine.Forward.{
  Undisturbed, Sound, Leaves, execute_forward-Sound, enter_roots-total, enter_roots-steps, followed,
}

module _ {V : Type 0} (c : Components) where
  start-RunInv :
      (now : ℕ) (tracker : ResourceTracker V) (filter : FilterStatistics)
      → RunInv (record { result = new_result; tracker = reset now tracker; filter = filter })
  unfolding new_result reset new_resource_tracker is_processed lookup new_graph
  start-RunInv now tracker filter = record {
    well_formed = WellFormed-new;
    nodes = λ id. refl;
    tracked = λ id. refl;
    own = tt;
    summed = (refl, (refl, refl));
  }

  start-Sound :
      (roots : List Resource) (bound now : ℕ) (tracker : ResourceTracker V)
      (filter : FilterStatistics)
      → Sound (length roots) bound (
          enter_roots c roots
            (record { result = new_result; tracker = reset now tracker; filter = filter }))
  unfolding new_result
  start-Sound roots bound now tracker filter =
      let s : Run V = record {
        result = new_result;
        tracker = reset now tracker;
        filter = filter;
      } in
      let (steps, reached) = enter_roots-steps c roots s in
      record {
        inv = enter_roots-RunInv c roots s (start-RunInv now tracker filter);
        reached_le = omega (arith, reached);
        depths_le = subst (All (λ (st : TraversalStep). st.depth ≤ bound)) (sym steps) tt;
        ledger = omega (arith, enter_roots-total c roots s, ap followed steps);
      }

  then_reverse-Sound :
      (config : TraversalConfig) (start : ℕ) (roots : List Resource)
      (m : Option (Run V × Option TraversalFailure))
      → Undisturbed c config
      → Leaves (Sound start (pos_part config.max_depth)) m
      → Leaves (Sound start (pos_part config.max_depth)) (m >>= then_reverse c config roots)
  unfolding execute_reverse
  then_reverse-Sound config start roots none calm h = absurd h
  then_reverse-Sound config start roots (some (s, some failure)) calm h = h
  then_reverse-Sound config start roots (some (s, none)) calm h =
      execute_forward-Sound c (record config { direction = Direction.reverse }) start roots s calm h

  run_direction-Sound :
      (config : TraversalConfig) (direction : Direction) (start : ℕ) (roots : List Resource)
      (s : Run V)
      → Undisturbed c config
      → Sound start (pos_part config.max_depth) s
      → Leaves (Sound start (pos_part config.max_depth)) (run_direction c config direction roots s)
  unfolding run_direction execute_reverse execute_bidirectional
  run_direction-Sound config forward start roots s calm i =
      execute_forward-Sound c config start roots s calm i
  run_direction-Sound config reverse start roots s calm i =
      execute_forward-Sound c config start roots s calm i
  run_direction-Sound config bidirectional start roots s calm i =
      then_reverse-Sound config start roots _ calm
        (execute_forward-Sound c (record config { direction = forward }) start roots s calm i)
  run_direction-Sound config (unsupported d) start roots s calm i = i

  abbrev pub Bounded : ℕ → ℕ → Run V → Type 0
  Bounded start depth s =
      (s.result.max_depth_reached ≤ depth)
      × (All (λ (st : TraversalStep). st.depth ≤ depth) s.result.steps
          × (s.result.statistics.total_resources ≡ start + followed s.result.steps))

  -- A run that ends without an error was validated, and no error was found.
  abbrev pub Validated : Finished V → Type 0
  Validated f =
      (is_some f.failure ≡ true)
      ⊎ ((v : TraversalValidationResult) × (f.validation ≡ some v)
          × ((v.valid ≡ true) × (v.errors ≡ [])))

  finish-Sound :
      (config : TraversalConfig) (P : Run V → Type 0) (ended : Run V × Option TraversalFailure)
      → P ended.0
      → P (finish c config ended).run
  unfolding finish
  finish-Sound config P (s, some failure) p = p
  finish-Sound config P (s, none) p =
      elim (Bool-cases (
        (config.detection_enabled && c.cycles_found s.result.resource_graph)
        && config.fail_on_cycle)) [
          | inl fails ↦ subst P (rw fails refl) p
          | inr fine ↦ subst P (rw fine refl) p
        ]

  finish-Validated :
      (config : TraversalConfig) (ended : Run V × Option TraversalFailure)
      → RunInv ended.0
      → Validated (finish c config ended)
  unfolding finish validate_traversal_result
  finish-Validated config (s, some failure) i = inl refl
  finish-Validated config (s, none) i =
      let graph = (validate_graph-valid_iff s.result.resource_graph).1 i.well_formed in
      elim (Bool-cases (
        (config.detection_enabled && c.cycles_found s.result.resource_graph)
        && config.fail_on_cycle)) [
          | inl fails ↦ inl (rw fails refl)
          | inr fine ↦
              let v =
                validate_traversal_result config s.result
                  (config.detection_enabled && c.cycles_found s.result.resource_graph) in
              let shown : (finish c config (s, none)).validation ≡ some v = rw fine refl in
              let valid : v.valid ≡ true = rw (graph, fine) refl in
              let clean : v.errors ≡ [] = rw (graph, fine) refl in inr (v, shown, (valid, clean))
        ]

  abbrev Ended : TraversalConfig → ℕ → Finished V → Type 0
  Ended config start f = Sound start (pos_part config.max_depth) f.run × Validated f

  finish-Gives :
      (config : TraversalConfig) (start : ℕ) (m : Option (Run V × Option TraversalFailure))
      → Leaves (Sound start (pos_part config.max_depth)) m
      → Gives (Ended config start) (m >>= λ ended. some (finish c config ended))
  finish-Gives config start none h = absurd h
  finish-Gives config start (some ended) h = (
    finish-Sound config (Sound start (pos_part config.max_depth)) ended h,
    finish-Validated config ended h.inv,
  )

  execute-Gives :
      (config : TraversalConfig) (roots : List Resource) (now : ℕ) (tracker : ResourceTracker V)
      (filter : FilterStatistics)
      → Undisturbed c config
      → Gives
          (Ended config (length roots))
          (execute_transitive_discovery c config roots now tracker filter)
  unfolding execute_transitive_discovery
  execute-Gives config roots now tracker filter calm = finish-Gives config (length roots) _ (
      run_direction-Sound config config.direction (length roots) roots _ calm
        (start-Sound roots (pos_part config.max_depth) now tracker filter))

  weaken :
      (P Q : Finished V → Type 0) (m : Option (Finished V))
      → Gives P m
      → ((f : Finished V) → P f → Q f)
      → Gives Q m
  weaken P Q none h k = absurd h
  weaken P Q (some f) h k = k f h

  -- `ExecuteTransitiveDiscovery` returns, in any direction, whatever the resolver finds and even if it
  -- ends with an error, where `MaxConcurrentRequests` is at least one, and is one or the runtime does
  -- not end the program for two writes of the filter's map at once. It leaves a well-formed graph that has a node, and a tracker that has
  -- an entry, for exactly the identifiers of the discovered resources, and each of the counts by
  -- depth, kind and API group adds up to the total.
  pub execute-RunInv :
      (config : TraversalConfig) (roots : List Resource) (now : ℕ) (tracker : ResourceTracker V)
      (filter : FilterStatistics)
      → Undisturbed c config
      → Gives (λ f. RunInv f.run) (execute_transitive_discovery c config roots now tracker filter)
  execute-RunInv config roots now tracker filter calm =
      weaken (Ended config (length roots)) (λ f. RunInv f.run) _
        (execute-Gives config roots now tracker filter calm) (λ f h. h.0.inv)

  -- Where `MaxConcurrentRequests` is at least one, and is one or the runtime does not end the program for
  -- two writes of the filter's map at once, `ExecuteTransitiveDiscovery` returns and goes no deeper than
  -- `MaxDepth`: neither the depth that it reports nor
  -- that of any step is greater. The total that it reports is the number of roots and of the
  -- resources that its steps report as new.
  pub execute-Bounded :
      (config : TraversalConfig) (roots : List Resource) (now : ℕ) (tracker : ResourceTracker V)
      (filter : FilterStatistics)
      → Undisturbed c config
      → Gives
          (λ f. Bounded (length roots) (pos_part config.max_depth) f.run)
          (execute_transitive_discovery c config roots now tracker filter)
  execute-Bounded config roots now tracker filter calm =
      weaken (Ended config (length roots))
        (λ f. Bounded (length roots) (pos_part config.max_depth) f.run) _
        (execute-Gives config roots now tracker filter calm)
        (λ f h. (h.0.reached_le, (h.0.depths_le, h.0.ledger)))

  -- Where `MaxConcurrentRequests` is at least one, and is one or the runtime does not end the program for
  -- two writes of the filter's map at once, `ExecuteTransitiveDiscovery` returns. If it ends without an
  -- error, its `ValidationResult` is valid and lists no error, of the graph or of cycles.
  pub execute-Validated :
      (config : TraversalConfig) (roots : List Resource) (now : ℕ) (tracker : ResourceTracker V)
      (filter : FilterStatistics)
      → Undisturbed c config
      → Gives Validated (execute_transitive_discovery c config roots now tracker filter)
  execute-Validated config roots now tracker filter calm =
      weaken (Ended config (length roots)) Validated _
        (execute-Gives config roots now tracker filter calm) (λ f h. h.1)
