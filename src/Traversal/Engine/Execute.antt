-- ===== src/Traversal/Engine/Execute.antt =====
-- `ExecuteTransitiveDiscovery` of engine.go with its three directions, and `ValidateTraversalResult`,
-- less times and the warning about them.
use function_kubecore_schema.Base.{
  ℕ, Bool, ◌&&◌, not, Option, none, some, List, [], ◌∷◌, ◌++◌, map, if◌then◌else◌, ltb_ℤ, pos,
  reached,
}
use function_kubecore_schema.Graph.Types.{Resource, GraphValidationError}
use function_kubecore_schema.Graph.Builder.Defs.{new_graph}
use function_kubecore_schema.Graph.Builder.Build.{◌>>=◌}
use function_kubecore_schema.Graph.Builder.Validate.{validate_graph}
use function_kubecore_schema.Traversal.Tracker.{ResourceTracker, reset}
use function_kubecore_schema.Traversal.Filter.Scope.{FilterStatistics}
use function_kubecore_schema.Traversal.Engine.{
  Direction, TraversalConfig, TraversalResult, Run, TraversalFailure, cycles_detected,
  unsupported_direction, TerminationReason, completed, max_depth_hit, max_resources_hit,
  cycle_found, failed, Components, enter_roots, execute_forward,
}

pub data TraversalValidationError : Type 0 where
  invalid_graph : GraphValidationError → TraversalValidationError
  cycle_error : TraversalValidationError

pub data TraversalWarning : Type 0 where
  many_resources deep_traversal : TraversalWarning

pub record TraversalValidationResult : Type 0 where
  pub valid : Bool
  pub errors : List TraversalValidationError
  pub warnings : List TraversalWarning

-- What `ExecuteTransitiveDiscovery` returns. A run that fails is not validated.
pub record Finished (V : Type 0) : Type 0 where
  pub run : Run V
  pub failure : Option TraversalFailure
  pub reason : TerminationReason
  pub validation : Option TraversalValidationResult

unfoldable pub new_result : TraversalResult
new_result = record {
  resource_graph = new_graph;
  discovered_resources = [];
  steps = [];
  max_depth_reached = 0;
  statistics = record {
    total_resources = 0;
    resources_by_depth = [];
    resources_by_kind = [];
    resources_by_api_group = [];
  };
}

-- The reason why a traversal without an error ended.
unfoldable pub termination_reason : TraversalConfig → TraversalResult → TerminationReason
termination_reason config result =
    if reached config.max_resources result.statistics.total_resources
    then max_resources_hit
    else if reached config.max_depth result.max_depth_reached
    then max_depth_hit
    else completed

-- `cycles` says if the cycle detector ran and found one.
unfoldable pub validate_traversal_result :
    TraversalConfig → TraversalResult → Bool → TraversalValidationResult
validate_traversal_result config result cycles =
    let graph = validate_graph result.resource_graph in
    let fails = cycles && config.fail_on_cycle in
    record {
      valid = graph.valid && not fails;
      errors =
          (if graph.valid then [] else map invalid_graph graph.errors)
          ++ (if fails then cycle_error ∷ [] else []);
      warnings =
          (if ltb_ℤ config.max_resources (pos result.statistics.total_resources)
            then many_resources ∷ []
            else [])
          ++ (if reached config.max_depth result.max_depth_reached
              then deep_traversal ∷ []
              else []);
    }

module _ {V : Type 0} (c : Components) where
  -- It only goes forward.
  unfoldable pub execute_reverse :
      TraversalConfig → List Resource → Run V → Option (Run V × Option TraversalFailure)
  execute_reverse config roots s = execute_forward c config roots s

  abbrev pub then_reverse :
      TraversalConfig
      → List Resource
      → Run V × Option TraversalFailure
      → Option (Run V × Option TraversalFailure)
  then_reverse config roots (s, some failure) = some (s, some failure)
  then_reverse config roots (s, none) =
      execute_reverse (record config { direction = Direction.reverse }) roots s

  unfoldable pub execute_bidirectional :
      TraversalConfig → List Resource → Run V → Option (Run V × Option TraversalFailure)
  execute_bidirectional config roots s =
      execute_forward c (record config { direction = Direction.forward }) roots s
      >>= then_reverse config roots

  unfoldable pub run_direction :
      TraversalConfig → Direction → List Resource → Run V → Option (Run V × Option TraversalFailure)
  run_direction config Direction.forward roots s = execute_forward c config roots s
  run_direction config Direction.reverse roots s = execute_reverse config roots s
  run_direction config Direction.bidirectional roots s = execute_bidirectional config roots s
  run_direction config (Direction.unsupported d) roots s = some (s, some (unsupported_direction d))

  -- What follows the traversal.
  unfoldable pub finish : TraversalConfig → Run V × Option TraversalFailure → Finished V
  finish config (s, some failure) = record {
    run = s;
    failure = some failure;
    reason = failed;
    validation = none;
  }
  finish config (s, none) =
      let cycles = config.detection_enabled && c.cycles_found s.result.resource_graph in
      if cycles && config.fail_on_cycle
      then record {
        run = s;
        failure = some cycles_detected;
        reason = cycle_found;
        validation = none;
      }
      else record {
        run = s;
        failure = none;
        reason = termination_reason config s.result;
        validation = some (validate_traversal_result config s.result cycles);
      }

  -- The engine keeps its tracker, which it resets, and the filter between runs.
  unfoldable pub execute_transitive_discovery :
      TraversalConfig
      → List Resource
      → ℕ
      → ResourceTracker V
      → FilterStatistics
      → Option (Finished V)
  execute_transitive_discovery config roots now tracker filter =
      let start : Run V = record {
        result = new_result;
        tracker = reset now tracker;
        filter = filter;
      } in
      run_direction config config.direction roots (enter_roots c roots start) >>= λ ended.
      some (finish config ended)
