-- ===== src/Tests/EngineTests.antt =====
-- pkg/traversal/engine.go on a chain of three resources.
use function_kubecore_schema.Base.{
  ℕ, ◌≡◌, refl, ap, inr, Bool, String, true, false, Option, none, some, [], ◌∷◌, string_eq, nat_eq,
  ◌==◌, if◌then◌else◌, length, pos, lookup, insert, map,
}
use function_kubecore_schema.Graph.Types.{Resource}
use function_kubecore_schema.Graph.Builder.Keys.{generate_node_id, split_slash}
use function_kubecore_schema.Graph.Builder.Defs.{
  ReferenceField, ref_secret, new_graph, add_node, enter_node, fresh_node, shorten,
}
use function_kubecore_schema.Graph.Builder.MergedNodes.{Gives}
use function_kubecore_schema.Traversal.Tracker.{
  ResourceTracker, new_resource_tracker, reset, is_processed, mark_processed, enter_info,
}
use function_kubecore_schema.Traversal.Filter.Scope.{
  ScopeFilterConfig, new_statistics, guards, should_follow_reference, filter_references,
}
use function_kubecore_schema.Traversal.Engine.{
  Direction, forward, bidirectional, TraversalConfig, Components, count_resource,
  target_resource_id, add_fields, add_references_to_graph, enter_resource, enter_roots, enter_new,
  add_step, forward_from, execute_forward,
}
use function_kubecore_schema.Traversal.Engine.{extract_api_group as engine_api_group}
use function_kubecore_schema.Traversal.Engine.Discover.{
  high_confidence, add_discovered, discover_one, discover_all, discover_referenced_resources,
  Overlap, ended, has_places, filter_after,
}
use function_kubecore_schema.Traversal.Engine.Execute.{
  Finished, new_result, execute_reverse, execute_bidirectional, run_direction,
}
use function_kubecore_schema.Traversal.Engine.Execute.{execute_transitive_discovery, finish}
use function_kubecore_schema.Traversal.Engine.Inv.{RunInv}
use function_kubecore_schema.Traversal.Engine.Forward.{Undisturbed}
use function_kubecore_schema.Traversal.Engine.Results.{
  execute-RunInv, execute-Bounded, execute-Validated, Bounded, Validated,
}

abbrev named : String → Resource
named name = record {
  api_version = "v1";
  kind = "Secret";
  namespace = "prod";
  name = name;
  uid = "";
}

abbrev next : String → String
next name = if name == "a" then "b" else "c"

abbrev field : ReferenceField
field = record {
  field_path = "spec.ref";
  field_name = "ref";
  target_kind = "Secret";
  target_group = "";
  target_version = "v1";
  ref_type = ref_secret;
  confidence = pos 90;
  detection_method = "pattern";
}

abbrev everything : ScopeFilterConfig
everything = record {
  include_api_groups = [];
  exclude_api_groups = [];
  include_kinds = [];
  exclude_kinds = [];
  platform_only = false;
  cross_namespace_enabled = true;
  include_namespaces = [];
  exclude_namespaces = [];
}

abbrev config : Direction → TraversalConfig
config direction = record {
  max_depth = pos 5;
  max_resources = pos 100;
  direction = direction;
  scope_filter = everything;
  skip_missing_references = true;
  max_concurrent_requests = pos 10;
  detection_enabled = false;
  fail_on_cycle = false;
}

abbrev components : Components
components = record {
  resolver = record {
    extract_references = λ r. some (field ∷ []);
    resolve_references = λ r refs. (map (λ ref. named (next r.name)) refs, []);
  };
  scheduler = record { order = λ rs. rs; overlap = λ rs. Overlap.raced new_statistics };
  checker = record { is_platform_resource = λ r. false; is_platform_kind = λ kind group. false };
  is_platform = λ r. false;
  cycles_found = λ g. false;
  context_done_at = λ depth. false;
  clock = λ id. 0;
}

abbrev tracker : ResourceTracker String
tracker = new_resource_tracker 0

abbrev outcome : Option (Finished String) → Option (ℕ × ℕ × ℕ)
outcome none = none
outcome (some f) = some (
  f.run.result.statistics.total_resources,
  f.run.result.max_depth_reached,
  length f.run.result.steps,
)

abbrev run : Direction → Option (Finished String)
run direction =
    execute_transitive_discovery components (config direction) (named "a" ∷ []) 0 tracker
      new_statistics

engine_runs : Unit {0}
unfolding new_resource_tracker reset is_processed mark_processed enter_info new_statistics guards
    should_follow_reference filter_references count_resource engine_api_group split_slash
    target_resource_id add_fields add_references_to_graph enter_resource enter_roots enter_new
    add_step forward_from execute_forward high_confidence add_discovered discover_one discover_all
    discover_referenced_resources has_places filter_after new_result execute_reverse
    execute_bidirectional run_direction execute_transitive_discovery finish new_graph add_node
    enter_node fresh_node shorten generate_node_id lookup insert
engine_runs = tt

-- Depths 1 and 2 find a resource each, depth 3 finds none.
forward_value : outcome (run forward) ≡ some (3, 3, 3)
unfolding engine_runs
forward_value = refl

-- The second pass finds nothing new and reports its own depth.
bidirectional_value : outcome (run bidirectional) ≡ some (3, 1, 4)
unfolding engine_runs
bidirectional_value = refl

abbrev is_ended : Overlap → Bool
is_ended met = elim met [ ended ↦ true | _ ↦ false ]

racing : ¬ (Overlap.raced new_statistics ≡ ended)
racing e = let wrong : false ≡ true = ap is_ended e in cc

-- The calls of the filter overlap, and the program goes on.
calm : (direction : Direction) → Undisturbed components (config direction)
calm direction = (refl, inr (λ rs e. absurd (racing e)))

execute-RunInv_example : Gives (λ f. RunInv f.run) (run bidirectional)
execute-RunInv_example =
    execute-RunInv components (config bidirectional) (named "a" ∷ []) 0 tracker new_statistics
      (calm bidirectional)

execute-Bounded_example : Gives (λ f. Bounded components 1 5 f.run) (run forward)
execute-Bounded_example =
    execute-Bounded components (config forward) (named "a" ∷ []) 0 tracker new_statistics
      (calm forward)

execute-Validated_example : Gives (Validated components) (run forward)
execute-Validated_example =
    execute-Validated components (config forward) (named "a" ∷ []) 0 tracker new_statistics
      (calm forward)

abbrev is_forward : Direction → Bool
is_forward direction = elim direction [ forward ↦ true | _ ↦ false ]
