-- ===== src/Traversal/Engine.antt =====
-- pkg/traversal/engine.go. The resolver of references, the platform checker and the cycle detector
-- are interfaces, and arguments here, as is the scheduler of the goroutines; the filter, the tracker and
-- the graph builder are the models of their own modules. `none` is a call that does not return.
pub mod Discover
pub mod Execute
pub mod Linked
pub mod Inv
pub mod Forward
pub mod Results
pub mod Stuck
use Prim.Native.String.{◌++◌ as ◌+++◌}
use function_kubecore_schema.Base.{
  Eq, ℕ, zero, suc, ◌+◌, String, Bool, true, false, ◌&&◌, not, Option, none, some, List, [], ◌∷◌,
  ◌++◌, string_eq, nat_eq, ◌==◌, if◌then◌else◌, leb, length, ℤ, pos, pos_part, reached, Dict,
  lookup, insert, has, get_or, count_up,
}
use function_kubecore_schema.Graph.Types.{
  NodeId, RelationType, owner_ref, custom_ref, Resource, ResourceGraph, GraphValidationError,
}
use function_kubecore_schema.Graph.Builder.Keys.{generate_node_id, split_slash}
use function_kubecore_schema.Graph.Builder.Defs.{
  RefType, ref_owner, ReferenceField, new_graph, add_node, EdgeSpec, add_edge,
}
use function_kubecore_schema.Graph.Builder.Build.{◌>>=◌}
use function_kubecore_schema.Graph.Builder.Validate.{validate_graph}
use function_kubecore_schema.Traversal.Tracker.{
  ResourceTracker, new_resource_tracker, is_processed, mark_processed,
}
use function_kubecore_schema.Traversal.Filter.Scope.{
  PlatformChecker, ScopeFilterConfig, FilterStatistics,
}
use function_kubecore_schema.Traversal.Engine.Discover.{
  Resolver, Scheduler, DiscoveryResult, discover_referenced_resources,
}

pub data Direction : Type 0 where
  forward reverse bidirectional : Direction
  unsupported : String → Direction

pub record TraversalConfig : Type 0 where
  pub max_depth : ℤ
  pub max_resources : ℤ
  pub direction : Direction
  pub scope_filter : ScopeFilterConfig
  pub skip_missing_references : Bool
  pub max_concurrent_requests : ℤ
  pub detection_enabled : Bool
  pub fail_on_cycle : Bool

pub record TraversalStatistics : Type 0 where
  pub total_resources : ℕ
  pub resources_by_depth : Dict ℕ ℕ
  pub resources_by_kind : Dict String ℕ
  pub resources_by_api_group : Dict String ℕ

pub record TraversalStep : Type 0 where
  pub step_id : ℕ
  pub depth : ℕ
  pub references_found : ℕ
  pub references_followed : ℕ

-- The part of `TraversalResult` that the traversal writes.
pub record TraversalResult : Type 0 where
  pub resource_graph : ResourceGraph
  pub discovered_resources : Dict String Resource
  pub steps : List TraversalStep
  pub max_depth_reached : ℕ
  pub statistics : TraversalStatistics

-- The state of a run: the result, and what the engine's components keep.
pub record Run (V : Type 0) : Type 0 where
  pub result : TraversalResult
  pub tracker : ResourceTracker V
  pub filter : FilterStatistics

pub data TraversalFailure : Type 0 where
  context_done cycles_detected : TraversalFailure
  unsupported_direction : String → TraversalFailure

pub data TerminationReason : Type 0 where
  completed max_depth_hit max_resources_hit cycle_found failed : TerminationReason

-- What the engine is built from: interfaces, the clock and the scheduler.
pub record Components : Type 0 where
  pub resolver : Resolver
  pub checker : PlatformChecker
  pub scheduler : Scheduler
  pub is_platform : Resource → Bool
  pub cycles_found : ResourceGraph → Bool
  pub context_done_at : ℕ → Bool
  pub clock : String → ℕ

abbrev group_of_parts : List String → String
group_of_parts (group ∷ version ∷ []) = group
group_of_parts _ = "core"

unfoldable pub extract_api_group : String → String
extract_api_group api_version = group_of_parts (split_slash "" api_version)

unfoldable pub count_resource : ℕ → Resource → TraversalStatistics → TraversalStatistics
count_resource depth r s = record {
  total_resources = suc s.total_resources;
  resources_by_depth = count_up depth s.resources_by_depth;
  resources_by_kind = count_up r.kind s.resources_by_kind;
  resources_by_api_group = count_up (extract_api_group r.api_version) s.resources_by_api_group;
}

unfoldable pub map_relation_type : RefType → RelationType
map_relation_type t = elim t [ ref_owner ↦ owner_ref | _ ↦ custom_ref ]

-- The key of a target, whose namespace and name the engine leaves empty.
unfoldable pub target_resource_id : ReferenceField → NodeId
target_resource_id ref = ref.target_group +++ "/" +++ ref.target_kind +++ "/" +++ "/"

abbrev pub reference_spec : ReferenceField → EdgeSpec
reference_spec ref = record {
  relation_type = map_relation_type ref.ref_type;
  field_path = ref.field_path;
  field_name = ref.field_name;
  confidence = ref.confidence;
}

-- The inner loop of `addReferencesToGraph`.
unfoldable pub add_fields : NodeId → List ReferenceField → ResourceGraph → Option ResourceGraph
add_fields source [] g = some g
add_fields source (ref ∷ refs) g =
    let target = target_resource_id ref in
    if has source g.nodes && has target g.nodes
    then (add_edge g source target (reference_spec ref) >>= λ r. add_fields source refs r.0)
    else add_fields source refs g

unfoldable pub add_references_to_graph :
    Dict String (List ReferenceField) → ResourceGraph → Option ResourceGraph
add_references_to_graph [] g = some g
add_references_to_graph ((source, refs) ∷ rest) g =
    add_fields source refs g >>= add_references_to_graph rest

module _ {V : Type 0} (c : Components) where
  -- A resource that is new, at a depth: into the graph, the resources, the tracker and the counts.
  unfoldable pub enter_resource : ℕ → Resource → Run V → Run V
  enter_resource depth r s =
      let id = generate_node_id r in
      record s {
        result = record {
          resource_graph = (add_node c.is_platform s.result.resource_graph r (pos depth) []).0;
          discovered_resources = insert id r s.result.discovered_resources;
          steps = s.result.steps;
          max_depth_reached = s.result.max_depth_reached;
          statistics = count_resource depth r s.result.statistics;
        };
        tracker = mark_processed (c.clock id) id (pos depth) s.tracker;
      }

  -- The loop over the roots.
  unfoldable pub enter_roots : List Resource → Run V → Run V
  enter_roots [] s = s
  enter_roots (r ∷ rs) s = enter_roots rs (enter_resource 0 r s)

  -- The loop that keeps what the tracker does not know.
  unfoldable pub enter_new : ℕ → List Resource → Run V → List Resource × Run V
  enter_new depth [] s = ([], s)
  enter_new depth (r ∷ rs) s =
      if is_processed (generate_node_id r) s.tracker
      then enter_new depth rs s
      else let (new, s') = enter_new depth rs (enter_resource depth r s) in (r ∷ new, s')

  -- The end of one round of the traversal.
  unfoldable pub add_step : ℕ → DiscoveryResult → List Resource → ResourceGraph → Run V → Run V
  add_step depth d new g s = record s {
    result = record {
      resource_graph = g;
      discovered_resources = s.result.discovered_resources;
      steps =
          s.result.steps
          ++ record {
            step_id = length s.result.steps;
            depth = depth;
            references_found = length d.references;
            references_followed = length new;
          }
            ∷ [];
      max_depth_reached = depth;
      statistics = s.result.statistics;
    };
  }

  -- `executeForwardTraversal` from a depth, with so many more depths to go.
  unfoldable pub forward_from :
      TraversalConfig → ℕ → ℕ → List Resource → Run V → Option (Run V × Option TraversalFailure)
  forward_from config zero depth current s = some (s, none)
  forward_from config (suc left) depth [] s = some (s, none)
  forward_from config (suc left) depth (r ∷ rs) s =
      if c.context_done_at depth
      then some (s, some context_done)
      else if reached config.max_resources s.result.statistics.total_resources
      then some (s, none)
      else (discover_referenced_resources c.resolver c.checker c.scheduler config.scope_filter
            config.skip_missing_references config.max_concurrent_requests (r ∷ rs) s.filter
          >>= λ (d, filter).
              let (new, s') = enter_new depth d.resources (record s { filter = filter }) in
              (add_references_to_graph d.references s'.result.resource_graph >>= λ g.
              forward_from config left (suc depth) new (add_step depth d new g s')))

  unfoldable pub execute_forward :
      TraversalConfig → List Resource → Run V → Option (Run V × Option TraversalFailure)
  execute_forward config roots s = forward_from config (pos_part config.max_depth) 1 roots s
