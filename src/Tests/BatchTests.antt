-- ===== src/Tests/BatchTests.antt =====
-- pkg/traversal/batch_optimizer.go on three resources of two depths.
use function_kubecore_schema.Base.{
  ◌≡◌, refl, inl, inr, String, Bool, true, false, Option, none, some, List, [], ◌∷◌, string_eq,
  int_eq, text_eq, text_beq, runes, ◌==◌, if◌then◌else◌, arith, length, ℤ, pos, map, lookup, insert,
}
use function_kubecore_schema.Graph.Types.{Resource}
use function_kubecore_schema.Graph.Builder.MergedNodes.{Gives}
use function_kubecore_schema.Traversal.Filter.Platform.{before_slash}
use function_kubecore_schema.Traversal.Batches.{
  BatchConfig, ResourceBatch, BatchOptimizationStats, single_batch, chunks, slices, append_batches,
  batch_by_size, group_by_depth, batch_groups, batch_by_depth, count_depths, make_batches,
  optimize_batches, batch_api_group, api_group_set, kind_set, namespace_set, create_batch_metadata,
  calculate_depth_priority, total_depth, get_average_depth, make_size_batch, single_batch,
}
use function_kubecore_schema.Traversal.Batches.Optimize.{
  Partitioned, optimize_batches-Partitioned, optimize_batches-endless,
}
use function_kubecore_schema.Traversal.Batches.Process.{
  BatchProcessor, count_result, count_results, process_each, process_batch,
}
use function_kubecore_schema.Traversal.Batches.Processed.{Accounted, process_batch-Accounted}

abbrev named : String → Resource
named name = record {
  api_version = "v1";
  kind = "Secret";
  namespace = "prod";
  name = name;
  uid = "";
}

abbrev depth_of : Resource → ℤ
depth_of r = if r.name == "b" then pos 2 else pos 1

abbrev resources : List Resource
resources = named "a" ∷ named "b" ∷ named "c" ∷ []

abbrev config : ℤ → Bool → BatchConfig
config size deep = record { enabled = true; batch_size = size; same_depth_batching = deep }

abbrev stats : BatchOptimizationStats
stats = record { total_resources = 0; total_batches = 0; batch_types = []; depth_distribution = [] }

abbrev names :
    Option (List ResourceBatch × BatchOptimizationStats) → Option (List (ℤ × List String))
names none = none
names (some (bs, s)) =
    some (map (λ (b : ResourceBatch). (b.priority, map (λ (r : Resource). r.name) b.resources)) bs)

batch_runs : Unit {0}
unfolding chunks slices append_batches batch_by_size group_by_depth batch_groups batch_by_depth
    count_depths make_batches optimize_batches batch_api_group api_group_set kind_set namespace_set
    create_batch_metadata calculate_depth_priority total_depth get_average_depth before_slash runes
    text_beq lookup insert count_result count_results process_each process_batch
batch_runs = tt

by_size_value :
    names (optimize_batches depth_of 3 (config (pos 2) false) resources stats)
    ≡ some ((pos 1, "a" ∷ "b" ∷ []) ∷ (pos 1, "c" ∷ []) ∷ [])
unfolding batch_runs
by_size_value = refl

by_depth_value :
    names (optimize_batches depth_of 3 (config (pos 2) true) resources stats)
    ≡ some ((pos 9, "a" ∷ "c" ∷ []) ∷ (pos 8, "b" ∷ []) ∷ [])
unfolding batch_runs
by_depth_value = refl

optimize_batches-Partitioned_example :
    Gives
      (λ r. Partitioned 2 resources r.0)
      (optimize_batches depth_of 3 (config (pos 2) true) resources stats)
optimize_batches-Partitioned_example =
    optimize_batches-Partitioned depth_of 1 3 (config (pos 2) true) resources stats refl refl
      (omega arith)

optimize_batches-endless_example :
    optimize_batches depth_of 100 (config (pos 0) false) resources stats ≡ none
optimize_batches-endless_example =
    optimize_batches-endless depth_of 100 (config (pos 0) false) (named "a")
      (named "b" ∷ named "c" ∷ []) stats refl refl refl

-- A processor that refuses whole batches, and the resource `b`.
abbrev processor : BatchProcessor String
processor = record {
  process_resource = λ r. (
    some (record { resource_id = r.name; processed_resource = r; success = true; error = none }),
    if r.name == "b" then some "refused" else none,
  );
  process_batch = λ rs. ([], some "no batches");
}

abbrev batch : ResourceBatch
batch = make_size_batch depth_of single_batch resources

processed_value : Gives (λ b. b.errors ≡ "refused" ∷ []) (process_batch processor batch)
unfolding batch_runs
processed_value = refl

-- A processor that returns neither a result nor an error.
nil_value : process_batch (record processor { process_resource = λ r. (none, none) }) batch ≡ none
unfolding batch_runs
nil_value = refl

process_batch-Accounted_example :
    Gives (Accounted (length resources)) (process_batch processor batch)
process_batch-Accounted_example =
    process_batch-Accounted processor batch (inr refl, (inl refl, (inr refl, tt))) (inl refl)
