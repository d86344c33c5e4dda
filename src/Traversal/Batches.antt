-- ===== src/Traversal/Batches.antt =====
-- pkg/traversal/batch_optimizer.go: how resources are put into batches. The depth of a resource, which
-- `getResourceDepth` scans from an annotation, is an argument. `none` is a panic, or a loop that runs
-- out of its fuel.
pub mod Split
pub mod Partition
pub mod Optimize
pub mod Process
pub mod Processed
use function_kubecore_schema.Base.{
  ℕ, zero, suc, ◌+◌, ◌*◌, String, Bool, true, false, ◌||◌, not, Option, none, some, List, [], ◌∷◌,
  ◌++◌, string_eq, int_eq, text_eq, Eq, ◌==◌, if◌then◌else◌, length, ℤ, pos, negsuc, ltb_ℤ, add_ℤ,
  sub_ℤ, quot_ℤ, Dict, lookup, insert, get_or, count_up, Text, runes, take, drop,
}
use function_kubecore_schema.Graph.Types.{Resource}
use function_kubecore_schema.Graph.Builder.Build.{◌>>=◌}
use function_kubecore_schema.Traversal.Filter.Platform.{before_slash}

pub record BatchConfig : Type 0 where
  pub enabled : Bool
  pub batch_size : ℤ
  pub same_depth_batching : Bool

-- The numbers in the identifier of a batch.
pub data BatchId : Type 0 where
  single_batch : BatchId
  size_batch : ℕ → BatchId
  depth_batch : ℤ → ℕ → BatchId

pub record BatchMetadata : Type 0 where
  pub api_groups : List Text
  pub kinds : List String
  pub namespaces : List String
  pub estimated_milliseconds : ℕ
  pub single_api_group : Option Text
  pub single_kind : Option String
  pub single_namespace : Option String

pub record ResourceBatch : Type 0 where
  pub id : BatchId
  pub resources : List Resource
  pub batch_type : String
  pub priority : ℤ
  pub depth : ℤ
  pub metadata : BatchMetadata

-- Less the times and the averages.
pub record BatchOptimizationStats : Type 0 where
  pub total_resources : ℕ
  pub total_batches : ℕ
  pub batch_types : Dict String ℕ
  pub depth_distribution : Dict ℤ ℕ

-- The group of an API version, in a batch's metadata.
unfoldable pub batch_api_group : Text → Text
batch_api_group api_version = elim (before_slash api_version) [
  | none ↦ runes "core"
  | some part ↦ part
]

-- The keys of a map that only says which keys it has.
abbrev pub keys {ℓ} : {K : Type ℓ} → Dict K Bool → List K
keys [] = []
keys ((k, b) ∷ m) = k ∷ keys m

unfoldable pub api_group_set : List Resource → Dict Text Bool → Dict Text Bool
api_group_set [] m = m
api_group_set (r ∷ rs) m = api_group_set rs (insert (batch_api_group (runes r.api_version)) true m)

unfoldable pub kind_set : List Resource → Dict String Bool → Dict String Bool
kind_set [] m = m
kind_set (r ∷ rs) m = kind_set rs (insert r.kind true m)

unfoldable pub namespace_set : List Resource → Dict String Bool → Dict String Bool
namespace_set [] m = m
namespace_set (r ∷ rs) m =
    namespace_set rs (if r.namespace == "" then m else insert r.namespace true m)

abbrev pub single {ℓ} : {A : Type ℓ} → List A → Option A
single (x ∷ []) = some x
single _ = none

unfoldable pub create_batch_metadata : List Resource → BatchMetadata
create_batch_metadata rs =
    let api_groups = keys (api_group_set rs []) in
    let kinds = keys (kind_set rs []) in
    let namespaces = keys (namespace_set rs []) in
    record {
      api_groups = api_groups;
      kinds = kinds;
      namespaces = namespaces;
      estimated_milliseconds = length rs * 100;
      single_api_group = single api_groups;
      single_kind = single kinds;
      single_namespace = single namespaces;
    }

unfoldable pub calculate_depth_priority : ℤ → ℤ
calculate_depth_priority depth = sub_ℤ (pos 10) depth

-- resources[0:n], resources[n:2n] and so on.
unfoldable pub chunks : ℕ → ℕ → List Resource → Option (List (List Resource))
chunks fuel n [] = some []
chunks zero n (r ∷ rs) = none
chunks (suc fuel) n (r ∷ rs) =
    chunks fuel n (drop n (r ∷ rs)) >>= λ rest. some (take n (r ∷ rs) ∷ rest)

-- The same by a size that can be negative, where the first slice panics.
unfoldable pub slices : ℕ → ℤ → List Resource → Option (List (List Resource))
slices fuel (pos n) rs = chunks fuel n rs
slices fuel (negsuc n) [] = some []
slices fuel (negsuc n) (r ∷ rs) = none

-- What the loops over slices write: the batches, and their count by type.
abbrev pub Batching : Type 0
Batching = List ResourceBatch × Dict String ℕ

-- A batch for each slice. `make` gets the number of batches before it.
unfoldable pub append_batches :
    (ℕ → List Resource → ResourceBatch) → String → List (List Resource) → Batching → Batching
append_batches make batch_type [] b = b
append_batches make batch_type (c ∷ cs) (batches, types) =
    append_batches make batch_type cs
      (batches ++ make (length batches) c ∷ [], count_up batch_type types)

module _ (depth_of : Resource → ℤ) where
  unfoldable pub total_depth : List Resource → ℤ
  total_depth [] = pos 0
  total_depth (r ∷ rs) = add_ℤ (depth_of r) (total_depth rs)

  unfoldable pub get_average_depth : List Resource → ℤ
  get_average_depth [] = pos 0
  get_average_depth (r ∷ rs) = quot_ℤ (total_depth (r ∷ rs)) (length (r ∷ rs))

  abbrev pub make_size_batch : BatchId → List Resource → ResourceBatch
  make_size_batch id rs = record {
    id = id;
    resources = rs;
    batch_type = "size";
    priority = pos 1;
    depth = get_average_depth rs;
    metadata = create_batch_metadata rs;
  }

  abbrev pub make_depth_batch : ℤ → ℕ → List Resource → ResourceBatch
  make_depth_batch depth n rs = record {
    id = depth_batch depth n;
    resources = rs;
    batch_type = "depth";
    priority = calculate_depth_priority depth;
    depth = depth;
    metadata = create_batch_metadata rs;
  }

  unfoldable pub batch_by_size : ℕ → BatchConfig → List Resource → Dict String ℕ → Option Batching
  batch_by_size fuel config rs types = slices fuel config.batch_size rs >>= λ cs.
      some (append_batches (λ n. make_size_batch (size_batch n)) "size" cs ([], types))

  -- The first loop of `batchByDepth`.
  unfoldable pub group_by_depth : List Resource → Dict ℤ (List Resource) → Dict ℤ (List Resource)
  group_by_depth [] m = m
  group_by_depth (r ∷ rs) m =
      group_by_depth rs (insert (depth_of r) (get_or (depth_of r) m [] ++ r ∷ []) m)

  -- The second one.
  unfoldable pub batch_groups :
      ℕ → BatchConfig → Dict ℤ (List Resource) → Batching → Option Batching
  batch_groups fuel config [] b = some b
  batch_groups fuel config ((depth, rs) ∷ m) b = slices fuel config.batch_size rs >>= λ cs.
      batch_groups fuel config m (append_batches (make_depth_batch depth) "depth" cs b)

  unfoldable pub batch_by_depth : ℕ → BatchConfig → List Resource → Dict String ℕ → Option Batching
  batch_by_depth fuel config rs types = batch_groups fuel config (group_by_depth rs []) ([], types)

  unfoldable pub count_depths : List Resource → Dict ℤ ℕ → Dict ℤ ℕ
  count_depths [] m = m
  count_depths (r ∷ rs) m = count_depths rs (count_up (depth_of r) m)

  -- The batches of `OptimizeBatches`, before the statistics.
  unfoldable pub make_batches : ℕ → BatchConfig → List Resource → Dict String ℕ → Option Batching
  make_batches fuel config rs types =
      if not config.enabled || not (ltb_ℤ config.batch_size (pos (length rs)))
      then some (make_size_batch single_batch rs ∷ [], count_up "size" types)
      else if config.same_depth_batching
      then batch_by_depth fuel config rs types
      else batch_by_size fuel config rs types

  unfoldable pub optimize_batches :
      ℕ
      → BatchConfig
      → List Resource
      → BatchOptimizationStats
      → Option (List ResourceBatch × BatchOptimizationStats)
  optimize_batches fuel config rs stats = make_batches fuel config rs stats.batch_types >>= λ b.
      some (
        b.0,
        record {
          total_resources = stats.total_resources + length rs;
          total_batches = stats.total_batches + length b.0;
          batch_types = b.1;
          depth_distribution = count_depths rs stats.depth_distribution;
        },
      )
