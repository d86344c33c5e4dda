-- ===== src/Traversal/Batches/Process.antt =====
-- `ProcessBatch` of batch_optimizer.go, less times. The processor is an interface. A call of it
-- returns a pointer or pointers to results and an error, where `none` is nil. A result that is nil makes
-- the code panic, which is `none` as well.
use function_kubecore_schema.Base.{
  ℕ, suc, String, Bool, true, false, ◌&&◌, Option, none, some, List, [], ◌∷◌, ◌++◌, if◌then◌else◌,
  length, nat_beq,
}
use function_kubecore_schema.Graph.Types.{Resource}
use function_kubecore_schema.Graph.Builder.Keys.{generate_node_id}
use function_kubecore_schema.Graph.Builder.Build.{◌>>=◌}
use function_kubecore_schema.Traversal.Batches.{ResourceBatch, BatchId}

pub record ResourceProcessingResult (E : Type 0) : Type 0 where
  pub resource_id : String
  pub processed_resource : Resource
  pub success : Bool
  pub error : Option E

pub record BatchProcessor (E : Type 0) : Type 0 where
  pub process_resource : Resource → Option (ResourceProcessingResult E) × Option E
  pub process_batch : List Resource → List (Option (ResourceProcessingResult E)) × Option E

pub record BatchProcessingStats : Type 0 where
  pub resources_processed : ℕ
  pub resources_succeeded : ℕ
  pub resources_failed : ℕ

pub record BatchResult (E : Type 0) : Type 0 where
  pub batch_id : BatchId
  pub results : List (ResourceProcessingResult E)
  pub success : Bool
  pub errors : List E
  pub statistics : BatchProcessingStats

unfoldable pub count_result : Bool → BatchProcessingStats → BatchProcessingStats
count_result true s = record {
  resources_processed = suc s.resources_processed;
  resources_succeeded = suc s.resources_succeeded;
  resources_failed = s.resources_failed;
}
count_result false s = record {
  resources_processed = suc s.resources_processed;
  resources_succeeded = s.resources_succeeded;
  resources_failed = suc s.resources_failed;
}

abbrev pub is_empty : {A : Type 0} → List A → Bool
is_empty [] = true
is_empty (x ∷ xs) = false

module _ {E : Type 0} where
  abbrev pub option_list : Option E → List E
  option_list none = []
  option_list (some e) = e ∷ []

  -- The results of a whole batch, which the loop over them reads: it panics at one that is nil.
  unfoldable pub all_present :
      List (Option (ResourceProcessingResult E)) → Option (List (ResourceProcessingResult E))
  all_present [] = some []
  all_present (none ∷ rs) = none
  all_present (some r ∷ rs) = all_present rs >>= λ results. some (r ∷ results)

  -- The loop over the results of a whole batch.
  unfoldable pub count_results : List (ResourceProcessingResult E) → BatchResult E → BatchResult E
  count_results [] b = b
  count_results (r ∷ rs) b = count_results rs (record b {
    errors = if r.success then b.errors else b.errors ++ option_list r.error;
    statistics = count_result r.success b.statistics;
  })

  abbrev pub error_result : Resource → E → ResourceProcessingResult E
  error_result r e = record {
    resource_id = generate_node_id r;
    processed_resource = r;
    success = false;
    error = some e;
  }

  abbrev pub take_result :
      Resource
      → Option (ResourceProcessingResult E) × Option E
      → BatchResult E
      → Option (BatchResult E)
  take_result r (none, none) b = none
  take_result r (some result, none) b = some (record b {
    results = b.results ++ result ∷ [];
    statistics = count_result result.success b.statistics;
  })
  take_result r (result, some e) b = some (record b {
    results = b.results ++ error_result r e ∷ [];
    success = false;
    errors = b.errors ++ e ∷ [];
    statistics = count_result false b.statistics;
  })

  -- The loop over the resources, one by one.
  unfoldable pub process_each :
      BatchProcessor E → List Resource → BatchResult E → Option (BatchResult E)
  process_each processor [] b = some b
  process_each processor (r ∷ rs) b =
      take_result r (processor.process_resource r) b >>= process_each processor rs

  abbrev pub is_nil : Option E → Bool
  is_nil none = true
  is_nil (some e) = false

  abbrev pub new_batch_result : BatchId → BatchResult E
  new_batch_result id = record {
    batch_id = id;
    results = [];
    success = true;
    errors = [];
    statistics = record { resources_processed = 0; resources_succeeded = 0; resources_failed = 0 };
  }

  -- The end of `ProcessBatch`: errors make the batch fail.
  abbrev pub settle : BatchResult E → BatchResult E
  settle b = record b { success = if is_empty b.errors then b.success else false }

  unfoldable pub process_batch : BatchProcessor E → ResourceBatch → Option (BatchResult E)
  process_batch processor batch =
      let (results, error) = processor.process_batch batch.resources in
      (if is_nil error && nat_beq (length results) (length batch.resources)
        then (all_present results >>= λ whole.
            some (count_results whole (record (new_batch_result batch.id) { results = whole })))
        else process_each processor batch.resources (new_batch_result batch.id))
      >>= λ b. some (settle b)
