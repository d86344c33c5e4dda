-- ===== src/Traversal/Tracker.antt =====
-- `ResourceTracker` of pkg/traversal/resource_tracker.go. Every method holds the tracker's lock
-- throughout, so it is one step; `now` is what `time.Now()` returns in it. `V` are the values of the
-- metadata. A call returns the tracker as it leaves it.
pub mod Inv
pub mod Indexed
pub mod Calls
use function_kubecore_schema.Base.{
  ℕ, zero, suc, ◌+◌, ◌-◌, String, Bool, true, false, ◌||◌, Option, none, some, List, [], ◌∷◌, ◌++◌,
  string_eq, int_eq, ◌==◌, if◌then◌else◌, is_some, ltb, length, ℤ, pos, ltb_ℤ, Dict, lookup, insert,
  has, get_or,
}

pub record ProcessedResourceInfo (V : Type 0) : Type 0 where
  pub resource_id : String
  pub uid : String
  pub processed_at : ℕ
  pub depth : ℤ
  pub processing_count : ℕ
  pub last_processed_at : ℕ
  pub discovery_path : List String
  pub reference_count : ℤ
  pub processing_time : ℤ
  pub metadata : Dict String V

pub record ResourceTracker (V : Type 0) : Type 0 where
  pub processed_resources : Dict String (ProcessedResourceInfo V)
  pub processing_order : List String
  pub uid_index : Dict String String
  pub depth_index : Dict ℤ (List String)
  pub start_time : ℕ

-- Less the times.
pub record ResourceTrackerStats : Type 0 where
  pub total_resources : ℕ
  pub resources_by_depth : Dict ℤ ℕ
  pub duplicate_attempts : ℕ
  pub max_depth : ℤ
  pub unique_uids : ℕ

-- The loop of `GetMaxDepth`
unfoldable pub max_depth : Dict ℤ (List String) → ℤ → ℤ
max_depth [] m = m
max_depth ((depth, ids) ∷ rest) m = max_depth rest (if ltb_ℤ m depth then depth else m)

-- The lengths that `GetStats` takes
unfoldable pub count_depths : Dict ℤ (List String) → Dict ℤ ℕ
count_depths [] = []
count_depths ((depth, ids) ∷ rest) = (depth, length ids) ∷ count_depths rest

module _ {V : Type 0} where
  unfoldable pub new_resource_tracker : ℕ → ResourceTracker V
  new_resource_tracker now = record {
    processed_resources = [];
    processing_order = [];
    uid_index = [];
    depth_index = [];
    start_time = now;
  }

  unfoldable pub is_processed : String → ResourceTracker V → Bool
  is_processed resource_id rt = has resource_id rt.processed_resources

  unfoldable pub is_processed_by_uid : String → ResourceTracker V → Bool
  is_processed_by_uid uid rt = has uid rt.uid_index

  -- the update of an existing entry
  abbrev pub process_again : ℕ → ProcessedResourceInfo V → ProcessedResourceInfo V
  process_again now info = record info {
    processing_count = info.processing_count + 1;
    last_processed_at = now;
  }

  abbrev pub new_info : ℕ → String → String → ℤ → ProcessedResourceInfo V
  new_info now resource_id uid depth = record {
    resource_id = resource_id;
    uid = uid;
    processed_at = now;
    depth = depth;
    processing_count = 1;
    last_processed_at = now;
    discovery_path = [];
    reference_count = pos 0;
    processing_time = pos 0;
    metadata = [];
  }

  -- The end of `MarkProcessed` and `MarkProcessedWithUID`, less the index of UIDs.
  unfoldable pub enter_info :
      String → ℤ → ProcessedResourceInfo V → ResourceTracker V → ResourceTracker V
  enter_info resource_id depth info rt = record rt {
    processed_resources = insert resource_id info rt.processed_resources;
    processing_order = rt.processing_order ++ (resource_id ∷ []);
    depth_index =
        insert depth (get_or depth rt.depth_index [] ++ (resource_id ∷ [])) rt.depth_index;
  }

  abbrev pub put_info : String → ProcessedResourceInfo V → ResourceTracker V → ResourceTracker V
  put_info resource_id info rt = record rt {
    processed_resources = insert resource_id info rt.processed_resources;
  }

  -- `MarkProcessed`
  unfoldable pub mark_processed : ℕ → String → ℤ → ResourceTracker V → ResourceTracker V
  mark_processed now resource_id depth rt = elim (lookup resource_id rt.processed_resources) [
    | some info ↦ put_info resource_id (process_again now info) rt
    | none ↦ enter_info resource_id depth (new_info now resource_id "" depth) rt
  ]

  -- `MarkProcessedWithUID` behind the test of the UID
  unfoldable pub mark_own : ℕ → String → String → ℤ → ResourceTracker V → ResourceTracker V
  mark_own now resource_id uid depth rt = elim (lookup resource_id rt.processed_resources) [
    | some info ↦ record (put_info resource_id (record (process_again now info) { uid = uid }) rt) {
      uid_index = insert uid resource_id rt.uid_index;
    }
    | none ↦ record (enter_info resource_id depth (new_info now resource_id uid depth) rt) {
      uid_index = insert uid resource_id rt.uid_index;
    }
  ]

  -- The resource that another one with the same UID is taken for.
  unfoldable pub same_uid :
      String → String → ResourceTracker V → Option (String × ProcessedResourceInfo V)
  same_uid resource_id uid rt = elim (lookup uid rt.uid_index) [
    | none ↦ none
    | some existing_id ↦
        if existing_id == resource_id
        then none
        else elim (lookup existing_id rt.processed_resources) [
          | none ↦ none
          | some info ↦ some (existing_id, info)
        ]
  ]

  -- `MarkProcessedWithUID`
  unfoldable pub mark_processed_with_uid :
      ℕ → String → String → ℤ → ResourceTracker V → ResourceTracker V
  mark_processed_with_uid now resource_id uid depth rt = elim (same_uid resource_id uid rt) [
    | some (existing_id, info) ↦ put_info existing_id (process_again now info) rt
    | none ↦ mark_own now resource_id uid depth rt
  ]

  -- An update of the entry of a resource, if it has one.
  abbrev pub update_info :
      String
      → (ProcessedResourceInfo V → ProcessedResourceInfo V)
      → ResourceTracker V
      → ResourceTracker V
  update_info resource_id f rt = elim (lookup resource_id rt.processed_resources) [
    | some info ↦ put_info resource_id (f info) rt
    | none ↦ rt
  ]

  unfoldable pub set_discovery_path : String → List String → ResourceTracker V → ResourceTracker V
  set_discovery_path resource_id path rt =
      update_info resource_id (λ info. record info { discovery_path = path }) rt

  unfoldable pub set_reference_count : String → ℤ → ResourceTracker V → ResourceTracker V
  set_reference_count resource_id count rt =
      update_info resource_id (λ info. record info { reference_count = count }) rt

  unfoldable pub set_processing_time : String → ℤ → ResourceTracker V → ResourceTracker V
  set_processing_time resource_id duration rt =
      update_info resource_id (λ info. record info { processing_time = duration }) rt

  unfoldable pub set_metadata : String → String → V → ResourceTracker V → ResourceTracker V
  set_metadata resource_id key value rt =
      update_info resource_id (λ info. record info { metadata = insert key value info.metadata }) rt

  unfoldable pub get_processed_resource :
      String → ResourceTracker V → Option (ProcessedResourceInfo V)
  get_processed_resource resource_id rt = lookup resource_id rt.processed_resources

  unfoldable pub get_resources_by_depth : ℤ → ResourceTracker V → List String
  get_resources_by_depth depth rt = get_or depth rt.depth_index []

  unfoldable pub reset : ℕ → ResourceTracker V → ResourceTracker V
  reset now rt = new_resource_tracker now

  -- The loop of `GetStats` over the entries
  unfoldable pub duplicate_attempts : Dict String (ProcessedResourceInfo V) → ℕ
  duplicate_attempts [] = 0
  duplicate_attempts ((id, info) ∷ rest) =
      (if ltb 1 info.processing_count then info.processing_count - 1 else 0)
      + duplicate_attempts rest

  -- `GetStats`
  unfoldable pub get_stats : ResourceTracker V → ResourceTrackerStats
  get_stats rt = record {
    total_resources = length rt.processed_resources;
    resources_by_depth = count_depths rt.depth_index;
    duplicate_attempts = duplicate_attempts rt.processed_resources;
    max_depth = max_depth rt.depth_index (pos 0);
    unique_uids = length rt.uid_index;
  }

  -- `HasDuplicates`
  unfoldable pub has_duplicates : Dict String (ProcessedResourceInfo V) → Bool
  has_duplicates [] = false
  has_duplicates ((id, info) ∷ rest) = ltb 1 info.processing_count || has_duplicates rest

  -- `CountAtDepth`
  unfoldable pub count_at_depth : ℤ → ResourceTracker V → ℕ
  count_at_depth depth rt = length (get_or depth rt.depth_index [])

  -- `GetDuplicates`
  unfoldable pub get_duplicates : Dict String (ProcessedResourceInfo V) → List String
  get_duplicates [] = []
  get_duplicates ((id, info) ∷ rest) =
      let duplicates = get_duplicates rest in
      if ltb 1 info.processing_count then id ∷ duplicates else duplicates

  -- `IsAtDepth`
  unfoldable pub is_at_depth : ℤ → ResourceTracker V → Bool
  is_at_depth depth rt = elim (lookup depth rt.depth_index) [
    | none ↦ false
    | some resources ↦ ltb 0 (length resources)
  ]

  -- `GetResourceIDByUID`
  unfoldable pub get_resource_id_by_uid : String → ResourceTracker V → Option String
  get_resource_id_by_uid uid rt = lookup uid rt.uid_index

  -- `GetProcessingOrder`
  unfoldable pub get_processing_order : ResourceTracker V → List String
  get_processing_order rt = rt.processing_order

  -- `Size`
  unfoldable pub size : ResourceTracker V → ℕ
  size rt = length rt.processed_resources
