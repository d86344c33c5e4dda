-- ===== src/Traversal/Tracker/Calls.antt =====
-- Sequences of calls of a `ResourceTracker`.
use function_kubecore_schema.Base.{
  ℕ, ◌+◌, ◌≤◌, ◌≡◌, refl, ◌∙◌, inl, inr, String, true, none, some, List, [], ◌∷◌, arith, string_eq,
  int_eq, Option-cases, length, ℤ, Dict, Entries, Entries-lookup, lookup, insert, has,
  has-insert_self,
}
use function_kubecore_schema.Traversal.Tracker.{
  ProcessedResourceInfo, ResourceTracker, new_resource_tracker, process_again, new_info, enter_info,
  put_info, mark_processed, mark_own, same_uid, mark_processed_with_uid, update_info,
  set_discovery_path, set_reference_count, set_processing_time, set_metadata, reset,
  duplicate_attempts, get_stats,
}
use function_kubecore_schema.Traversal.Tracker.Indexed.{
  same_uid-found, Indexed, mark_processed-Indexed, mark_uid-Indexed, update_info-Indexed,
}
use function_kubecore_schema.Traversal.Tracker.Inv.{
  Counted, TrackerInv, TrackerInv-new, put_info-Inv, enter_info-Inv, index_uid-Inv,
}

pub data Call (V : Type 0) : Type 0 where
  mark_call : ℕ → String → ℤ → Call V
  mark_uid_call : ℕ → String → String → ℤ → Call V
  path_call : String → List String → Call V
  references_call : String → ℤ → Call V
  time_call : String → ℤ → Call V
  metadata_call : String → String → V → Call V
  reset_call : ℕ → Call V

module _ {V : Type 0} where
  unfoldable pub perform : Call V → ResourceTracker V → ResourceTracker V
  perform (mark_call now id depth) rt = mark_processed now id depth rt
  perform (mark_uid_call now id uid depth) rt = mark_processed_with_uid now id uid depth rt
  perform (path_call id path) rt = set_discovery_path id path rt
  perform (references_call id n) rt = set_reference_count id n rt
  perform (time_call id t) rt = set_processing_time id t rt
  perform (metadata_call id key v) rt = set_metadata id key v rt
  perform (reset_call now) rt = reset now rt

  unfoldable pub perform_all : List (Call V) → ResourceTracker V → ResourceTracker V
  perform_all [] rt = rt
  perform_all (x ∷ xs) rt = perform_all xs (perform x rt)

  -- The calls of `MarkProcessed` and `MarkProcessedWithUID` since the last `Reset`, after `n` of them.
  abbrev pub count_mark : Call V → ℕ → ℕ
  count_mark (mark_call now id depth) n = n + 1
  count_mark (mark_uid_call now id uid depth) n = n + 1
  count_mark (path_call id path) n = n
  count_mark (references_call id k) n = n
  count_mark (time_call id t) n = n
  count_mark (metadata_call id key v) n = n
  count_mark (reset_call now) n = 0

  abbrev pub marks : List (Call V) → ℕ → ℕ
  marks [] n = n
  marks (x ∷ xs) n = marks xs (count_mark x n)

  -- How often the resources were processed, all in all.
  abbrev pub runs : Dict String (ProcessedResourceInfo V) → ℕ
  runs [] = 0
  runs ((id, info) ∷ rest) = info.processing_count + runs rest

  runs-duplicates :
      (m : Dict String (ProcessedResourceInfo V))
      → Entries Counted m
      → length m + duplicate_attempts m ≡ runs m
  unfolding duplicate_attempts
  runs-duplicates [] h = omega arith
  runs-duplicates ((id, info) ∷ rest) h =
      let ih = runs-duplicates rest h.1 in let c = h.0.1 in ground (arith, ih, c)

  runs-insert_new :
      (k : String) (j : ProcessedResourceInfo V) (m : Dict String (ProcessedResourceInfo V))
      → lookup k m ≡ none
      → runs (insert k j m) ≡ j.processing_count + runs m
  unfolding lookup insert
  runs-insert_new k j [] h = refl
  runs-insert_new k j ((id, info) ∷ m) h = ground (arith, runs-insert_new k j m)

  runs-insert_old :
      (k : String) (i j : ProcessedResourceInfo V) (m : Dict String (ProcessedResourceInfo V))
      → lookup k m ≡ some i
      → runs (insert k j m) + i.processing_count ≡ runs m + j.processing_count
  unfolding lookup insert
  runs-insert_old k i j [] h = cc
  runs-insert_old k i j ((id, info) ∷ m) h = ground (arith, runs-insert_old k i j m)

  -- A tracker in order, whose resources were processed `n` times in all.
  pub record Tracks (n : ℕ) (rt : ResourceTracker V) : Type 0 where
    pub inv : TrackerInv rt
    pub total : runs rt.processed_resources ≡ n

  module _ (n : ℕ) (rt : ResourceTracker V) (t : Tracks n rt) where
    put-Tracks :
        (k : String) (i j : ProcessedResourceInfo V) (m : ℕ)
        → lookup k rt.processed_resources ≡ some i
        → j.resource_id ≡ i.resource_id
        → j.depth ≡ i.depth
        → i.processing_count ≤ j.processing_count
        → m + i.processing_count ≡ n + j.processing_count
        → Tracks m (put_info k j rt)
    put-Tracks k i j m found same deep grows more =
        let c : Counted k i =
          Entries-lookup Counted k rt.processed_resources i t.inv.counted found in
        record {
          inv = put_info-Inv rt t.inv k i j found (same ∙ c.0, omega (arith, c.1, grows)) deep;
          total = omega (arith, runs-insert_old k i j rt.processed_resources found, t.total, more);
        }

    enter-Tracks :
        (now : ℕ) (k u : String) (d : ℤ)
        → lookup k rt.processed_resources ≡ none
        → Tracks (n + 1) (enter_info k d (new_info now k u d) rt)
    enter-Tracks now k u d new = record {
      inv = enter_info-Inv rt t.inv k d (new_info now k u d) new (refl, omega arith) refl;
      total =
          unfold enter_info in
          omega (arith, runs-insert_new k (new_info now k u d) rt.processed_resources new, t.total);
    }

    index-Tracks :
        (u k : String)
        → has k rt.processed_resources ≡ true
        → Tracks n (record rt { uid_index = insert u k rt.uid_index })
    index-Tracks u k known = record { inv = index_uid-Inv rt t.inv u k known; total = t.total }

  module _ (n : ℕ) (rt : ResourceTracker V) (t : Tracks n rt) where
    mark_processed-Tracks :
        (now : ℕ) (k : String) (d : ℤ) → Tracks (n + 1) (mark_processed now k d rt)
    unfolding mark_processed
    mark_processed-Tracks now k d = elim (Option-cases (lookup k rt.processed_resources)) [
      | inl new ↦ rw (new, mark_processed) (enter-Tracks n rt t now k "" d new)
      | inr (i, found) ↦
          rw (found, mark_processed)
            (put-Tracks n rt t k i (process_again now i) (n + 1) found refl refl (omega arith)
              (omega arith))
    ]

    mark_own-Tracks : (now : ℕ) (k u : String) (d : ℤ) → Tracks (n + 1) (mark_own now k u d rt)
    unfolding mark_own enter_info
    mark_own-Tracks now k u d = elim (Option-cases (lookup k rt.processed_resources)) [
      | inl new ↦
          rw (new, mark_own)
            (index-Tracks (n + 1) _ (enter-Tracks n rt t now k u d new) u k
              (unfold enter_info in has-insert_self k (new_info now k u d) rt.processed_resources))
      | inr (i, found) ↦
          let j = record (process_again now i) { uid = u } in
          rw (found, mark_own)
            (index-Tracks (n + 1) _
              (put-Tracks n rt t k i j (n + 1) found refl refl (omega arith) (omega arith)) u k
              (has-insert_self k j rt.processed_resources))
    ]

    mark_uid-Tracks :
        (now : ℕ) (k u : String) (d : ℤ) → Tracks (n + 1) (mark_processed_with_uid now k u d rt)
    unfolding mark_processed_with_uid
    mark_uid-Tracks now k u d = elim (Option-cases (same_uid k u rt)) [
      | inl own ↦ rw (own, mark_processed_with_uid) (mark_own-Tracks now k u d)
      | inr ((l, i), other) ↦
          rw (other, mark_processed_with_uid)
            (put-Tracks n rt t l i (process_again now i) (n + 1) (same_uid-found rt k u l i other)
              refl refl (omega arith) (omega arith))
    ]

    update_info-Tracks :
        (k : String) (f : ProcessedResourceInfo V → ProcessedResourceInfo V)
        → ((i : ProcessedResourceInfo V)
            → ((f i).resource_id ≡ i.resource_id)
              × (((f i).depth ≡ i.depth) × ((f i).processing_count ≡ i.processing_count)))
        → Tracks n (update_info k f rt)
    update_info-Tracks k f keeps = elim (Option-cases (lookup k rt.processed_resources)) [
      | inl absent ↦ rw (absent, update_info) t
      | inr (i, found) ↦
          let (same, (deep, count)) = keeps i in
          rw (found, update_info)
            (put-Tracks n rt t k i (f i) n found same deep (omega (arith, count))
              (omega (arith, count)))
    ]

  perform-Tracks :
      (n : ℕ) (rt : ResourceTracker V) (x : Call V)
      → Tracks n rt
      → Tracks (count_mark x n) (perform x rt)
  unfolding perform set_discovery_path set_reference_count set_processing_time set_metadata reset
  perform-Tracks n rt (mark_call now id depth) t = mark_processed-Tracks n rt t now id depth
  perform-Tracks n rt (mark_uid_call now id uid depth) t = mark_uid-Tracks n rt t now id uid depth
  perform-Tracks n rt (path_call id path) t =
      update_info-Tracks n rt t id _ (λ i. (refl, (refl, refl)))
  perform-Tracks n rt (references_call id k) t =
      update_info-Tracks n rt t id _ (λ i. (refl, (refl, refl)))
  perform-Tracks n rt (time_call id d) t =
      update_info-Tracks n rt t id _ (λ i. (refl, (refl, refl)))
  perform-Tracks n rt (metadata_call id key v) t =
      update_info-Tracks n rt t id _ (λ i. (refl, (refl, refl)))
  perform-Tracks n rt (reset_call now) t = record {
    inv = TrackerInv-new now;
    total = unfold new_resource_tracker in refl;
  }

  all-Tracks :
      (n : ℕ) (rt : ResourceTracker V) (xs : List (Call V))
      → Tracks n rt
      → Tracks (marks xs n) (perform_all xs rt)
  unfolding perform_all
  all-Tracks n rt [] t = t
  all-Tracks n rt (x ∷ xs) t =
      all-Tracks (count_mark x n) (perform x rt) xs (perform-Tracks n rt x t)

  new-Tracks : (now : ℕ) → Tracks 0 (new_resource_tracker now)
  new-Tracks now = record { inv = TrackerInv-new now; total = unfold new_resource_tracker in refl }

module _ {V : Type 0} where
  perform-Indexed :
      (rt : ResourceTracker V) (x : Call V) → TrackerInv rt → Indexed rt → Indexed (perform x rt)
  unfolding perform set_discovery_path set_reference_count set_processing_time set_metadata reset
      new_resource_tracker
  perform-Indexed rt (mark_call now id depth) i h = mark_processed-Indexed rt h now id depth
  perform-Indexed rt (mark_uid_call now id uid depth) i h = mark_uid-Indexed rt h i now id uid depth
  perform-Indexed rt (path_call id path) i h = update_info-Indexed rt h id _ (λ x. refl)
  perform-Indexed rt (references_call id k) i h = update_info-Indexed rt h id _ (λ x. refl)
  perform-Indexed rt (time_call id d) i h = update_info-Indexed rt h id _ (λ x. refl)
  perform-Indexed rt (metadata_call id key v) i h = update_info-Indexed rt h id _ (λ x. refl)
  perform-Indexed rt (reset_call now) i h = tt

  all-Indexed :
      (n : ℕ) (rt : ResourceTracker V) (xs : List (Call V))
      → Tracks n rt
      → Indexed rt
      → Indexed (perform_all xs rt)
  unfolding perform_all
  all-Indexed n rt [] t h = h
  all-Indexed n rt (x ∷ xs) t h =
      all-Indexed (count_mark x n) (perform x rt) xs (perform-Tracks n rt x t)
        (perform-Indexed rt x t.inv h)

-- Through any calls of the methods of a new `ResourceTracker`, the resources in order of processing
-- are those with an entry, once each; the resources listed at a depth are those discovered there;
-- every UID of the index leads to a resource with an entry, and the UID of an entry that has one leads
-- to that entry; and an entry was processed at least once.
pub perform_all-TrackerInv :
    {V : Type 0} (now : ℕ) (xs : List (Call V))
    → TrackerInv (perform_all xs (new_resource_tracker now))
      × Indexed (perform_all xs (new_resource_tracker now))
perform_all-TrackerInv now xs = (
  (all-Tracks 0 (new_resource_tracker now) xs (new-Tracks now)).inv,
  all-Indexed 0 (new_resource_tracker now) xs (new-Tracks now) (unfold new_resource_tracker in tt),
)

-- Through any calls of the methods of a new `ResourceTracker`, the resources and the duplicate attempts
-- that `GetStats` reports are together the calls of `MarkProcessed` and `MarkProcessedWithUID` since the
-- last `Reset`.
pub get_stats-marks :
    {V : Type 0} (now : ℕ) (xs : List (Call V))
    → let rt = perform_all xs (new_resource_tracker now) in
      (get_stats rt).total_resources + (get_stats rt).duplicate_attempts ≡ marks xs 0
unfolding get_stats
get_stats-marks now xs =
    let t = all-Tracks 0 (new_resource_tracker now) xs (new-Tracks now) in
    runs-duplicates _ t.inv.counted ∙ t.total
