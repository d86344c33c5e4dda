-- ===== src/Tests/TrackerTests.antt =====
-- pkg/traversal/resource_tracker.go on a few calls.
use function_kubecore_schema.Base.{
  ◌+◌, ◌≡◌, refl, String, List, [], ◌∷◌, string_eq, int_eq, pos, lookup, insert,
}
use function_kubecore_schema.Traversal.Tracker.{
  ResourceTracker, new_resource_tracker, enter_info, mark_processed, mark_own, same_uid,
  mark_processed_with_uid, set_reference_count, set_metadata, duplicate_attempts, count_depths,
  max_depth, get_stats, get_resources_by_depth,
}
use function_kubecore_schema.Traversal.Tracker.Indexed.{Indexed}
use function_kubecore_schema.Traversal.Tracker.Inv.{TrackerInv}
use function_kubecore_schema.Traversal.Tracker.Calls.{
  Call, mark_call, mark_uid_call, references_call, metadata_call, perform, perform_all, marks,
  perform_all-TrackerInv, get_stats-marks,
}

abbrev calls : List (Call String)
calls =
    mark_call 1 "a" (pos 0)
    ∷ mark_uid_call 2 "b" "u" (pos 1)
    ∷ mark_uid_call 3 "c" "u" (pos 2)
    ∷ mark_call 4 "a" (pos 3)
    ∷ references_call "a" (pos 7)
    ∷ metadata_call "b" "k" "v"
    ∷ []

abbrev tracker : ResourceTracker String
tracker = perform_all calls (new_resource_tracker 0)

-- What the runs compute with.
tracker_runs : Unit {0}
unfolding new_resource_tracker enter_info mark_processed mark_own same_uid mark_processed_with_uid
    set_reference_count set_metadata duplicate_attempts count_depths max_depth get_stats
    get_resources_by_depth perform perform_all lookup insert
tracker_runs = tt

-- `c` has the UID of `b` and is taken for it.
tracker_order : tracker.processing_order ≡ "a" ∷ "b" ∷ []
unfolding tracker_runs
tracker_order = refl

tracker_depth :
    ((get_stats tracker).max_depth ≡ pos 1) × (get_resources_by_depth (pos 1) tracker ≡ "b" ∷ [])
unfolding tracker_runs
tracker_depth = (refl, refl)

perform_all-TrackerInv_example :
    TrackerInv (perform_all calls (new_resource_tracker 0))
    × Indexed (perform_all calls (new_resource_tracker 0))
perform_all-TrackerInv_example = perform_all-TrackerInv 0 calls

get_stats-marks_example :
    (get_stats tracker).total_resources + (get_stats tracker).duplicate_attempts ≡ marks calls 0
get_stats-marks_example = get_stats-marks 0 calls
