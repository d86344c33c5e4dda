-- ===== src/Tests/TtlTests.antt =====
-- `TTLCache` of pkg/traversal/cache.go on a cache of one entry.
use function_kubecore_schema.Base.{
  ◌≡◌, refl, String, none, some, List, [], ◌∷◌, string_eq, if◌then◌else◌, length, pos, negsuc,
  lookup, insert, delete,
}
use function_kubecore_schema.Traversal.Cache.Entry.{CacheEntry, is_expired, succ_ℤ}
use function_kubecore_schema.Traversal.Cache.Ttl.{
  TtlCache, new_ttl_cache, begin_get, begin_entry, finish_get, set, cleanup, expired_keys,
  drop_keys,
}
use function_kubecore_schema.Traversal.Cache.Ttl.Order.{InOrder}
use function_kubecore_schema.Traversal.Cache.Ttl.Cleanup.{lookup-cleanup}
use function_kubecore_schema.Traversal.Cache.Ttl.Crossing.{
  Call, set_call, get_call, cleanup_call, perform_all, size-eq-length, crossed_gets,
  crossed_gets-size,
}

abbrev entry : CacheEntry String
entry = record {
  key = "a";
  value = "x";
  expires_at = pos 60;
  accessed_at = 0;
  created_at = 0;
  access_count = 1;
}

-- One entry, which expires after 60.
abbrev one_entry : TtlCache String
one_entry = set 0 "a" "x" (pos 60) new_ttl_cache

-- What the runs compute with.
ttl_runs : Unit {0}
unfolding new_ttl_cache begin_get begin_entry finish_get set cleanup expired_keys drop_keys
    crossed_gets lookup insert delete
ttl_runs = tt

one_entry-InOrder : InOrder one_entry
unfolding ttl_runs
one_entry-InOrder = record { unique = (refl, tt); size = refl }

crossed_one : (crossed_gets 61 62 "a" one_entry).stats.size ≡ negsuc 0
unfolding ttl_runs
crossed_one = refl

a_there : lookup "a" one_entry.entries ≡ some entry
unfolding ttl_runs
a_there = refl

lookup-cleanup_example :
    lookup "a" (cleanup 61 one_entry).entries ≡ elim (lookup "a" one_entry.entries) [
      | none ↦ none
      | some e ↦ if is_expired 61 e then none else some e
    ]
lookup-cleanup_example = lookup-cleanup 61 one_entry "a" one_entry-InOrder

abbrev calls : List (Call String)
calls =
    set_call 0 "a" "x" (pos 60)
    ∷ get_call 61 "a"
    ∷ set_call 62 "b" "y" (pos 1)
    ∷ cleanup_call 70
    ∷ []

size-eq-length_example :
    (perform_all calls new_ttl_cache).stats.size
    ≡ pos (length (perform_all calls (new_ttl_cache {V = String})).entries)
size-eq-length_example = size-eq-length calls

crossed_gets-size_example :
    succ_ℤ (crossed_gets 61 62 "a" one_entry).stats.size
    ≡ pos (length (crossed_gets 61 62 "a" one_entry).entries)
crossed_gets-size_example =
    crossed_gets-size 61 62 "a" one_entry entry one_entry-InOrder a_there refl refl
