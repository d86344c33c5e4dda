-- ===== src/Tests/LruTests.antt =====
-- `LRUCache` of pkg/traversal/cache.go on a cache of one element.
use function_kubecore_schema.Base.{
  ◌≡◌, refl, String, Option, none, some, List, [], ◌∷◌, arith, nat_eq, string_eq, pos, negsuc,
  lookup, insert, delete, map,
}
use function_kubecore_schema.Traversal.Cache.Entry.{CacheEntry}
use function_kubecore_schema.Traversal.Cache.Lru.{
  LruCache, new_lru_cache, fresh_entry, push_front, get, get_element, set, set_element,
  effective_ttl, element_of, evict_lru, evict_over, remove_element, back,
}
use function_kubecore_schema.Traversal.Cache.Lru.Inv.{LruInv, LruInv-new, push-LruInv}
use function_kubecore_schema.Traversal.Cache.Lru.Refines.{GetRefines, get-Refines}
use function_kubecore_schema.Traversal.Cache.Lru.SetRefines.{Fits, SetRefines, set-Refines}
use function_kubecore_schema.Traversal.Cache.Lru.Calls.{
  Call, get_call, set_call, remove_call, cleanup_call, perform_all, perform_all-Fits,
}
use function_kubecore_schema.Traversal.Cache.Lru.Endless.{set-endless}
use function_kubecore_schema.Traversal.Cache.Lru.RoundTrip.{get-set}

abbrev empty_cache : LruCache String
empty_cache = new_lru_cache (pos 1) (pos 60)

abbrev entry : CacheEntry String
entry = fresh_entry 0 "a" "x" (pos 60)

abbrev full : LruCache String
full = push_front empty_cache "a" entry

a_free : lookup "a" empty_cache.entries ≡ none
unfolding new_lru_cache lookup
a_free = refl

full-LruInv : LruInv full
full-LruInv = push-LruInv empty_cache (LruInv-new (pos 1) (pos 60)) entry a_free

full-Fits : Fits 1 full
full-Fits = record {
  inv = full-LruInv;
  limit = unfold push_front new_lru_cache in refl;
  bounded = unfold push_front new_lru_cache in omega arith;
}

-- What the runs compute with.
lru_runs : Unit {0}
unfolding new_lru_cache push_front get get_element set set_element element_of evict_lru evict_over
    remove_element back lookup insert delete
lru_runs = tt

get-full : ((get 5 "a" full).1 ≡ some "x") × ((get 61 "a" full).1 ≡ none)
unfolding lru_runs
get-full = (refl, refl)

abbrev keys_of : Option (LruCache String) → List String
keys_of none = []
keys_of (some c) = map (λ kv. kv.0) c.entries

set-full : keys_of (set 2 5 "b" "y" (pos 60) full) ≡ "b" ∷ []
unfolding lru_runs
set-full = refl

get-Refines_example : GetRefines 5 "a" full (get 5 "a" full)
get-Refines_example = get-Refines 5 "a" full full-LruInv

set-Refines_example :
    SetRefines 1 5 "b" "y" (effective_ttl full (pos 60)) full (set 2 5 "b" "y" (pos 60) full)
set-Refines_example = set-Refines 0 1 5 "b" "y" (pos 60) full full-Fits

get-set_example :
    (d : LruCache String) × (set 2 5 "b" "y" (pos 60) full ≡ some d) × ((get 30 "b" d).1 ≡ some "y")
get-set_example = get-set 0 5 30 "b" "y" (pos 60) full full-Fits refl

abbrev calls : List (Call String)
calls =
    set_call 0 "a" "x" (pos 60)
    ∷ set_call 1 "b" "y" (pos 60)
    ∷ get_call 2 "a"
    ∷ cleanup_call 100
    ∷ remove_call "b"
    ∷ []

perform_all-Fits_example :
    (c : LruCache String) × (perform_all calls (new_lru_cache (pos 1) (pos 60)) ≡ some c) × Fits 1 c
perform_all-Fits_example = perform_all-Fits 1 (pos 60) calls

abbrev negative : LruCache String
negative = new_lru_cache (negsuc 0) (pos 60)

a_new : (negative.capacity ≡ negsuc 0) × (element_of negative "a" ≡ none)
unfolding new_lru_cache element_of lookup
a_new = (refl, refl)

set-endless_example : set 100 0 "a" "x" (pos 60) negative ≡ none
set-endless_example = set-endless 100 0 0 "a" "x" (pos 60) negative a_new.0 a_new.1
