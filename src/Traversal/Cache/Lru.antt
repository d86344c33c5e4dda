-- ===== src/Traversal/Cache/Lru.antt =====
-- `LRUCache` of cache.go. The elements of `container/list` are told apart by their addresses, which
-- `Set` takes from a counter: `entries` maps a key to the address of its element, and `lru_list`
-- holds the elements, the most recently used first. Each method holds the mutex throughout, so it
-- is one step.
pub mod Inv
pub mod Recency
pub mod Refines
pub mod SetRefines
pub mod Calls
pub mod RoundTrip
pub mod Endless
use function_kubecore_schema.Base.{
  ℕ, zero, suc, ◌+◌, String, Option, none, some, List, [], ◌∷◌, nat_eq, string_eq, if◌then◌else◌,
  length, ℤ, pos, ltb_ℤ, Dict, lookup, insert, delete,
}
use function_kubecore_schema.Traversal.Cache.Entry.{
  CacheEntry, CacheStats, succ_ℤ, pred_ℤ, add_ttl, is_expired, touch,
}

pub record LruCache {ℓ} (V : Type ℓ) : Type ℓ where
  pub capacity : ℤ
  pub default_ttl : ℤ
  pub entries : Dict String ℕ
  pub lru_list : Dict ℕ (CacheEntry V)
  pub next_address : ℕ
  pub stats : CacheStats

module _ {ℓ} {V : Type ℓ} where
  -- `NewLRUCache`, less its cleanup goroutine
  unfoldable pub new_lru_cache : ℤ → ℤ → LruCache V
  new_lru_cache capacity default_ttl = record {
    capacity = capacity;
    default_ttl = default_ttl;
    entries = [];
    lru_list = [];
    next_address = 0;
    stats = record {
      size = pos 0;
      capacity = capacity;
      hits = 0;
      misses = 0;
      evictions = 0;
      expired_entries = 0;
    };
  }

  -- The element of a key, by its address.
  unfoldable pub element_of : LruCache V → String → Option (ℕ × CacheEntry V)
  element_of c key = elim (lookup key c.entries) [
    | none ↦ none
    | some p ↦ elim (lookup p c.lru_list) [ none ↦ none | some entry ↦ some (p, entry) ]
  ]

  -- `removeElement`
  unfoldable pub remove_element : LruCache V → ℕ → CacheEntry V → LruCache V
  remove_element c p entry = record c {
    entries = delete entry.key c.entries;
    lru_list = delete p c.lru_list;
    stats = record c.stats { size = pred_ℤ c.stats.size };
  }

  -- MoveToFront of an element whose entry was written to
  abbrev pub move_to_front : LruCache V → ℕ → CacheEntry V → LruCache V
  move_to_front c p entry = record c { lru_list = (p, entry) ∷ delete p c.lru_list }

  abbrev pub count_miss : LruCache V → LruCache V
  count_miss c = record c { stats = record c.stats { misses = c.stats.misses + 1 } }

  abbrev pub count_hit : LruCache V → LruCache V
  count_hit c = record c { stats = record c.stats { hits = c.stats.hits + 1 } }

  abbrev pub count_expired : LruCache V → LruCache V
  count_expired c = record c {
    stats = record c.stats { expired_entries = c.stats.expired_entries + 1 };
  }

  -- `Get` behind the lookup of the element
  unfoldable pub get_element : ℕ → LruCache V → Option (ℕ × CacheEntry V) → LruCache V × Option V
  get_element now c none = (count_miss c, none)
  get_element now c (some (p, entry)) =
      if is_expired now entry
      then (count_expired (count_miss (remove_element c p entry)), none)
      else (count_hit (move_to_front c p (touch now entry)), some entry.value)

  -- `Get`
  unfoldable pub get : ℕ → String → LruCache V → LruCache V × Option V
  unfolding get_element
  get now key c = get_element now c (element_of c key)

  -- lruList.Back()
  unfoldable pub back : Dict ℕ (CacheEntry V) → Option (ℕ × CacheEntry V)
  back [] = none
  back (x ∷ []) = some x
  back (x ∷ y ∷ l) = back (y ∷ l)

  -- `evictLRU`
  unfoldable pub evict_lru : LruCache V → LruCache V
  evict_lru c = elim (back c.lru_list) [
    | none ↦ c
    | some (p, entry) ↦
        let c' = remove_element c p entry in
        record c' { stats = record c'.stats { evictions = c'.stats.evictions + 1 } }
  ]

  -- `for c.lruList.Len() > c.capacity { c.evictLRU() }` on fuel
  unfoldable pub evict_over : ℕ → LruCache V → Option (LruCache V)
  evict_over zero c = none
  evict_over (suc fuel) c =
      let rest = evict_over fuel (evict_lru c) in
      if ltb_ℤ c.capacity (pos (length c.lru_list)) then rest else some c

  abbrev pub effective_ttl : LruCache V → ℤ → ℤ
  effective_ttl c ttl = if ltb_ℤ (pos 0) ttl then ttl else c.default_ttl

  -- The update of an existing entry by `Set`
  abbrev pub renew : ℕ → V → ℤ → CacheEntry V → CacheEntry V
  renew now value ttl entry = record (touch now entry) {
    value = value;
    expires_at = add_ttl now ttl;
  }

  abbrev pub fresh_entry : ℕ → String → V → ℤ → CacheEntry V
  fresh_entry now key value ttl = record {
    key = key;
    value = value;
    expires_at = add_ttl now ttl;
    accessed_at = now;
    created_at = now;
    access_count = 1;
  }

  -- PushFront of a new element
  unfoldable pub push_front : LruCache V → String → CacheEntry V → LruCache V
  push_front c key entry = record c {
    entries = insert key c.next_address c.entries;
    lru_list = (c.next_address, entry) ∷ c.lru_list;
    next_address = c.next_address + 1;
    stats = record c.stats { size = succ_ℤ c.stats.size };
  }

  -- `Set` behind the lookup of the element; the fuel bounds the evictions
  unfoldable pub set_element :
      ℕ → ℕ → String → V → ℤ → LruCache V → Option (ℕ × CacheEntry V) → Option (LruCache V)
  set_element fuel now key value ttl c (some (p, entry)) =
      some (move_to_front c p (renew now value ttl entry))
  set_element fuel now key value ttl c none =
      evict_over fuel (push_front c key (fresh_entry now key value ttl))

  -- `Set`
  unfoldable pub set : ℕ → ℕ → String → V → ℤ → LruCache V → Option (LruCache V)
  unfolding set_element
  set fuel now key value ttl c =
      set_element fuel now key value (effective_ttl c ttl) c (element_of c key)

  -- `Delete`
  unfoldable pub remove : String → LruCache V → LruCache V
  remove key c = elim (element_of c key) [ none ↦ c | some (p, entry) ↦ remove_element c p entry ]

  -- `Clear`
  unfoldable pub clear : LruCache V → LruCache V
  clear c = record c { entries = []; lru_list = []; stats = record c.stats { size = pos 0 } }

  -- The first loop of `Cleanup`: the keys of expired entries.
  unfoldable pub expired_keys : ℕ → LruCache V → Dict String ℕ → List String
  expired_keys now c [] = []
  expired_keys now c ((key, p) ∷ rest) =
      let keys = expired_keys now c rest in
      elim (lookup p c.lru_list) [
        | none ↦ keys
        | some entry ↦ if is_expired now entry then key ∷ keys else keys
      ]

  -- The second loop.
  unfoldable pub remove_expired : List String → LruCache V → LruCache V
  remove_expired [] c = c
  remove_expired (key ∷ keys) c = remove_expired keys (elim (element_of c key) [
    | none ↦ c
    | some (p, entry) ↦ count_expired (remove_element c p entry)
  ])

  -- `Cleanup`
  unfoldable pub cleanup : ℕ → LruCache V → LruCache V
  cleanup now c = remove_expired (expired_keys now c c.entries) c
