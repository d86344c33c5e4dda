-- ===== src/Traversal/Cache/Ttl.antt =====
-- `TTLCache` of cache.go. `Get` of an expired entry gives up the read lock before it takes the write
-- lock, so it is two steps: `begin_get`, and `finish_get` for the key that it found expired. Every
-- other method holds the lock throughout and is one step.
pub mod Order
pub mod Cleanup
pub mod Crossing
use function_kubecore_schema.Base.{
  ℕ, ◌+◌, String, Bool, true, false, Option, none, some, List, [], ◌∷◌, string_eq, if◌then◌else◌,
  has, ℤ, pos, Dict, lookup, insert, delete,
}
use function_kubecore_schema.Traversal.Cache.Entry.{
  CacheEntry, CacheStats, succ_ℤ, pred_ℤ, add_ttl, is_expired, touch,
}

pub record TtlCache (V : Type 0) : Type 0 where
  pub entries : Dict String (CacheEntry V)
  pub stats : CacheStats

-- How the first part of `Get` ends: with a result, or with an expired entry still to be deleted.
pub data Begun (V : Type 0) : Type 0 where
  returned : Option V → Begun V
  found_expired : Begun V

module _ {V : Type 0} where
  -- `NewTTLCache`, less its cleanup goroutine
  unfoldable pub new_ttl_cache : TtlCache V
  new_ttl_cache = record {
    entries = [];
    stats = record {
      size = pos 0;
      capacity = pos 0;
      hits = 0;
      misses = 0;
      evictions = 0;
      expired_entries = 0;
    };
  }

  unfoldable pub begin_entry :
      ℕ → String → TtlCache V → Option (CacheEntry V) → TtlCache V × Begun V
  begin_entry now key c none =
      (record c { stats = record c.stats { misses = c.stats.misses + 1 } }, returned none)
  begin_entry now key c (some entry) = if is_expired now entry then (c, found_expired) else (
    record c {
      entries = insert key (touch now entry) c.entries;
      stats = record c.stats { hits = c.stats.hits + 1 };
    },
    returned (some entry.value),
  )

  -- `Get` under the read lock
  unfoldable pub begin_get : ℕ → String → TtlCache V → TtlCache V × Begun V
  unfolding begin_entry
  begin_get now key c = begin_entry now key c (lookup key c.entries)

  -- `Get` under the write lock
  unfoldable pub finish_get : String → TtlCache V → TtlCache V
  finish_get key c = record {
    entries = delete key c.entries;
    stats = record c.stats {
      size = pred_ℤ c.stats.size;
      expired_entries = c.stats.expired_entries + 1;
      misses = c.stats.misses + 1;
    };
  }

  abbrev pub conclude : String → TtlCache V × Begun V → TtlCache V × Option V
  conclude key (c, returned r) = (c, r)
  conclude key (c, found_expired) = (finish_get key c, none)

  -- `Get` with nothing in between
  unfoldable pub get : ℕ → String → TtlCache V → TtlCache V × Option V
  get now key c = conclude key (begin_get now key c)

  -- `Set`
  unfoldable pub set : ℕ → String → V → ℤ → TtlCache V → TtlCache V
  set now key value ttl c = record {
    entries =
        insert key
          (record {
            key = key;
            value = value;
            expires_at = add_ttl now ttl;
            accessed_at = now;
            created_at = now;
            access_count = 1;
          })
          c.entries;
    stats = record c.stats {
      size = if has key c.entries then c.stats.size else succ_ℤ c.stats.size;
    };
  }

  -- `Delete`
  unfoldable pub remove : String → TtlCache V → TtlCache V
  remove key c =
      if has key c.entries
      then record c {
        entries = delete key c.entries;
        stats = record c.stats { size = pred_ℤ c.stats.size };
      }
      else c

  -- `Clear`
  unfoldable pub clear : TtlCache V → TtlCache V
  clear c = record { entries = []; stats = record c.stats { size = pos 0 } }

  -- The first loop of `Cleanup`
  unfoldable pub expired_keys : ℕ → Dict String (CacheEntry V) → List String
  expired_keys now [] = []
  expired_keys now ((key, entry) ∷ rest) =
      let keys = expired_keys now rest in if is_expired now entry then key ∷ keys else keys

  -- The second loop
  unfoldable pub drop_keys : List String → TtlCache V → TtlCache V
  drop_keys [] c = c
  drop_keys (key ∷ keys) c = drop_keys keys (record {
    entries = delete key c.entries;
    stats = record c.stats {
      size = pred_ℤ c.stats.size;
      expired_entries = c.stats.expired_entries + 1;
    };
  })

  -- `Cleanup`
  unfoldable pub cleanup : ℕ → TtlCache V → TtlCache V
  cleanup now c = drop_keys (expired_keys now c.entries) c
