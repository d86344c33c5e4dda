-- ===== src/Traversal/Cache/Lru/Calls.antt =====
-- Sequences of calls of an `LRUCache`.
use function_kubecore_schema.Base.{
  ℕ, ◌≡◌, refl, String, Option, none, some, List, [], ◌∷◌, arith, nat_eq, string_eq, inl, inr,
  Bool-cases, ℤ, pos, lookup, length-delete,
}
use function_kubecore_schema.Traversal.Cache.Entry.{CacheEntry, CacheStats, is_expired, touch}
use function_kubecore_schema.Traversal.Cache.Lru.{
  LruCache, new_lru_cache, element_of, get_element, remove_element, move_to_front, count_expired,
  get, effective_ttl, set, remove, clear, expired_keys, remove_expired, cleanup,
}
use function_kubecore_schema.Traversal.Cache.Lru.Inv.{LruInv-new, remove-LruInv, move-LruInv}
use function_kubecore_schema.Traversal.Cache.Lru.Refines.{with_stats, Keyed, absent, present, keyed}
use function_kubecore_schema.Traversal.Cache.Lru.SetRefines.{Fits, SetRefines, set-Refines}

-- A call of a method, at a time.
pub data Call (V : Type 0) : Type 0 where
  get_call : ℕ → String → Call V
  set_call : ℕ → String → V → ℤ → Call V
  remove_call : String → Call V
  clear_call : Call V
  cleanup_call : ℕ → Call V

module _ {V : Type 0} where
  -- `none` is a `Set` whose evictions have no end; two rounds of them are the fuel.
  unfoldable pub perform : Call V → LruCache V → Option (LruCache V)
  perform (get_call now key) c = some (get now key c).0
  perform (set_call now key value ttl) c = set 2 now key value ttl c
  perform (remove_call key) c = some (remove key c)
  perform clear_call c = some (clear c)
  perform (cleanup_call now) c = some (cleanup now c)

  unfoldable pub perform_all : List (Call V) → LruCache V → Option (LruCache V)
  perform_all [] c = some c
  perform_all (x ∷ xs) c = elim (perform x c) [ none ↦ none | some d ↦ perform_all xs d ]

  module _ (n : ℕ) where
    remove_element-Fits :
        (c : LruCache V) (p : ℕ) (e : CacheEntry V)
        → lookup p c.lru_list ≡ some e
        → Fits n c
        → Fits n (remove_element c p e)
    remove_element-Fits c p e at h = record {
      inv = remove-LruInv c h.inv p e at;
      limit = unfold remove_element in h.limit;
      bounded =
          unfold remove_element in
          omega (arith, h.bounded, length-delete p c.lru_list e h.inv.unique_list at);
    }

    stats-Fits :
        (c : LruCache V) (s : CacheStats)
        → s.size ≡ c.stats.size
        → Fits n c
        → Fits n (record c { stats = s })
    stats-Fits c s same h = record {
      inv = with_stats c (record c { stats = s }) h.inv refl refl refl same;
      limit = h.limit;
      bounded = h.bounded;
    }

    get_element-Fits :
        (now : ℕ) (key : String) (c : LruCache V) (o : Option (ℕ × CacheEntry V))
        → Keyed c key o
        → Fits n c
        → Fits n (get_element now c o).0
    unfolding get_element
    get_element-Fits now key c _ (absent u v) h = stats-Fits c _ refl h
    get_element-Fits now key c _ (present p e at same only) h =
        elim (Bool-cases (is_expired now e)) [
          | inl old ↦
              rw old (stats-Fits (remove_element c p e) _ refl (remove_element-Fits c p e at h))
          | inr young ↦ rw young (record {
            inv =
                with_stats (move_to_front c p (touch now e)) _
                  (move-LruInv c h.inv p e at (touch now e) refl) refl refl refl refl;
            limit = h.limit;
            bounded = omega (arith, h.bounded, length-delete p c.lru_list e h.inv.unique_list at);
          })
        ]

    -- what is done with the element of a key, once it is removed
    drop_at-Fits :
        (key : String) (c : LruCache V) (f : LruCache V → LruCache V)
        (o : Option (ℕ × CacheEntry V))
        → ((d : LruCache V) → Fits n d → Fits n (f d))
        → Keyed c key o
        → Fits n c
        → Fits n (elim o [ none ↦ c | some (p, entry) ↦ f (remove_element c p entry) ])
    drop_at-Fits key c f _ keep (absent u v) h = h
    drop_at-Fits key c f _ keep (present p e at same only) h =
        keep (remove_element c p e) (remove_element-Fits c p e at h)

    remove-Fits : (key : String) (c : LruCache V) → Fits n c → Fits n (remove key c)
    unfolding remove
    remove-Fits key c h =
        drop_at-Fits key c (λ d. d) (element_of c key) (λ d k. k) (keyed c key h.inv) h

    remove_expired-Fits :
        (keys : List String) (c : LruCache V) → Fits n c → Fits n (remove_expired keys c)
    unfolding remove_expired
    remove_expired-Fits [] c h = h
    remove_expired-Fits (key ∷ keys) c h = remove_expired-Fits keys _ (
        drop_at-Fits key c count_expired (element_of c key) (λ d k. stats-Fits d _ refl k)
          (keyed c key h.inv) h)

    clear-Fits : (c : LruCache V) → Fits n c → Fits n (clear c)
    unfolding clear lookup
    clear-Fits c h = record {
      inv = record {
        linked = λ k p h. cc;
        linked_back = λ p e h. cc;
        fresh = λ p e h. cc;
        unique_entries = tt;
        unique_list = tt;
        size = refl;
        same_length = refl;
      };
      limit = h.limit;
      bounded = omega arith;
    }

    abbrev pub OptionIs : (LruCache V → Type 0) → Option (LruCache V) → Type 0
    OptionIs P none = ⊥
    OptionIs P (some c) = P c

    Fits-part :
        (now : ℕ) (key : String) (value : V) (ttl : ℤ) (c : LruCache V) (o : Option (LruCache V))
        → SetRefines n now key value ttl c o
        → OptionIs (Fits n) o
    Fits-part now key value ttl c none h = h
    Fits-part now key value ttl c (some d) h = h.0

    then_Fits :
        (o : Option (LruCache V)) (f : LruCache V → Option (LruCache V))
        → OptionIs (Fits n) o
        → ((d : LruCache V) → Fits n d → OptionIs (Fits n) (f d))
        → OptionIs (Fits n) (elim o [ none ↦ none | some d ↦ f d ])
    then_Fits none f h k = h
    then_Fits (some d) f h k = k d h

    returned_Fits :
        (o : Option (LruCache V)) → OptionIs (Fits n) o → (c : LruCache V) × (o ≡ some c) × Fits n c
    returned_Fits none h = absurd h
    returned_Fits (some c) h = (c, refl, h)

    set-Fits :
        (now : ℕ) (key : String) (value : V) (ttl : ℤ) (c : LruCache V)
        → Fits n c
        → OptionIs (Fits n) (set 2 now key value ttl c)
    set-Fits now key value ttl c h =
        Fits-part now key value (effective_ttl c ttl) c _ (set-Refines 0 n now key value ttl c h)

    perform-Fits : (x : Call V) (c : LruCache V) → Fits n c → OptionIs (Fits n) (perform x c)
    unfolding perform
    perform-Fits (get_call now key) c h =
        unfold get in get_element-Fits now key c (element_of c key) (keyed c key h.inv) h
    perform-Fits (set_call now key value ttl) c h = set-Fits now key value ttl c h
    perform-Fits (remove_call key) c h = remove-Fits key c h
    perform-Fits clear_call c h = clear-Fits c h
    perform-Fits (cleanup_call now) c h =
        unfold cleanup in remove_expired-Fits (expired_keys now c c.entries) c h

    all-Fits :
        (xs : List (Call V)) (c : LruCache V) → Fits n c → OptionIs (Fits n) (perform_all xs c)
    unfolding perform_all
    all-Fits [] c h = h
    all-Fits (x ∷ xs) c h =
        then_Fits (perform x c) (perform_all xs) (perform-Fits x c h) (λ d k. all-Fits xs d k)

-- Through any calls of the methods of a new `LRUCache` whose capacity is not negative, one after the
-- other, every call returns, the map of keys and the list of elements name one another, `Size` is the
-- number of elements, and there are never more elements than the capacity.
pub perform_all-Fits :
    {V : Type 0} (capacity : ℕ) (ttl : ℤ) (xs : List (Call V))
    → (c : LruCache V) × (perform_all xs (new_lru_cache (pos capacity) ttl) ≡ some c)
      × Fits capacity c
perform_all-Fits capacity ttl xs = returned_Fits capacity _ (
    all-Fits capacity xs (new_lru_cache (pos capacity) ttl) (record {
      inv = LruInv-new (pos capacity) ttl;
      limit = unfold new_lru_cache in refl;
      bounded = unfold new_lru_cache in omega arith;
    }))
