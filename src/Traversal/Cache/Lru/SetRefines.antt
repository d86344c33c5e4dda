-- ===== src/Traversal/Cache/Lru/SetRefines.antt =====
-- `Set` of `LRUCache` against the recency list, and its loop of evictions.
use function_kubecore_schema.Base.{
  ℕ, suc, ◌≤◌, ◌<◌, ◌≡◌, refl, sym, ap, ◌∙◌, subst, String, Option, none, some, ◌∷◌, arith, nat_eq,
  string_eq, dec_lt, length, ℤ, pos, Dict, lookup, delete, Unique, length-delete,
}
use function_kubecore_schema.Traversal.Cache.Entry.{CacheEntry}
use function_kubecore_schema.Traversal.Cache.Lru.{
  LruCache, element_of, set_element, remove_element, back, evict_lru, evict_over, effective_ttl,
  renew, fresh_entry, push_front, set,
}
use function_kubecore_schema.Traversal.Cache.Lru.Inv.{
  LruInv, remove-LruInv, move-LruInv, push-LruInv,
}
use function_kubecore_schema.Traversal.Cache.Lru.Recency.{
  take, spec_set, view, find-view, without-view, find-view_absent, take-all, back-nonempty,
}
use function_kubecore_schema.Traversal.Cache.Lru.Refines.{with_stats, Keyed, absent, present, keyed}

module _ {V : Type 0} where
  -- A cache in order that holds no more than its capacity.
  pub record Fits (capacity : ℕ) (c : LruCache V) : Type 0 where
    pub inv : LruInv c
    pub limit : c.capacity ≡ pos capacity
    pub bounded : length c.lru_list ≤ capacity

  evict_over-stop :
      (fuel capacity : ℕ) (c : LruCache V)
      → c.capacity ≡ pos capacity
      → length c.lru_list ≤ capacity
      → evict_over (suc fuel) c ≡ some c
  unfolding evict_over
  evict_over-stop fuel capacity c limit h = ground arith

  evict_over-step :
      (fuel capacity : ℕ) (c : LruCache V)
      → c.capacity ≡ pos capacity
      → capacity < length c.lru_list
      → evict_over (suc fuel) c ≡ evict_over fuel (evict_lru c)
  unfolding evict_over
  evict_over-step fuel capacity c limit h = ground arith

  -- One entry too many: the last of the list is evicted.
  evict_lru-Fits :
      (capacity : ℕ) (c : LruCache V) (x : ℕ × CacheEntry V) (l : Dict ℕ (CacheEntry V))
      → LruInv c
      → c.capacity ≡ pos capacity
      → c.lru_list ≡ x ∷ l
      → length l ≡ capacity
      → Fits capacity (evict_lru c)
        × (view (evict_lru c).lru_list ≡ take capacity (view c.lru_list))
  unfolding evict_lru
  evict_lru-Fits capacity c x l inv limit shape size =
      let u : Unique (x ∷ l) = subst Unique shape inv.unique_list in
      let (p, e, last, found, rest) = back-nonempty x l u in
      let last' : back c.lru_list ≡ some (p, e) = ap back shape ∙ last in
      let found' : lookup p c.lru_list ≡ some e = ap (lookup p) shape ∙ found in
      rw (last', evict_lru)
        (
          record {
            inv =
                with_stats (remove_element c p e) _ (remove-LruInv c inv p e found') refl refl refl
                  refl;
            limit = unfold remove_element in limit;
            bounded =
                unfold remove_element in
                omega (arith, length-delete p c.lru_list e inv.unique_list found', ap length shape);
          },
          unfold remove_element in
              (ap (λ m. view (delete p m)) shape
                ∙ rest
                ∙ ap (λ n. take n (view (x ∷ l))) size
                ∙ ap (λ m. take capacity (view m)) (sym shape)),
        )

  -- What `Set` leaves is what the recency list says, and it does leave something.
  abbrev pub SetRefines : ℕ → ℕ → String → V → ℤ → LruCache V → Option (LruCache V) → Type 0
  SetRefines capacity now key value ttl c none = ⊥
  SetRefines capacity now key value ttl c (some d) =
      Fits capacity d × (view d.lru_list ≡ spec_set capacity now key value ttl (view c.lru_list))

  -- A new element, with one eviction where the cache was full.
  push_front-Refines :
      (fuel capacity : ℕ) (now : ℕ) (key : String) (value : V) (ttl : ℤ) (c : LruCache V)
      → Fits capacity c
      → lookup key c.entries ≡ none
      → (d : LruCache V) × (evict_over
            (suc (suc fuel))
            (push_front c key (fresh_entry now key value ttl))
          ≡ some d)
        × Fits capacity d
        × (view d.lru_list ≡ take capacity (fresh_entry now key value ttl ∷ view c.lru_list))
  push_front-Refines fuel capacity now key value ttl c fits none_there =
      let entry = fresh_entry now key value ttl in
      let c' = push_front c key entry in
      let inv' : LruInv c' = push-LruInv c fits.inv entry none_there in
      let limit' : c'.capacity ≡ pos capacity = unfold push_front in fits.limit in
      let shape : c'.lru_list ≡ (c.next_address, entry) ∷ c.lru_list = unfold push_front in refl in
      elim (dec_lt (length c.lru_list) capacity) [
        | yes room ↦
            let bounded' : length c'.lru_list ≤ capacity = unfold push_front in room in
            (
              c',
              evict_over-stop (suc fuel) capacity c' limit' bounded',
              record { inv = inv'; limit = limit'; bounded = bounded' },
              sym (take-all capacity c'.lru_list bounded') ∙ ap (λ m. take capacity (view m)) shape,
            )
        | no full ↦
            let size : length c.lru_list ≡ capacity = omega (arith, fits.bounded) in
            let over : capacity < length c'.lru_list = omega (arith, ap length shape) in
            let (fits', shown) =
              evict_lru-Fits capacity c' (c.next_address, entry) c.lru_list inv' limit' shape
                size in
            (
              evict_lru c',
              evict_over-step (suc fuel) capacity c' limit' over
                  ∙ evict_over-stop fuel capacity (evict_lru c') fits'.limit fits'.bounded,
              fits',
              shown ∙ ap (λ m. take capacity (view m)) shape,
            )
      ]

  set_element-Refines :
      (fuel capacity : ℕ) (now : ℕ) (key : String) (value : V) (ttl : ℤ) (c : LruCache V)
      (o : Option (ℕ × CacheEntry V))
      → Fits capacity c
      → Keyed c key o
      → SetRefines capacity now key value ttl c (set_element (suc (suc fuel)) now key value ttl c o)
  unfolding set_element spec_set
  set_element-Refines fuel capacity now key value ttl c _ fits (absent none_there others) =
      let (d, e, fits', shown) =
        push_front-Refines fuel capacity now key value ttl c fits none_there in
      rw (e, set_element) (rw (find-view_absent key c.lru_list others, spec_set) (fits', shown))
  set_element-Refines fuel capacity now key value ttl c _ fits (present p e at same only) =
      rw (find-view key p c.lru_list only ∙ at, spec_set)
        (
          record {
            inv = move-LruInv c fits.inv p e at (renew now value ttl e) refl;
            limit = fits.limit;
            bounded =
                omega (arith, fits.bounded, length-delete p c.lru_list e fits.inv.unique_list at);
          },
          ap (λ l. renew now value ttl e ∷ l) (sym (without-view key p c.lru_list only)),
        )

-- `Set` on a cache in order: two rounds of evictions are enough fuel for it to return, the cache is
-- in order and within its capacity afterwards, and its elements are those of the recency list after
-- a write.
pub set-Refines :
    {V : Type 0} (fuel capacity : ℕ) (now : ℕ) (key : String) (value : V) (ttl : ℤ) (c : LruCache V)
    → Fits capacity c
    → SetRefines capacity now key value
        (effective_ttl c ttl)
        c
        (set (suc (suc fuel)) now key value ttl c)
unfolding set
set-Refines fuel capacity now key value ttl c fits =
    set_element-Refines fuel capacity now key value (effective_ttl c ttl) c (element_of c key) fits
      (keyed c key fits.inv)
