-- ===== src/Traversal/Cache/Lru/Endless.antt =====
-- The evictions of an `LRUCache` whose capacity is negative.
use function_kubecore_schema.Base.{
  ℕ, zero, suc, ◌≡◌, refl, ◌∙◌, String, none, nat_eq, arith, inl, inr, Option-cases, ℤ, negsuc,
}
use function_kubecore_schema.Traversal.Cache.Lru.{
  LruCache, element_of, remove_element, push_front, fresh_entry, back, evict_lru, evict_over,
  effective_ttl, set, set_element,
}

module _ {V : Type 0} where
  evict_lru-capacity : (c : LruCache V) → (evict_lru c).capacity ≡ c.capacity
  unfolding evict_lru remove_element
  evict_lru-capacity c = elim (Option-cases (back c.lru_list)) [
    | inl empty ↦ rw (empty, evict_lru) refl
    | inr (x, last) ↦ rw (last, evict_lru) refl
  ]

  evict_over-endless :
      (fuel k : ℕ) (c : LruCache V) → c.capacity ≡ negsuc k → evict_over fuel c ≡ none
  unfolding evict_over
  evict_over-endless zero k c h = refl
  evict_over-endless (suc fuel) k c h =
      let ih = evict_over-endless fuel k (evict_lru c) (evict_lru-capacity c ∙ h) in
      ground (arith, h, ih)

-- With a negative capacity the evictions of a `Set` for a key that the cache does not have never end,
-- however long they run: the loop wants fewer elements than none.
pub set-endless :
    {V : Type 0} (fuel k now : ℕ) (key : String) (value : V) (ttl : ℤ) (c : LruCache V)
    → c.capacity ≡ negsuc k
    → element_of c key ≡ none
    → set fuel now key value ttl c ≡ none
unfolding set set_element push_front
set-endless fuel k now key value ttl c h new =
    rw (new, set_element)
      (evict_over-endless fuel k
        (push_front c key (fresh_entry now key value (effective_ttl c ttl))) h)
