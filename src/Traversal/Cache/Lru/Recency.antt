-- ===== src/Traversal/Cache/Lru/Recency.antt =====
-- The specification of the cache: a list of entries, the most recently used first, of at most the
-- cache's capacity; and what the elements of an `LRUCache` are as such a list.
use function_kubecore_schema.Base.{
  ℕ, zero, suc, ◌≡◌, refl, ap, ◌∙◌, subst, ◌≤◌, String, false, Option, none, some, List, [], ◌∷◌,
  map, arith, nat_eq, string_eq, inl, inr, Bool-cases, ◌==◌, ==_iff, ==_refl, if◌then◌else◌, length,
  ℤ, Dict, lookup, delete, Entries, Unique,
}
use function_kubecore_schema.Traversal.Cache.Entry.{CacheEntry, is_expired, touch}
use function_kubecore_schema.Traversal.Cache.Lru.{back, renew, fresh_entry}

module _ {ℓ} {V : Type ℓ} where
  -- the entry of a key
  abbrev pub find : String → List (CacheEntry V) → Option (CacheEntry V)
  find key [] = none
  find key (e ∷ l) = if e.key == key then some e else find key l

  -- the other entries
  abbrev pub without : String → List (CacheEntry V) → List (CacheEntry V)
  without key [] = []
  without key (e ∷ l) = let rest = without key l in if e.key == key then rest else e ∷ rest

  abbrev pub take : ℕ → List (CacheEntry V) → List (CacheEntry V)
  take zero l = []
  take (suc n) [] = []
  take (suc n) (e ∷ l) = e ∷ take n l

  -- A lookup moves the entry to the front, or drops it if it has expired.
  unfoldable pub spec_get : ℕ → String → List (CacheEntry V) → List (CacheEntry V) × Option V
  spec_get now key l = elim (find key l) [
    | none ↦ (l, none)
    | some e ↦
        if is_expired now e
        then (without key l, none)
        else (touch now e ∷ without key l, some e.value)
  ]

  -- A write puts the entry in front and keeps as many as the capacity allows.
  unfoldable pub spec_set : ℕ → ℕ → String → V → ℤ → List (CacheEntry V) → List (CacheEntry V)
  spec_set capacity now key value ttl l = elim (find key l) [
    | some e ↦ renew now value ttl e ∷ without key l
    | none ↦ take capacity (fresh_entry now key value ttl ∷ l)
  ]

  abbrev pub view : Dict ℕ (CacheEntry V) → List (CacheEntry V)
  view l = map (λ kv. kv.1) l

  -- Exactly the element at `p` has the key.
  abbrev pub OnlyAt : String → ℕ → ℕ → CacheEntry V → Type 0
  OnlyAt key p q d = (d.key == key) ≡ (q == p)

  pub find-view :
      (key : String) (p : ℕ) (l : Dict ℕ (CacheEntry V))
      → Entries (OnlyAt key p) l
      → find key (view l) ≡ lookup p l
  unfolding lookup
  find-view key p [] h = refl
  find-view key p ((q, d) ∷ l) h = ground (arith, h.0, find-view key p l h.1)

  pub without-view :
      (key : String) (p : ℕ) (l : Dict ℕ (CacheEntry V))
      → Entries (OnlyAt key p) l
      → without key (view l) ≡ view (delete p l)
  unfolding delete
  without-view key p [] h = refl
  without-view key p ((q, d) ∷ l) h = elim (Bool-cases (q == p)) [
    | inl same ↦ rw same (rw (h.0 ∙ same) (without-view key p l h.1))
    | inr other ↦ rw other (rw (h.0 ∙ other) (ap (λ r. d ∷ r) (without-view key p l h.1)))
  ]

  -- No element has the key.
  pub find-view_absent :
      (key : String) (l : Dict ℕ (CacheEntry V))
      → Entries (λ q d. (d.key == key) ≡ false) l
      → find key (view l) ≡ none
  find-view_absent key [] h = refl
  find-view_absent key ((q, d) ∷ l) h = rw h.0 (find-view_absent key l h.1)

  pub length-view : (l : Dict ℕ (CacheEntry V)) → length (view l) ≡ length l
  length-view [] = refl
  length-view (x ∷ l) = ap suc (length-view l)

  pub take-all : (n : ℕ) (l : Dict ℕ (CacheEntry V)) → length l ≤ n → take n (view l) ≡ view l
  take-all zero [] h = refl
  take-all zero (x ∷ l) h = absurd (omega arith)
  take-all (suc n) [] h = refl
  take-all (suc n) (x ∷ l) h = ap (λ r. x.1 ∷ r) (take-all n l (omega arith))

  -- The last element is found under its address, and without it the list is a shorter prefix.
  pub back-nonempty :
      (x : ℕ × CacheEntry V) (l : Dict ℕ (CacheEntry V))
      → Unique (x ∷ l)
      → (p : ℕ) × (e : CacheEntry V) × (back (x ∷ l) ≡ some (p, e))
        × (lookup p (x ∷ l) ≡ some e)
        × (view (delete p (x ∷ l)) ≡ take (length l) (view (x ∷ l)))
  unfolding back lookup delete
  back-nonempty (q, d) [] u = (q, d, refl, rw (==_refl q), rw (==_refl q))
  back-nonempty (q, d) (y ∷ l) u =
      let (p, e, last, found, rest) = back-nonempty y l u.1 in
      let ne : (q == p) ≡ false = elim (Bool-cases (q == p)) [
        | inr other ↦ other
        | inl same ↦
            absurd (cc (subst (λ r. lookup r (y ∷ l) ≡ none) ((==_iff q p).0 same) u.0, found))
      ] in
      (p, e, last, rw ne found, rw ne (ap (λ r. d ∷ r) rest))
