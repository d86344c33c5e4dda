-- ===== src/Traversal/Cache/Ttl/Cleanup.antt =====
-- `Cleanup` of a `TTLCache` drops the expired entries and no others.
use function_kubecore_schema.Base.{
  ℕ, ◌≡◌, refl, ◌∙◌, subst, String, Bool, true, false, none, some, List, [], ◌∷◌, arith, string_eq,
  inl, inr, Bool-cases, if◌then◌else◌, ◌==◌, ==_iff, ==_refl, Dict, lookup, delete, lookup-delete,
  Unique,
}
use function_kubecore_schema.Traversal.Cache.Entry.{CacheEntry, is_expired}
use function_kubecore_schema.Traversal.Cache.Ttl.{TtlCache, expired_keys, drop_keys, cleanup}
use function_kubecore_schema.Traversal.Cache.Ttl.Order.{InOrder, drop-InOrder}

abbrev pub contains : String → List String → Bool
contains k [] = false
contains k (j ∷ js) = if j == k then true else contains k js

module _ {V : Type 0} where
  -- The keys are distinct and stand in the map.
  abbrev Present : List String → Dict String (CacheEntry V) → Type 0
  Present [] m = Unit
  Present (k ∷ ks) m =
      ((e : CacheEntry V) × (lookup k m ≡ some e)) × (contains k ks ≡ false) × Present ks m

  Present-delete :
      (k : String) (ks : List String) (m : Dict String (CacheEntry V))
      → contains k ks ≡ false
      → Present ks m
      → Present ks (delete k m)
  Present-delete k [] m h p = tt
  Present-delete k (j ∷ js) m h p =
      let ne : (j == k) ≡ false = ground arith in
      (
        (p.0.0, ground (arith, lookup-delete k j m, ==_iff k j, ==_iff j k, p.0.1, ne)),
        p.1,
        Present-delete k js m (ground arith) p.2,
      )

  Present-cons :
      (j : String) (w : CacheEntry V) (ks : List String) (m : Dict String (CacheEntry V))
      → lookup j m ≡ none
      → Present ks m
      → Present ks ((j, w) ∷ m)
  unfolding lookup
  Present-cons j w [] m h p = tt
  Present-cons j w (k ∷ ks) m h p =
      let ne : (j == k) ≡ false = elim (Bool-cases (j == k)) [
        | inr other ↦ other
        | inl same ↦
            absurd (ground (arith, p.0.1, subst (λ x. lookup x m ≡ none) ((==_iff j k).0 same) h))
      ] in
      ((p.0.0, ground (arith, ne, p.0.1)), p.1, Present-cons j w ks m h p.2)

  -- Keys of expired entries: a key is among them if its entry has expired.
  contains-expired_keys :
      (now : ℕ) (m : Dict String (CacheEntry V)) (k : String)
      → Unique m
      → contains k (expired_keys now m)
        ≡ elim (lookup k m) [ none ↦ false | some e ↦ is_expired now e ]
  unfolding expired_keys lookup
  contains-expired_keys now [] k u = refl
  contains-expired_keys now ((j, w) ∷ m) k u = elim (Bool-cases (j == k)) [
    | inl same ↦
        let gone : lookup k m ≡ none = subst (λ x. lookup x m ≡ none) ((==_iff j k).0 same) u.0 in
        ground (arith, same, gone, contains-expired_keys now m k u.1)
    | inr other ↦ ground (arith, other, contains-expired_keys now m k u.1)
  ]

  Present-expired_keys :
      (now : ℕ) (m : Dict String (CacheEntry V)) → Unique m → Present (expired_keys now m) m
  unfolding expired_keys lookup
  Present-expired_keys now [] u = tt
  Present-expired_keys now ((j, w) ∷ m) u =
      let rest = Present-cons j w (expired_keys now m) m u.0 (Present-expired_keys now m u.1) in
      elim (Bool-cases (is_expired now w)) [
        | inl old ↦
            rw old
              ((w, rw (==_refl j)), ground (arith, contains-expired_keys now m j u.1, u.0), rest)
        | inr young ↦ rw young rest
      ]

  drop_keys-InOrder :
      (ks : List String) (c : TtlCache V)
      → Present ks c.entries
      → InOrder c
      → InOrder (drop_keys ks c)
  unfolding drop_keys
  drop_keys-InOrder [] c p h = h
  drop_keys-InOrder (k ∷ ks) c p h =
      drop_keys-InOrder ks _ (Present-delete k ks c.entries p.1 p.2)
        (drop-InOrder k c _ p.0.0 h p.0.1 refl refl)

  lookup-drop_keys :
      (ks : List String) (c : TtlCache V) (k : String)
      → lookup k (drop_keys ks c).entries ≡ (if contains k ks then none else lookup k c.entries)
  unfolding drop_keys
  lookup-drop_keys [] c k = refl
  lookup-drop_keys (j ∷ js) c k =
      lookup-drop_keys js _ k ∙ ground (arith, lookup-delete j k c.entries)

  pub cleanup-InOrder : (now : ℕ) (c : TtlCache V) → InOrder c → InOrder (cleanup now c)
  unfolding cleanup
  cleanup-InOrder now c h =
      drop_keys-InOrder (expired_keys now c.entries) c (Present-expired_keys now c.entries h.unique)
        h

  -- After `Cleanup` of a cache whose `Size` is the number of its entries, a key has its entry if that
  -- has not expired, and nothing otherwise.
  pub lookup-cleanup :
      (now : ℕ) (c : TtlCache V) (k : String)
      → InOrder c
      → lookup k (cleanup now c).entries ≡ elim (lookup k c.entries) [
        | none ↦ none
        | some e ↦ if is_expired now e then none else some e
      ]
  unfolding cleanup
  lookup-cleanup now c k h =
      lookup-drop_keys (expired_keys now c.entries) c k
      ∙ ground (arith, contains-expired_keys now c.entries k h.unique)
