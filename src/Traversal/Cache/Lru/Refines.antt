-- ===== src/Traversal/Cache/Lru/Refines.antt =====
-- `Get` and `Set` of `LRUCache` against the recency list.
use function_kubecore_schema.Base.{
  ℕ, ◌≡◌, refl, sym, ap, ◌∙◌, subst, String, false, Option, none, some, ◌∷◌, arith, nat_eq,
  string_eq, inl, inr, Bool-cases, Option-cases, ◌==◌, ==_iff, lookup, Entries, Entries-of_lookup,
}
use function_kubecore_schema.Traversal.Cache.Entry.{CacheEntry, is_expired, touch}
use function_kubecore_schema.Traversal.Cache.Lru.{
  LruCache, element_of, get_element, remove_element, move_to_front, get,
}
use function_kubecore_schema.Traversal.Cache.Lru.Inv.{LruInv, remove-LruInv, move-LruInv}
use function_kubecore_schema.Traversal.Cache.Lru.Recency.{
  spec_get, view, OnlyAt, find-view, without-view, find-view_absent,
}

module _ {ℓ} {V : Type ℓ} where
  -- Writes to the other statistics are no concern of the invariant.
  pub with_stats :
      (c d : LruCache V)
      → LruInv c
      → d.entries ≡ c.entries
      → d.lru_list ≡ c.lru_list
      → d.next_address ≡ c.next_address
      → d.stats.size ≡ c.stats.size
      → LruInv d
  with_stats c d inv p q r s = record {
    linked = λ k a h. simp q (inv.linked k a (simp p at h));
    linked_back = λ a e h. simp p (inv.linked_back a e (simp q at h));
    fresh = λ a e h. simp r (inv.fresh a e (simp q at h));
    unique_entries = simp p inv.unique_entries;
    unique_list = simp q inv.unique_list;
    size = s ∙ simp q inv.size;
    same_length = simp (p, q) inv.same_length;
  }

  -- What the map of keys has for a key: nothing, or an element with that key and no other such.
  pub data Keyed (c : LruCache V) (key : String) : Option (ℕ × CacheEntry V) → Type ℓ where
    absent :
        lookup key c.entries ≡ none
        → Entries (λ q d. (d.key == key) ≡ false) c.lru_list
        → Keyed c key none
    present :
        (p : ℕ) (e : CacheEntry V)
        → lookup p c.lru_list ≡ some e
        → e.key ≡ key
        → Entries (OnlyAt key p) c.lru_list
        → Keyed c key (some (p, e))

  only_at :
      (c : LruCache V) (key : String) (p : ℕ) (e : CacheEntry V)
      → LruInv c
      → lookup key c.entries ≡ some p
      → lookup p c.lru_list ≡ some e
      → e.key ≡ key
      → (q : ℕ) (d : CacheEntry V) → lookup q c.lru_list ≡ some d
      → OnlyAt key p q d
  only_at c key p e inv linked at same q d h = elim (Bool-cases (q == p)) [
    | inl here ↦
        let at' : lookup p c.lru_list ≡ some d =
          subst (λ r. lookup r c.lru_list ≡ some d) ((==_iff q p).0 here) h in
        let d≡e : d ≡ e = ground (arith, at', at) in
        rw here ((==_iff d.key key).1 (ap (λ (x : CacheEntry V). x.key) d≡e ∙ same))
    | inr other ↦ elim (Bool-cases (d.key == key)) [
      | inr ne ↦ rw other ne
      | inl eq ↦
          let b : lookup key c.entries ≡ some q =
            subst (λ x. lookup x c.entries ≡ some q) ((==_iff d.key key).0 eq)
              (inv.linked_back q d h) in
          absurd (ground (arith, b, linked, other, ==_iff q p))
    ]
  ]

  pub keyed : (c : LruCache V) (key : String) → LruInv c → Keyed c key (element_of c key)
  unfolding element_of
  keyed c key inv = elim (Option-cases (lookup key c.entries)) [
    | inl none_there ↦
        rw (none_there, element_of)
          (absent none_there (
            Entries-of_lookup _ c.lru_list inv.unique_list λ q d h.
              elim (Bool-cases (d.key == key)) [
                | inr ne ↦ ne
                | inl eq ↦
                    let b : lookup key c.entries ≡ some q =
                      subst (λ x. lookup x c.entries ≡ some q) ((==_iff d.key key).0 eq)
                        (inv.linked_back q d h) in
                    absurd (ground (arith, b, none_there))
              ]))
    | inr (p, linked) ↦
        let (e, at, same) = inv.linked key p linked in
        rw (linked, element_of)
          (rw (at, element_of)
            (present p e at same (
              Entries-of_lookup _ c.lru_list inv.unique_list
                (only_at c key p e inv linked at same))))
  ]

  -- What `Get` leaves and returns is what the recency list says.
  abbrev pub GetRefines : ℕ → String → LruCache V → LruCache V × Option V → Type ℓ
  GetRefines now key c (d, r) =
      LruInv d
      × (view d.lru_list ≡ (spec_get now key (view c.lru_list)).0)
      × (r ≡ (spec_get now key (view c.lru_list)).1)

  get_element-Refines :
      (now : ℕ) (key : String) (c : LruCache V) (o : Option (ℕ × CacheEntry V))
      → LruInv c
      → Keyed c key o
      → GetRefines now key c (get_element now c o)
  unfolding get_element spec_get
  get_element-Refines now key c _ inv (absent none_there others) =
      rw (find-view_absent key c.lru_list others, spec_get)
        (with_stats c _ inv refl refl refl refl, refl, refl)
  get_element-Refines now key c _ inv (present p e at same only) =
      let w = without-view key p c.lru_list only in
      rw (find-view key p c.lru_list only ∙ at, spec_get)
        (elim (Bool-cases (is_expired now e)) [
          | inl old ↦ rw old (
            with_stats (remove_element c p e) _ (remove-LruInv c inv p e at) refl refl refl refl,
            unfold remove_element in sym w,
            refl,
          )
          | inr young ↦ rw young (
            with_stats (move_to_front c p (touch now e)) _
                (move-LruInv c inv p e at (touch now e) refl) refl refl refl refl,
            ap (λ l. touch now e ∷ l) (sym w),
            refl,
          )
        ])

-- `Get` on a cache whose map and list agree: they agree afterwards, the elements are those of the
-- recency list after a lookup, and the result is that of the recency list.
pub get-Refines {ℓ} :
    {V : Type ℓ} (now : ℕ) (key : String) (c : LruCache V)
    → LruInv c
    → GetRefines now key c (get now key c)
unfolding get
get-Refines now key c inv = get_element-Refines now key c (element_of c key) inv (keyed c key inv)
