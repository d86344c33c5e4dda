-- ===== src/Traversal/Cache/Lru/Inv.antt =====
-- The map of keys and the list of elements of an `LRUCache` name one another.
use function_kubecore_schema.Base.{
  ℕ, ◌<◌, ◌≡◌, refl, sym, ap, ◌∙◌, subst, String, false, none, some, arith, nat_eq, string_eq, inl,
  inr, Bool-cases, Option-cases, ◌==◌, ==_iff, length, ℤ, pos, lookup, insert, lookup-insert,
  lookup-delete, length-insert, length-delete, Unique, Unique-insert, Unique-delete,
}
use function_kubecore_schema.Traversal.Cache.Entry.{CacheEntry}
use function_kubecore_schema.Traversal.Cache.Lru.{
  LruCache, new_lru_cache, remove_element, move_to_front, push_front,
}

pub record LruInv {ℓ} {V : Type ℓ} (c : LruCache V) : Type ℓ where
  pub linked :
      (k : String) (p : ℕ)
      → lookup k c.entries ≡ some p
      → (e : CacheEntry V) × (lookup p c.lru_list ≡ some e) × (e.key ≡ k)
  pub linked_back :
      (p : ℕ) (e : CacheEntry V) → lookup p c.lru_list ≡ some e → lookup e.key c.entries ≡ some p
  pub fresh : (p : ℕ) (e : CacheEntry V) → lookup p c.lru_list ≡ some e → p < c.next_address
  pub unique_entries : Unique c.entries
  pub unique_list : Unique c.lru_list
  pub size : c.stats.size ≡ pos (length c.lru_list)
  pub same_length : length c.entries ≡ length c.lru_list

module _ {ℓ} {V : Type ℓ} where
  pub LruInv-new : (capacity ttl : ℤ) → LruInv (new_lru_cache {V = V} capacity ttl)
  unfolding new_lru_cache lookup
  LruInv-new capacity ttl = record {
    linked = λ k p h. cc;
    linked_back = λ p e h. cc;
    fresh = λ p e h. cc;
    unique_entries = tt;
    unique_list = tt;
    size = refl;
    same_length = refl;
  }

  module _ (c : LruCache V) (inv : LruInv c) (p : ℕ) (e : CacheEntry V)
      (found : lookup p c.lru_list ≡ some e) where
    -- an element has one address
    one_address : (q : ℕ) (d : CacheEntry V) → lookup q c.lru_list ≡ some d → d.key ≡ e.key → q ≡ p
    one_address q d h same = some_inj (
        sym (subst (λ x. lookup x c.entries ≡ some q) same (inv.linked_back q d h))
        ∙ inv.linked_back p e found)
      where
        some_inj : {a b : ℕ} → some a ≡ some b → a ≡ b
        some_inj h = ground arith

    -- the address of an element that is still linked after `delete e.key`
    other_address :
        (k : String) (q : ℕ) → (e.key == k) ≡ false → lookup k c.entries ≡ some q → (p == q) ≡ false
    other_address k q ne h = elim (Bool-cases (p == q)) [
      | inr other ↦ other
      | inl same ↦
          let (d, at, key) = inv.linked k q h in
          let at' : lookup p c.lru_list ≡ some d =
            subst (λ x. lookup x c.lru_list ≡ some d) (sym ((==_iff p q).0 same)) at in
          let d≡e : d ≡ e = ground (arith, at', found) in
          absurd (ground (arith, ap (λ (x : CacheEntry V). x.key) d≡e, key, ==_iff e.key k, ne))
    ]

    pub remove-LruInv : LruInv (remove_element c p e)
    unfolding remove_element
    remove-LruInv = record {
      linked = λ k q h.
          let ne : (e.key == k) ≡ false = ground (arith, lookup-delete e.key k c.entries) in
          let h' : lookup k c.entries ≡ some q = ground (arith, lookup-delete e.key k c.entries) in
          let (d, at, key) = inv.linked k q h' in
          (d, ground (arith, lookup-delete p q c.lru_list, other_address k q ne h'), key);
      linked_back = λ q d h.
          let ne : (p == q) ≡ false = ground (arith, lookup-delete p q c.lru_list) in
          let h' : lookup q c.lru_list ≡ some d = ground (arith, lookup-delete p q c.lru_list) in
          elim (Bool-cases (e.key == d.key)) [
            | inl same ↦
                absurd (
                  ground
                    (arith, one_address q d h' (sym ((==_iff e.key d.key).0 same)), ==_iff p q))
            | inr other ↦ rw lookup-delete (rw other (inv.linked_back q d h'))
          ];
      fresh = λ q d h. inv.fresh q d (ground (arith, lookup-delete p q c.lru_list));
      unique_entries = Unique-delete e.key c.entries inv.unique_entries;
      unique_list = Unique-delete p c.lru_list inv.unique_list;
      size = ground (arith, inv.size, length-delete p c.lru_list e inv.unique_list found);
      same_length = omega (
        arith,
        length-delete p c.lru_list e inv.unique_list found,
        length-delete e.key c.entries p inv.unique_entries (inv.linked_back p e found),
        inv.same_length,
      );
    }

    -- Moving an element to the front, with another entry for the same key.
    pub move-LruInv : (d : CacheEntry V) → d.key ≡ e.key → LruInv (move_to_front c p d)
    unfolding lookup
    move-LruInv d same = record {
      linked = λ k q h. elim (Bool-cases (p == q)) [
        | inl here ↦
            let (x, at, key) = inv.linked k q h in
            let at' : lookup p c.lru_list ≡ some x =
              subst (λ r. lookup r c.lru_list ≡ some x) (sym ((==_iff p q).0 here)) at in
            let x≡e : x ≡ e = ground (arith, at', found) in
            (d, rw here, same ∙ ap (λ (y : CacheEntry V). y.key) (sym x≡e) ∙ key)
        | inr other ↦
            let (x, at, key) = inv.linked k q h in
            (x, ground (arith, other, lookup-delete p q c.lru_list, at), key)
      ];
      linked_back = λ q x h. elim (Bool-cases (p == q)) [
        | inl here ↦
            let d≡x : d ≡ x = ground (arith, here, h) in
            subst (λ (y : CacheEntry V). lookup y.key c.entries ≡ some q) d≡x
              (rw same (inv.linked_back p e found ∙ ap some ((==_iff p q).0 here)))
        | inr other ↦ inv.linked_back q x (ground (arith, lookup-delete p q c.lru_list, other, h))
      ];
      fresh = λ q x h. elim (Bool-cases (p == q)) [
        | inl here ↦ subst (λ r. r < c.next_address) ((==_iff p q).0 here) (inv.fresh p e found)
        | inr other ↦ inv.fresh q x (ground (arith, lookup-delete p q c.lru_list, other, h))
      ];
      unique_entries = inv.unique_entries;
      unique_list = (
        ground (arith, lookup-delete p p c.lru_list, ==_iff p p),
        Unique-delete p c.lru_list inv.unique_list,
      );
      size = ground (arith, inv.size, length-delete p c.lru_list e inv.unique_list found);
      same_length =
          omega (arith, length-delete p c.lru_list e inv.unique_list found, inv.same_length);
    }

  module _ (c : LruCache V) (inv : LruInv c) (e : CacheEntry V)
      (absent : lookup e.key c.entries ≡ none) where
    -- no element has the next address
    address_free : lookup c.next_address c.lru_list ≡ none
    address_free = elim (Option-cases (lookup c.next_address c.lru_list)) [
      | inl free ↦ free
      | inr (d, taken) ↦ absurd (omega (arith, inv.fresh c.next_address d taken))
    ]

    pub push-LruInv : LruInv (push_front c e.key e)
    unfolding push_front lookup
    push-LruInv = record {
      linked = λ k q h. elim (Bool-cases (e.key == k)) [
        | inl here ↦
            let q' : c.next_address ≡ q =
              ground (arith, lookup-insert e.key k c.next_address c.entries, here, h) in
            (e, rw ((==_iff c.next_address q).1 q'), (==_iff e.key k).0 here)
        | inr other ↦
            let h' : lookup k c.entries ≡ some q =
              ground (arith, lookup-insert e.key k c.next_address c.entries, other, h) in
            let (d, at, key) = inv.linked k q h' in
            let ne : (c.next_address == q) ≡ false =
              ground (arith, inv.fresh q d at, ==_iff c.next_address q) in
            (d, rw ne at, key)
      ];
      linked_back = λ q d h. elim (Bool-cases (c.next_address == q)) [
        | inl here ↦
            let e≡d : e ≡ d = ground (arith, here, h) in
            subst
              (λ (x : CacheEntry V). lookup x.key (insert e.key c.next_address c.entries) ≡ some q)
              e≡d
              (ground (
                arith,
                lookup-insert e.key e.key c.next_address c.entries,
                ==_iff e.key e.key,
                (==_iff c.next_address q).0 here,
              ))
        | inr other ↦
            let h' : lookup q c.lru_list ≡ some d = ground (arith, other, h) in
            let b = inv.linked_back q d h' in
            ground (
              arith,
              lookup-insert e.key d.key c.next_address c.entries,
              ==_iff e.key d.key,
              b,
              λ (same : e.key ≡ d.key). subst (λ x. lookup x c.entries ≡ none) same absent,
            )
      ];
      fresh = λ q d h. elim (Bool-cases (c.next_address == q)) [
        | inl here ↦ omega (arith, (==_iff c.next_address q).0 here)
        | inr other ↦ omega (arith, inv.fresh q d (ground (arith, other, h)))
      ];
      unique_entries = Unique-insert e.key c.next_address c.entries inv.unique_entries;
      unique_list = (address_free, inv.unique_list);
      size = ground (arith, inv.size);
      same_length =
          ground (arith, length-insert e.key c.next_address c.entries, absent, inv.same_length);
    }
