-- ===== src/Traversal/Cache/Ttl/Order.antt =====
-- `Size` of a `TTLCache` counts its entries as long as no two calls of `Get` cross.
use function_kubecore_schema.Base.{
  ℕ, ◌≡◌, refl, sym, ap, ◌∙◌, subst, String, Option, none, some, string_eq, inl, inr, Bool-cases,
  Option-cases, length, ℤ, pos, lookup, delete, length-insert, length-delete, Unique, Unique-insert,
  Unique-delete,
}
use function_kubecore_schema.Traversal.Cache.Entry.{CacheEntry, pred_ℤ, succ_ℤ, is_expired}
use function_kubecore_schema.Traversal.Cache.Ttl.{
  TtlCache, begin_entry, begin_get, finish_get, conclude, get, set, remove, clear,
}

module _ {V : Type 0} where
  pub record InOrder (c : TtlCache V) : Type 0 where
    pub unique : Unique c.entries
    pub size : c.stats.size ≡ pos (length c.entries)

  -- deletes the entry of a key that is there and counts it
  pub drop-InOrder :
      (key : String) (c d : TtlCache V) (e : CacheEntry V)
      → InOrder c
      → lookup key c.entries ≡ some e
      → d.entries ≡ delete key c.entries
      → d.stats.size ≡ pred_ℤ c.stats.size
      → InOrder d
  drop-InOrder key c d e h found es sz = record {
    unique = subst Unique (sym es) (Unique-delete key c.entries h.unique);
    size =
        sz
        ∙ ap pred_ℤ (h.size ∙ ap pos (sym (length-delete key c.entries e h.unique found)))
        ∙ ap (λ m. pos (length m)) (sym es);
  }

  pub set-InOrder :
      (now : ℕ) (key : String) (value : V) (ttl : ℤ) (c : TtlCache V)
      → InOrder c
      → InOrder (set now key value ttl c)
  unfolding set
  set-InOrder now key value ttl c h = record {
    unique = Unique-insert key _ c.entries h.unique;
    size = elim (Option-cases (lookup key c.entries)) [
      | inl absent ↦ rw length-insert (rw absent (ap succ_ℤ h.size))
      | inr (e, found) ↦ rw length-insert (rw found h.size)
    ];
  }

  pub remove-InOrder : (key : String) (c : TtlCache V) → InOrder c → InOrder (remove key c)
  unfolding remove
  remove-InOrder key c h = elim (Option-cases (lookup key c.entries)) [
    | inl absent ↦ rw (absent, remove) h
    | inr (e, found) ↦ rw (found, remove) (drop-InOrder key c _ e h found refl refl)
  ]

  pub finish_get-InOrder :
      (key : String) (c : TtlCache V) (e : CacheEntry V)
      → InOrder c
      → lookup key c.entries ≡ some e
      → InOrder (finish_get key c)
  unfolding finish_get
  finish_get-InOrder key c e h found = drop-InOrder key c _ e h found refl refl

  begin_entry-InOrder :
      (now : ℕ) (key : String) (c : TtlCache V) (o : Option (CacheEntry V))
      → InOrder c
      → lookup key c.entries ≡ o
      → InOrder (conclude key (begin_entry now key c o)).0
  unfolding begin_entry
  begin_entry-InOrder now key c none h q = record { unique = h.unique; size = h.size }
  begin_entry-InOrder now key c (some e) h q = elim (Bool-cases (is_expired now e)) [
    | inl old ↦ rw old (finish_get-InOrder key c e h q)
    | inr young ↦ rw young (record {
      unique = Unique-insert key _ c.entries h.unique;
      size = rw length-insert (rw q h.size);
    })
  ]

  pub get-InOrder :
      (now : ℕ) (key : String) (c : TtlCache V) → InOrder c → InOrder (get now key c).0
  unfolding get begin_get
  get-InOrder now key c h = begin_entry-InOrder now key c (lookup key c.entries) h refl

  pub clear-InOrder : (c : TtlCache V) → InOrder (clear c)
  unfolding clear
  clear-InOrder c = record { unique = tt; size = refl }
