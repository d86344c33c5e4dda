-- ===== src/Traversal/Cache/Lru/RoundTrip.antt =====
-- `Get` behind `Set` of `LRUCache`.
use function_kubecore_schema.Base.{
  ℕ, suc, ◌≡◌, refl, sym, ap, ◌∙◌, String, true, false, Option, none, some, List, [], ◌∷◌, arith,
  string_eq, inl, inr, Bool-cases, Option-cases, ◌==◌, ==_refl, ℤ, pos, ltb_ℤ,
}
use function_kubecore_schema.Traversal.Cache.Entry.{CacheEntry, is_expired, add_ttl}
use function_kubecore_schema.Traversal.Cache.Lru.{
  LruCache, effective_ttl, renew, fresh_entry, get, set,
}
use function_kubecore_schema.Traversal.Cache.Lru.Recency.{
  find, without, take, spec_get, spec_set, view,
}
use function_kubecore_schema.Traversal.Cache.Lru.Refines.{get-Refines}
use function_kubecore_schema.Traversal.Cache.Lru.SetRefines.{Fits, SetRefines, set-Refines}

module _ {V : Type 0} where
  find-key :
      (key : String) (l : List (CacheEntry V)) (e : CacheEntry V)
      → find key l ≡ some e
      → (e.key == key) ≡ true
  find-key key [] e h = cc
  find-key key (d ∷ l) e h = elim (Bool-cases (d.key == key)) [
    | inl here ↦
        let d≡e : d ≡ e = ground (arith, here, h) in
        ap (λ (x : CacheEntry V). x.key == key) (sym d≡e) ∙ here
    | inr other ↦ find-key key l e (ground (arith, other, h))
  ]

  -- A lookup that meets a live entry for its key in front.
  spec_get-front :
      (now : ℕ) (key : String) (e : CacheEntry V) (l : List (CacheEntry V))
      → (e.key == key) ≡ true
      → is_expired now e ≡ false
      → (spec_get now key (e ∷ l)).1 ≡ some e.value
  unfolding spec_get
  spec_get-front now key e l here young =
      let found : find key (e ∷ l) ≡ some e = rw here refl in
      rw (found, spec_get) (rw (young, spec_get) refl)

  spec_get-spec_set :
      (n now now' : ℕ) (key : String) (value : V) (ttl : ℤ) (l : List (CacheEntry V))
      → ltb_ℤ (add_ttl now ttl) (pos now') ≡ false
      → (spec_get now' key (spec_set (suc n) now key value ttl l)).1 ≡ some value
  unfolding spec_set
  spec_get-spec_set n now now' key value ttl l young = elim (Option-cases (find key l)) [
    | inl absent ↦
        rw (absent, spec_set)
          (spec_get-front now' key (fresh_entry now key value ttl) (take n l) (==_refl key) young)
    | inr (e, found) ↦
        rw (found, spec_set)
          (spec_get-front now' key (renew now value ttl e) (without key l) (find-key key l e found)
            young)
  ]

  -- The `Get`, from what the `Set` left.
  get_part :
      (n now now' : ℕ) (key : String) (value : V) (ttl : ℤ) (c : LruCache V)
      (o : Option (LruCache V))
      → SetRefines (suc n) now key value ttl c o
      → ltb_ℤ (add_ttl now ttl) (pos now') ≡ false
      → (d : LruCache V) × (o ≡ some d) × ((get now' key d).1 ≡ some value)
  get_part n now now' key value ttl c none r young = absurd r
  get_part n now now' key value ttl c (some d) r young = (
    d,
    refl,
    (get-Refines now' key d r.0.inv).2
        ∙ ap (λ l. (spec_get now' key l).1) r.1
        ∙ spec_get-spec_set n now now' key value ttl (view c.lru_list) young,
  )

-- On a cache in order whose capacity is at least one, a `Set` returns, and a `Get` for the same key
-- behind it returns the value that was set, if the entry has not expired by then.
pub get-set :
    {V : Type 0} (n now now' : ℕ) (key : String) (value : V) (ttl : ℤ) (c : LruCache V)
    → Fits (suc n) c
    → ltb_ℤ (add_ttl now (effective_ttl c ttl)) (pos now') ≡ false
    → (d : LruCache V) × (set 2 now key value ttl c ≡ some d) × ((get now' key d).1 ≡ some value)
get-set n now now' key value ttl c fits young =
    get_part n now now' key value (effective_ttl c ttl) c _
      (set-Refines 0 (suc n) now key value ttl c fits) young
