-- ===== src/Traversal/Cache/Ttl/Crossing.antt =====
-- Sequences of operations of a `TTLCache`, and two calls of `Get` that cross.
use function_kubecore_schema.Base.{
  ℕ, zero, suc, ◌≡◌, refl, sym, ap, ◌∙◌, String, true, some, List, [], ◌∷◌, arith, string_eq,
  ==_refl, length, ℤ, pos, lookup, delete, lookup-delete, length-delete, delete-absent,
}
use function_kubecore_schema.Traversal.Cache.Entry.{CacheEntry, pred_ℤ, succ_ℤ, is_expired}
use function_kubecore_schema.Traversal.Cache.Ttl.{
  TtlCache, new_ttl_cache, begin_get, finish_get, get, set, remove, clear, cleanup,
}
use function_kubecore_schema.Traversal.Cache.Ttl.Order.{
  InOrder, set-InOrder, remove-InOrder, get-InOrder, clear-InOrder,
}
use function_kubecore_schema.Traversal.Cache.Ttl.Cleanup.{cleanup-InOrder}

-- A call of a method that nothing interrupts, at a time.
pub data Call (V : Type 0) : Type 0 where
  get_call : ℕ → String → Call V
  set_call : ℕ → String → V → ℤ → Call V
  remove_call : String → Call V
  clear_call : Call V
  cleanup_call : ℕ → Call V

module _ {V : Type 0} where
  unfoldable pub perform : Call V → TtlCache V → TtlCache V
  perform (get_call now key) c = (get now key c).0
  perform (set_call now key value ttl) c = set now key value ttl c
  perform (remove_call key) c = remove key c
  perform clear_call c = clear c
  perform (cleanup_call now) c = cleanup now c

  unfoldable pub perform_all : List (Call V) → TtlCache V → TtlCache V
  perform_all [] c = c
  perform_all (x ∷ xs) c = perform_all xs (perform x c)

  perform-InOrder : (x : Call V) (c : TtlCache V) → InOrder c → InOrder (perform x c)
  unfolding perform
  perform-InOrder (get_call now key) c h = get-InOrder now key c h
  perform-InOrder (set_call now key value ttl) c h = set-InOrder now key value ttl c h
  perform-InOrder (remove_call key) c h = remove-InOrder key c h
  perform-InOrder clear_call c h = clear-InOrder c
  perform-InOrder (cleanup_call now) c h = cleanup-InOrder now c h

  all-InOrder : (xs : List (Call V)) (c : TtlCache V) → InOrder c → InOrder (perform_all xs c)
  unfolding perform_all
  all-InOrder [] c h = h
  all-InOrder (x ∷ xs) c h = all-InOrder xs (perform x c) (perform-InOrder x c h)

  new-InOrder : InOrder (new_ttl_cache {V = V})
  unfolding new_ttl_cache
  new-InOrder = record { unique = tt; size = refl }

-- Through any calls of the methods of a new `TTLCache`, one after the other, `Size` is the number of
-- entries.
pub size-eq-length :
    {V : Type 0} (xs : List (Call V))
    → (perform_all xs new_ttl_cache).stats.size
      ≡ pos (length (perform_all xs (new_ttl_cache {V = V})).entries)
size-eq-length xs = (all-InOrder xs new_ttl_cache new-InOrder).size

-- Two calls of `Get` for one key, both of which look it up before either deletes it.
unfoldable pub crossed_gets : {V : Type 0} → ℕ → ℕ → String → TtlCache V → TtlCache V
crossed_gets now now' key c =
    finish_get key (finish_get key (begin_get now' key (begin_get now key c).0).0)

begin_get-expired :
    {V : Type 0} (now : ℕ) (key : String) (c : TtlCache V) (e : CacheEntry V)
    → lookup key c.entries ≡ some e
    → is_expired now e ≡ true
    → (begin_get now key c).0 ≡ c
unfolding begin_get
begin_get-expired now key c e found old = rw (found, begin_get) (rw old refl)

succ-pred-pred : (n : ℕ) → succ_ℤ (pred_ℤ (pred_ℤ (pos (suc n)))) ≡ pos n
succ-pred-pred zero = refl
succ-pred-pred (suc n) = refl

finish_twice-size :
    {V : Type 0} (key : String) (c : TtlCache V) (e : CacheEntry V)
    → InOrder c
    → lookup key c.entries ≡ some e
    → succ_ℤ (finish_get key (finish_get key c)).stats.size
      ≡ pos (length (finish_get key (finish_get key c)).entries)
unfolding finish_get
finish_twice-size key c e h found =
    let once = delete key c.entries in
    let gone : delete key once ≡ once =
      delete-absent key once (ground (arith, lookup-delete key key c.entries, ==_refl key)) in
    rw gone (
      rw (h.size ∙ ap pos (sym (length-delete key c.entries e h.unique found)))
        (succ-pred-pred (length once)))

-- Where two calls of `Get` cross on a key whose entry has expired for both, and `Size` was the number
-- of entries, it is then one less.
pub crossed_gets-size :
    {V : Type 0} (now now' : ℕ) (key : String) (c : TtlCache V) (e : CacheEntry V)
    → InOrder c
    → lookup key c.entries ≡ some e
    → is_expired now e ≡ true
    → is_expired now' e ≡ true
    → succ_ℤ (crossed_gets now now' key c).stats.size
      ≡ pos (length (crossed_gets now now' key c).entries)
unfolding crossed_gets
crossed_gets-size now now' key c e h found old old' =
    simp (begin_get-expired now key c e found old, begin_get-expired now' key c e found old')
      (finish_twice-size key c e h found)
