-- ===== src/Traversal/Cache/Entry.antt =====
-- The entries and the statistics of the caches (cache.go). A time is a number of nanoseconds, which
-- an operation is given once, for `time.Now()`. The hit rate, a quotient of two floats that follows
-- from the hits and the misses, is left out.
use function_kubecore_schema.Base.{
  ℕ, zero, suc, ◌+◌, String, Bool, ℤ, pos, negsuc, pos_part, neg_part, ltb_ℤ, sub_ℕ,
}

pub record CacheEntry {ℓ} (V : Type ℓ) : Type ℓ where
  pub key : String
  pub value : V
  pub expires_at : ℤ
  pub accessed_at : ℕ
  pub created_at : ℕ
  pub access_count : ℕ

pub record CacheStats : Type 0 where
  pub size : ℤ
  pub capacity : ℤ
  pub hits : ℕ
  pub misses : ℕ
  pub evictions : ℕ
  pub expired_entries : ℕ

-- c.stats.Size++ and c.stats.Size--
abbrev pub succ_ℤ : ℤ → ℤ
succ_ℤ (pos n) = pos (suc n)
succ_ℤ (negsuc zero) = pos 0
succ_ℤ (negsuc (suc n)) = negsuc n

abbrev pub pred_ℤ : ℤ → ℤ
pred_ℤ (pos zero) = negsuc 0
pred_ℤ (pos (suc n)) = pos n
pred_ℤ (negsuc n) = negsuc (suc n)

-- now.Add(ttl)
abbrev pub add_ttl : ℕ → ℤ → ℤ
add_ttl now ttl = sub_ℕ (now + pos_part ttl) (neg_part ttl)

-- time.Now().After(entry.ExpiresAt)
abbrev pub is_expired {ℓ} : {V : Type ℓ} → ℕ → CacheEntry V → Bool
is_expired now entry = ltb_ℤ entry.expires_at (pos now)

abbrev pub touch {ℓ} : {V : Type ℓ} → ℕ → CacheEntry V → CacheEntry V
touch now entry = record entry { accessed_at = now; access_count = entry.access_count + 1 }
