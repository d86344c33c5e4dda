-- ===== src/Base/Maps.antt =====
-- Go maps as association lists. A Go map has one entry for a key and no order of iteration: an
-- operation keeps the order of the list, and a theorem over all lists is one for every order.
use Prim.Native.Nat.{ℕ, suc, ◌+◌}
use mathlib.Core.Path.{◌≡◌, refl, sym, subst, subst₂}
use mathlib.Core.Logic.{inl, inr}
use mathlib.Core.Bool.{Bool, true}
use mathlib.Core.Option.{Option, none, some}
use mathlib.Core.List.{List, [], ◌∷◌}
use native.Mathlib.Omega.{arith}
use function_kubecore_schema.Base.Tests.{Eq, ◌==◌, ==_refl, if◌then◌else◌, is_some, Bool-cases}
use function_kubecore_schema.Base.Lists.{length, All}

abbrev pub Dict {ℓ κ} : Type ℓ → Type κ → Type (ℓ ⊔ κ)
Dict K V = List (K × V)

module _ {ℓ κ} {K : Type ℓ} {V : Type κ} ⦃e : Eq K⦄ where
  -- v, exists := m[k]
  unfoldable pub lookup : K → Dict K V → Option V
  lookup k [] = none
  lookup k ((j, v) ∷ m) = if j == k then some v else lookup k m

  -- m[k] = v
  unfoldable pub insert : K → V → Dict K V → Dict K V
  insert k v [] = (k, v) ∷ []
  insert k v ((j, w) ∷ m) = if j == k then (j, v) ∷ m else (j, w) ∷ insert k v m

  -- delete(m, k)
  unfoldable pub delete : K → Dict K V → Dict K V
  delete k [] = []
  delete k ((j, w) ∷ m) = let rest = delete k m in if j == k then rest else (j, w) ∷ rest

  abbrev pub has : K → Dict K V → Bool
  has k m = is_some (lookup k m)

  -- m[k], which is the zero value where the key is absent
  abbrev pub get_or : K → Dict K V → V → V
  get_or k m d = elim (lookup k m) [ none ↦ d | some v ↦ v ]

  pub lookup-insert :
      (k q : K) (v : V) (m : Dict K V)
      → lookup q (insert k v m) ≡ (if k == q then some v else lookup q m)
  unfolding lookup insert
  lookup-insert k q v [] = refl
  lookup-insert k q v ((i, w) ∷ m) =
      ground (arith, e.eqb_iff k q, e.eqb_iff i k, e.eqb_iff i q, lookup-insert k q v m)

  pub lookup-delete :
      (k j : K) (m : Dict K V) → lookup j (delete k m) ≡ (if k == j then none else lookup j m)
  unfolding lookup delete
  lookup-delete k j [] = ground arith
  lookup-delete k j ((i, w) ∷ m) =
      ground (arith, e.eqb_iff k j, e.eqb_iff i k, e.eqb_iff i j, lookup-delete k j m)

  pub length-insert :
      (k : K) (v : V) (m : Dict K V)
      → length (insert k v m) ≡ (if has k m then length m else suc (length m))
  unfolding lookup insert
  length-insert k v [] = refl
  length-insert k v ((i, w) ∷ m) = ground (arith, length-insert k v m)

-- A property of every entry, by its key and its value.
abbrev pub Entries {ℓ κ ι} : {K : Type ℓ} {V : Type κ} → (K → V → Type ι) → Dict K V → Type ι
Entries P m = All (λ kv. P kv.0 kv.1) m

module _ {ℓ κ ι} {K : Type ℓ} {V : Type κ} ⦃e : Eq K⦄ (P : K → V → Type ι) where
  pub Entries-insert :
      (k : K) (v : V) (m : Dict K V) → P k v → Entries P m → Entries P (insert k v m)
  unfolding insert
  Entries-insert k v [] p h = (p, tt)
  Entries-insert k v ((j, w) ∷ m) p h = elim (Bool-cases (j == k)) [
    | inl same ↦ rw same (subst (λ x. P x v) (sym ((e.eqb_iff j k).0 same)) p, h.1)
    | inr other ↦ rw other (h.0, Entries-insert k v m p h.1)
  ]

  pub Entries-lookup : (k : K) (m : Dict K V) (v : V) → Entries P m → lookup k m ≡ some v → P k v
  unfolding lookup
  Entries-lookup k [] v h q = cc
  Entries-lookup k ((j, w) ∷ m) v h q = elim (Bool-cases (j == k)) [
    | inl same ↦ let w≡v : w ≡ v = ground arith in subst₂ P ((e.eqb_iff j k).0 same) w≡v h.0
    | inr other ↦ Entries-lookup k m v h.1 (rw other at q)
  ]

-- The entries that pass a test: `count` over the values.
abbrev pub count_values {ℓ κ} : {K : Type ℓ} {V : Type κ} → (V → Bool) → Dict K V → ℕ
count_values p [] = 0
count_values p ((j, w) ∷ m) = (if p w then 1 else 0) + count_values p m

module _ {ℓ κ} {K : Type ℓ} {V : Type κ} ⦃e : Eq K⦄ (p : V → Bool) where
  pub count-insert_new :
      (k : K) (v : V) (m : Dict K V)
      → lookup k m ≡ none
      → count_values p (insert k v m) ≡ (if p v then 1 else 0) + count_values p m
  unfolding lookup insert
  count-insert_new k v [] h = omega arith
  count-insert_new k v ((j, w) ∷ m) h = ground (arith, count-insert_new k v m)

  pub count-insert_old :
      (k : K) (v w : V) (m : Dict K V)
      → lookup k m ≡ some w
      → p v ≡ p w
      → count_values p (insert k v m) ≡ count_values p m
  unfolding lookup insert
  count-insert_old k v w [] h q = cc
  count-insert_old k v w ((j, u) ∷ m) h q = ground (arith, count-insert_old k v w m)

-- What is found stays found under an insertion.
pub has-insert {ℓ κ} :
    {K : Type ℓ} {V : Type κ} ⦃e : Eq K⦄ (k j : K) (v : V) (m : Dict K V)
    → has j m ≡ true
    → has j (insert k v m) ≡ true
has-insert k j v m h = ground (arith, lookup-insert k j v m)

pub has-insert_self {ℓ κ} :
    {K : Type ℓ} {V : Type κ} ⦃e : Eq K⦄ (k : K) (v : V) (m : Dict K V)
    → has k (insert k v m) ≡ true
has-insert_self k v m = ground (arith, lookup-insert k k v m, ==_refl k)

-- m[k]++ on a map of counts
abbrev pub count_up {ℓ} : {K : Type ℓ} ⦃e : Eq K⦄ → K → Dict K ℕ → Dict K ℕ
count_up k m = insert k (suc (get_or k m 0)) m

abbrev pub sum_values {ℓ} : {K : Type ℓ} → Dict K ℕ → ℕ
sum_values [] = 0
sum_values ((k, n) ∷ m) = n + sum_values m

pub sum-count_up {ℓ} :
    {K : Type ℓ} ⦃e : Eq K⦄ (k : K) (m : Dict K ℕ) → sum_values (count_up k m) ≡ suc (sum_values m)
unfolding insert lookup
sum-count_up k [] = omega arith
sum-count_up k ((j, n) ∷ m) = ground (arith, sum-count_up k m)

pub has-insert_if {ℓ κ} :
    {K : Type ℓ} {V : Type κ} ⦃e : Eq K⦄ (k q : K) (v : V) (m : Dict K V)
    → has q (insert k v m) ≡ (if k == q then true else has q m)
has-insert_if k q v m = ground (arith, lookup-insert k q v m)
