-- ===== src/Base/Distinct.antt =====
-- Maps whose keys are distinct, as those of every Go map are: the number of entries under the
-- operations.
use Prim.Native.Nat.{suc}
use mathlib.Core.Path.{◌≡◌, refl, ap, subst}
use mathlib.Core.Logic.{inl, inr}
use mathlib.Core.Option.{none, some}
use mathlib.Core.List.{[], ◌∷◌}
use native.Mathlib.Omega.{arith}
use function_kubecore_schema.Base.Tests.{Eq, ◌==◌, Bool-cases, ==_refl}
use function_kubecore_schema.Base.Lists.{length}
use function_kubecore_schema.Base.Maps.{
  Dict, Entries, lookup, insert, delete, lookup-insert, lookup-delete,
}

module _ {ℓ κ} {K : Type ℓ} {V : Type κ} ⦃e : Eq K⦄ where
  abbrev pub Unique : Dict K V → Type κ
  Unique [] = Unit
  Unique ((j, w) ∷ m) = (lookup j m ≡ none) × Unique m

  pub Unique-insert : (k : K) (v : V) (m : Dict K V) → Unique m → Unique (insert k v m)
  unfolding insert lookup
  Unique-insert k v [] u = (refl, tt)
  Unique-insert k v ((j, w) ∷ m) u = elim (Bool-cases (j == k)) [
    | inl same ↦ rw same u
    | inr other ↦ rw other (
      ground (arith, lookup-insert k j v m, e.eqb_iff k j, e.eqb_iff j k, u.0),
      Unique-insert k v m u.1,
    )
  ]

  pub Unique-delete : (k : K) (m : Dict K V) → Unique m → Unique (delete k m)
  unfolding delete
  Unique-delete k [] u = tt
  Unique-delete k ((j, w) ∷ m) u = elim (Bool-cases (j == k)) [
    | inl same ↦ rw same (Unique-delete k m u.1)
    | inr other ↦ rw other (ground (arith, lookup-delete k j m, u.0), Unique-delete k m u.1)
  ]

  pub delete-absent : (k : K) (m : Dict K V) → lookup k m ≡ none → delete k m ≡ m
  unfolding delete lookup
  delete-absent k [] h = refl
  delete-absent k ((j, w) ∷ m) h = ground (arith, delete-absent k m)

  pub length-delete :
      (k : K) (m : Dict K V) (v : V)
      → Unique m
      → lookup k m ≡ some v
      → suc (length (delete k m)) ≡ length m
  unfolding delete lookup
  length-delete k [] v u h = cc
  length-delete k ((j, w) ∷ m) v u h = elim (Bool-cases (j == k)) [
    | inl same ↦
        let absent : lookup k m ≡ none =
          subst (λ x. lookup x m ≡ none) ((e.eqb_iff j k).0 same) u.0 in
        rw same (ap (λ l. suc (length l)) (delete-absent k m absent))
    | inr other ↦ rw other (ap suc (length-delete k m v u.1 (rw other at h)))
  ]

-- In a map with distinct keys, what holds of all that is found holds of all entries.
pub Entries-of_lookup {ℓ κ ι} :
    {K : Type ℓ} {V : Type κ} ⦃e : Eq K⦄ (P : K → V → Type ι) (m : Dict K V)
    → Unique m
    → ((k : K) (v : V) → lookup k m ≡ some v → P k v)
    → Entries P m
unfolding lookup
Entries-of_lookup P [] u h = tt
Entries-of_lookup ⦃e⦄ P ((j, w) ∷ m) u h = (
  h j w (rw (==_refl j)),
  Entries-of_lookup P m u.1 (λ k v f.
      h k v
        (ground (arith, e.eqb_iff j k, λ (q : j ≡ k). subst (λ x. lookup x m ≡ none) q u.0, f))),
)
