-- ===== src/Traversal/Batches/Split.antt =====
-- The loops of batch_optimizer.go that cut resources into slices.
use function_kubecore_schema.Base.{
  ℕ, zero, suc, ◌≤◌, ◌≡◌, refl, ap, ◌∙◌, none, some, List, [], ◌∷◌, ◌++◌, arith, length, All,
  Option, collect, take, drop, take-drop, length-drop_le, length-take_le,
}
use function_kubecore_schema.Graph.Types.{Resource}
use function_kubecore_schema.Graph.Builder.Build.{◌>>=◌}
use function_kubecore_schema.Graph.Builder.MergedNodes.{Gives}
use function_kubecore_schema.Traversal.Batches.{chunks}

-- All the resources, in order, in slices of one to `n`.
abbrev pub Cut : ℕ → List Resource → List (List Resource) → Type 0
Cut n rs cs =
    (collect (λ c. c) cs ≡ rs) × All (λ (c : List Resource). (1 ≤ length c) × (length c ≤ n)) cs

Cut-cons :
    (n : ℕ) (r : Resource) (rs : List Resource) (m : Option (List (List Resource)))
    → Gives (Cut (suc n) (drop (suc n) (r ∷ rs))) m
    → Gives (Cut (suc n) (r ∷ rs)) (m >>= λ rest. some (take (suc n) (r ∷ rs) ∷ rest))
Cut-cons n r rs none h = absurd h
Cut-cons n r rs (some cs) (all, sizes) = (
  ap (λ t. take (suc n) (r ∷ rs) ++ t) all ∙ take-drop (suc n) (r ∷ rs),
  ((omega arith, length-take_le (suc n) (r ∷ rs)), sizes),
)

pub chunks-Cut :
    (fuel n : ℕ) (rs : List Resource)
    → length rs ≤ fuel
    → Gives (Cut (suc n) rs) (chunks fuel (suc n) rs)
unfolding chunks
chunks-Cut fuel n [] h = (refl, tt)
chunks-Cut zero n (r ∷ rs) h = absurd (omega (arith, h))
chunks-Cut (suc fuel) n (r ∷ rs) h =
    Cut-cons n r rs (chunks fuel (suc n) (drop (suc n) (r ∷ rs)))
      (chunks-Cut fuel n (drop n rs) (omega (arith, h, length-drop_le n rs)))

-- A size of zero never ends.
pub chunks-endless : (fuel : ℕ) (r : Resource) (rs : List Resource) → chunks fuel 0 (r ∷ rs) ≡ none
unfolding chunks
chunks-endless zero r rs = refl
chunks-endless (suc fuel) r rs = rw (chunks-endless fuel r rs) refl
