-- ===== src/Base/Lists.antt =====
-- Lists measured by native numbers, the predicate that holds of all elements, and lists of errors.
use Prim.Native.Nat.{ℕ, zero, suc, ◌+◌, ◌≤◌}
use mathlib.Core.Path.{◌≡◌, refl, ap}
use mathlib.Core.Logic.{◌↔◌, ◌⊎◌, inl, inr}
use mathlib.Core.Bool.{Bool, true, false}
use mathlib.Core.List.{List, [], ◌∷◌, ◌++◌}
use native.Mathlib.Omega.{arith}

module _ {ℓ} {A : Type ℓ} where
  abbrev pub length : List A → ℕ
  length [] = 0
  length (x ∷ xs) = suc (length xs)

  pub length-append : (xs ys : List A) → length (xs ++ ys) ≡ length xs + length ys
  length-append [] ys = omega arith
  length-append (x ∷ xs) ys = omega (arith, length-append xs ys)

  pub append-eq-nil : (xs ys : List A) → (xs ++ ys ≡ []) ↔ ((xs ≡ []) × (ys ≡ []))
  append-eq-nil [] ys = (λ h. (refl, h), λ h. h.1)
  append-eq-nil (x ∷ xs) ys = (λ h. cc, λ h. cc)

  pub List-cases : (xs : List A) → (xs ≡ []) ⊎ ((x : A) × (rest : List A) × (xs ≡ x ∷ rest))
  List-cases [] = inl refl
  List-cases (x ∷ xs) = inr (x, xs, refl)

-- `P` of every element; it computes to tuples.
abbrev pub All {ℓ κ} : {A : Type ℓ} → (A → Type κ) → List A → Type κ
All P [] = Unit
All P (x ∷ xs) = P x × All P xs

module _ {ℓ κ} {A : Type ℓ} (P : A → Type κ) where
  pub All-append : (xs ys : List A) → All P xs → All P ys → All P (xs ++ ys)
  All-append [] ys hx hy = hy
  All-append (x ∷ xs) ys hx hy = (hx.0, All-append xs ys hx.1 hy)

pub All-map {ℓ κ ι} :
    {A : Type ℓ} (P : A → Type κ) (Q : A → Type ι) (xs : List A)
    → ((a : A) → P a → Q a)
    → All P xs
    → All Q xs
All-map P Q [] f h = tt
All-map P Q (x ∷ xs) f h = (f x h.0, All-map P Q xs f h.1)

-- The elements of `f x` for each `x`, in order: a loop that appends to one slice.
abbrev pub collect {ℓ κ} : {A : Type ℓ} {B : Type κ} → (A → List B) → List A → List B
collect f [] = []
collect f (x ∷ xs) = f x ++ collect f xs

pub collect-eq-nil {ℓ κ} :
    {A : Type ℓ} {B : Type κ} (f : A → List B) (xs : List A)
    → (collect f xs ≡ []) ↔ All (λ x. f x ≡ []) xs
collect-eq-nil f [] = (λ _. tt, λ _. refl)
collect-eq-nil f (x ∷ xs) = (
  λ h. let (a, b) = (append-eq-nil (f x) (collect f xs)).0 h in (a, (collect-eq-nil f xs).0 b),
  λ h. (append-eq-nil (f x) (collect f xs)).1 (h.0, (collect-eq-nil f xs).1 h.1),
)

-- How many elements pass a test.
abbrev pub count {ℓ} : {A : Type ℓ} → (A → Bool) → List A → ℕ
count p [] = 0
count p (x ∷ xs) = elim (p x) [ true ↦ suc (count p xs) | false ↦ count p xs ]

-- `a` is an element; it computes to a sum.
abbrev pub Member : {A : Type 0} → A → List A → Type 0
Member a [] = ⊥
Member a (x ∷ xs) = (a ≡ x) ⊎ Member a xs

module _ {A : Type 0} (a : A) where
  pub Member-append_left : (xs ys : List A) → Member a xs → Member a (xs ++ ys)
  Member-append_left [] ys h = absurd h
  Member-append_left (x ∷ xs) ys (inl e) = inl e
  Member-append_left (x ∷ xs) ys (inr h) = inr (Member-append_left xs ys h)

  pub Member-append_right : (xs ys : List A) → Member a ys → Member a (xs ++ ys)
  Member-append_right [] ys h = h
  Member-append_right (x ∷ xs) ys h = inr (Member-append_right xs ys h)

-- A weaker test counts no fewer elements, and more if it passes one that the other fails.
module _ {A : Type 0} (p q : A → Bool) (weaker : (a : A) → p a ≡ true → q a ≡ true) where
  pub count_mono : (xs : List A) → count p xs ≤ count q xs
  count_mono [] = omega arith
  count_mono (x ∷ xs) = ground (arith, weaker x, count_mono xs)

  pub count_strict :
      (a : A) (xs : List A) → Member a xs → p a ≡ false → q a ≡ true → suc (count p xs) ≤ count q xs
  count_strict a [] h np nq = absurd h
  count_strict a (x ∷ xs) (inl e) np nq = ground (arith, count_mono xs)
  count_strict a (x ∷ xs) (inr h) np nq = ground (arith, weaker x, count_strict a xs h np nq)

pub count-le-length {ℓ} : {A : Type ℓ} (p : A → Bool) (xs : List A) → count p xs ≤ length xs
count-le-length p [] = omega arith
count-le-length p (x ∷ xs) = ground (arith, count-le-length p xs)

-- The elements behind `append(xs, b)`.
pub Member-push :
    {A : Type 0} (a b : A) (xs : List A) → Member a (xs ++ b ∷ []) ↔ (Member a xs ⊎ (a ≡ b))
Member-push a b [] = (λ h. ground arith, λ h. ground arith)
Member-push a b (x ∷ xs) = let ih = Member-push a b xs in (λ h. ground arith, λ h. ground arith)

module _ {ℓ} {A : Type ℓ} where
  -- xs[:n], or all of them
  abbrev pub take : ℕ → List A → List A
  take zero xs = []
  take (suc n) [] = []
  take (suc n) (x ∷ xs) = x ∷ take n xs

  -- xs[n:], or none
  abbrev pub drop : ℕ → List A → List A
  drop zero xs = xs
  drop (suc n) [] = []
  drop (suc n) (x ∷ xs) = drop n xs

  pub take-drop : (n : ℕ) (xs : List A) → take n xs ++ drop n xs ≡ xs
  take-drop zero xs = refl
  take-drop (suc n) [] = refl
  take-drop (suc n) (x ∷ xs) = ap (λ ys. x ∷ ys) (take-drop n xs)

  pub length-drop_le : (n : ℕ) (xs : List A) → length (drop n xs) ≤ length xs
  length-drop_le zero xs = omega arith
  length-drop_le (suc n) [] = omega arith
  length-drop_le (suc n) (x ∷ xs) = omega (arith, length-drop_le n xs)

  pub length-take_le : (n : ℕ) (xs : List A) → length (take n xs) ≤ n
  length-take_le zero xs = omega arith
  length-take_le (suc n) [] = omega arith
  length-take_le (suc n) (x ∷ xs) = omega (arith, length-take_le n xs)

  pub count-append : (p : A → Bool) (xs ys : List A) → count p (xs ++ ys) ≡ count p xs + count p ys
  count-append p [] ys = omega arith
  count-append p (x ∷ xs) ys = ground (arith, count-append p xs ys)
