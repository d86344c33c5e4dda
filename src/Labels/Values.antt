-- ===== src/Labels/Values.antt =====
-- The label values that Kubernetes accepts, and `validateTransformedValue` of transforms.go as their
-- decision.
use function_kubecore_schema.Base.{
  Text, ℕ, suc, ◌+◌, ◌-◌, ◌≤◌, ◌≡◌, refl, ◌↔◌, ◌⊎◌, inl, inr, Bool, true, false, ◌||◌, none, [],
  ◌∷◌, arith, Bool-cases, ltb, nat_beq, length,
}
use function_kubecore_schema.Labels.Transform.{
  is_valid_label_char, check_chars, validate_transformed_value,
}

-- [A-Za-z0-9]
abbrev pub Alphanumeric : ℕ → Type 0
Alphanumeric r = ((b'a' ≤ r) × (r ≤ b'z')) ⊎ (((b'A' ≤ r) × (r ≤ b'Z')) ⊎ ((b'0' ≤ r) × (r ≤ b'9')))

-- [-A-Za-z0-9_.]
abbrev pub Inner : ℕ → Type 0
Inner r = Alphanumeric r ⊎ ((r ≡ b'.') ⊎ ((r ≡ b'-') ⊎ (r ≡ b'_')))

-- ([-A-Za-z0-9_.]*[A-Za-z0-9])?
abbrev pub Tail : Text → Type 0
Tail [] = Unit
Tail (r ∷ []) = Alphanumeric r
Tail (r ∷ s ∷ rs) = Inner r × Tail (s ∷ rs)

-- (([A-Za-z0-9][-A-Za-z0-9_.]*)?[A-Za-z0-9])?
abbrev pub IsLabelValue : Text → Type 0
IsLabelValue [] = Unit
IsLabelValue (r ∷ rs) = Alphanumeric r × Tail rs

is_valid_label_char-Alphanumeric : (r : ℕ) → (is_valid_label_char r true ≡ true) ↔ Alphanumeric r
unfolding is_valid_label_char
is_valid_label_char-Alphanumeric r = (λ h. ground arith, λ h. ground arith)

is_valid_label_char-Inner : (r : ℕ) → (is_valid_label_char r false ≡ true) ↔ Inner r
unfolding is_valid_label_char
is_valid_label_char-Inner r = (λ h. ground arith, λ h. ground arith)

check-cons :
    (i n r : ℕ) (rs : Text) (b : Bool)
    → (nat_beq i 0 || nat_beq i (n - 1)) ≡ b
    → (check_chars i n (r ∷ rs) ≡ none)
      ↔ ((is_valid_label_char r b ≡ true) × (check_chars (suc i) n rs ≡ none))
unfolding check_chars
check-cons i n r rs b h = rw h (elim (Bool-cases (is_valid_label_char r b)) [
  | inl fine ↦ rw fine (λ q. (refl, q), λ q. q.1)
  | inr bad ↦ rw bad (λ q. cc, λ q. cc)
])

check-Tail :
    (i n : ℕ) (rs : Text) → suc i + length rs ≡ n → (check_chars (suc i) n rs ≡ none) ↔ Tail rs
check-Tail i n [] h = (λ _. tt, λ _. unfold check_chars in refl)
check-Tail i n (r ∷ []) h =
    let c = check-cons (suc i) n r [] true (ground arith) in
    (
      λ q. (is_valid_label_char-Alphanumeric r).0 (c.0 q).0,
      λ t. c.1 ((is_valid_label_char-Alphanumeric r).1 t, unfold check_chars in refl),
    )
check-Tail i n (r ∷ s ∷ rs) h =
    let c = check-cons (suc i) n r (s ∷ rs) false (ground arith) in
    let ih = check-Tail (suc i) n (s ∷ rs) (omega (arith, h)) in
    (
      λ q. ((is_valid_label_char-Inner r).0 (c.0 q).0, ih.0 (c.0 q).1),
      λ t. c.1 ((is_valid_label_char-Inner r).1 t.0, ih.1 t.1),
    )

check_chars_iff : (v : Text) → (check_chars 0 (length v) v ≡ none) ↔ IsLabelValue v
check_chars_iff [] = (λ _. tt, λ _. unfold check_chars in refl)
check_chars_iff (r ∷ rs) =
    let c = check-cons 0 (length (r ∷ rs)) r rs true refl in
    let t = check-Tail 0 (length (r ∷ rs)) rs (omega arith) in
    (
      λ q. ((is_valid_label_char-Alphanumeric r).0 (c.0 q).0, t.0 (c.0 q).1),
      λ h. c.1 ((is_valid_label_char-Alphanumeric r).1 h.0, t.1 h.1),
    )

-- `validateTransformedValue` finds no error exactly in the label values of at most 63 bytes.
pub validate_transformed_value_iff :
    (v : Text) → (validate_transformed_value v ≡ none) ↔ ((length v ≤ 63) × IsLabelValue v)
unfolding validate_transformed_value
validate_transformed_value_iff v = elim (Bool-cases (ltb 63 (length v))) [
  | inl long ↦ rw long (λ q. cc, λ h. absurd (ground (arith, long, h.0)))
  | inr short ↦
      rw short
        (λ q. (ground (arith, short), (check_chars_iff v).0 q), λ h. (check_chars_iff v).1 h.1)
]
