-- ===== src/Labels/Hashed.antt =====
-- The hash transformation of transforms.go: which lengths `ValidateTransformConfig` should admit.
use function_kubecore_schema.Base.{
  Text, ℕ, zero, suc, ◌*◌, ◌/◌, ◌%◌, ◌≤◌, ◌<◌, ◌≡◌, refl, ap, ◌∙◌, inl, inr, true, ◌||◌, none, some,
  [], ◌∷◌, arith, string_eq, Bool-cases, ltb, leb, length, if◌then◌else◌, pos, pos_part, ltb_ℤ, All,
}
use function_kubecore_schema.Labels.Config.{
  TransformType, TransformOptions, LabelTransform, value_too_long, ok, err, Packages, hex,
  hex_digit, take,
}
use function_kubecore_schema.Labels.Transform.{
  validate_transformed_value, checked, transform_raw, transform, apply_hash, digest,
  check_hash_options, known_algorithm, effective_algorithm, effective_length,
  validate_transform_config,
}
use function_kubecore_schema.Labels.Values.{
  IsLabelValue, Tail, Alphanumeric, validate_transformed_value_iff,
}

hex_digit-Alphanumeric : (d : ℕ) → d < 16 → Alphanumeric (hex_digit d)
hex_digit-Alphanumeric d h = elim (Bool-cases (ltb d 10)) [
  | inl digit ↦ rw digit (inr (inr (ground (arith, digit))))
  | inr letter ↦ rw letter (inl (ground (arith, letter, h)))
]

hex-Alphanumeric : (bs : Text) → All Alphanumeric (hex bs)
hex-Alphanumeric [] = tt
hex-Alphanumeric (b ∷ bs) = (
  hex_digit-Alphanumeric (b / 16 % 16) (omega arith),
  (hex_digit-Alphanumeric (b % 16) (omega arith), hex-Alphanumeric bs),
)

take-All : (n : ℕ) (s : Text) → All Alphanumeric s → All Alphanumeric (take n s)
take-All zero s h = tt
take-All (suc n) [] h = tt
take-All (suc n) (c ∷ cs) h = (h.0, take-All n cs h.1)

All-Tail : (s : Text) → All Alphanumeric s → Tail s
All-Tail [] h = tt
All-Tail (c ∷ []) h = h.0
All-Tail (c ∷ d ∷ s) h = (inl h.0, All-Tail (d ∷ s) h.1)

All-IsLabelValue : (s : Text) → All Alphanumeric s → IsLabelValue s
All-IsLabelValue [] h = tt
All-IsLabelValue (c ∷ cs) h = (h.0, All-Tail cs h.1)

length-take : (n : ℕ) (s : Text) → length (take n s) ≤ n
length-take zero s = omega arith
length-take (suc n) [] = omega arith
length-take (suc n) (c ∷ cs) = let ih = length-take n cs in omega (arith, ih)

length-hex : (bs : Text) → length (hex bs) ≡ 2 * length bs
length-hex [] = refl
length-hex (b ∷ bs) = let ih = length-hex bs in omega (arith, ih)

take_whole : (n : ℕ) (s : Text) → length s ≤ n → take n s ≡ s
take_whole zero [] h = refl
take_whole zero (c ∷ cs) h = absurd (omega (arith, h))
take_whole (suc n) [] h = refl
take_whole (suc n) (c ∷ cs) h = ap (λ t. c ∷ t) (take_whole n cs (omega (arith, h)))

abbrev pub hash_config : TransformOptions → LabelTransform
hash_config o = record { type = TransformType.hash; options = some o }

hash_range :
    (o : TransformOptions)
    → validate_transform_config (some (hash_config o)) ≡ none
    → (known_algorithm o.hash_algorithm ≡ true)
      × ((4 ≤ pos_part o.hash_length) × (pos_part o.hash_length ≤ 64))
unfolding validate_transform_config check_hash_options
hash_range o h = elim (Bool-cases (known_algorithm o.hash_algorithm)) [
  | inl known ↦ elim (Bool-cases (ltb_ℤ o.hash_length (pos 4) || ltb_ℤ (pos 64) o.hash_length)) [
    | inl out ↦ cc
    | inr fine ↦ (known, (ground (arith, fine), ground (arith, fine)))
  ]
  | inr unknown ↦ cc
]

effective_length_lem :
    (o : TransformOptions)
    → validate_transform_config (some (hash_config o)) ≡ none
    → effective_length o ≡ pos_part o.hash_length
unfolding effective_length
effective_length_lem o h = let r = hash_range o h in ground (arith, r)

length-take_eq : (n : ℕ) (s : Text) → n ≤ length s → length (take n s) ≡ n
length-take_eq zero s h = refl
length-take_eq (suc n) [] h = absurd (omega (arith, h))
length-take_eq (suc n) (c ∷ cs) h =
    let ih = length-take_eq n cs (omega (arith, h)) in omega (arith, ih)

validate-hex : (n : ℕ) (bs : Text) → n ≤ 63 → validate_transformed_value (take n (hex bs)) ≡ none
validate-hex n bs h =
    let l = length-take n (hex bs) in
    let t = take-All n (hex bs) (hex-Alphanumeric bs) in
    (validate_transformed_value_iff (take n (hex bs))).1
      (omega (arith, l, h), All-IsLabelValue (take n (hex bs)) t)

validate-long : (v : Text) → 63 < length v → validate_transformed_value v ≡ some value_too_long
unfolding validate_transformed_value
validate-long v h = ground (arith, h)

module _ (packages : Packages) where
  transform_hash_lem :
      (value : Text) (o : TransformOptions)
      → validate_transform_config (some (hash_config o)) ≡ none
      → effective_algorithm o ≡ "sha256"
      → transform packages value (some (hash_config o))
        ≡ checked packages (take (pos_part o.hash_length) (hex (packages.sha256 value)))
  unfolding transform transform_raw apply_hash digest
  transform_hash_lem value o h sha = rw sha (rw (effective_length_lem o h) refl)

  -- A hash configuration that `ValidateTransformConfig` accepts and whose algorithm is sha256, with
  -- digests of 32 bytes, makes `Transform` return the first `HashLength` hexadecimal digits of the
  -- digest if `HashLength` is at most 63. If it is 64, the other length accepted, `Transform` returns
  -- the error that the value is too long, whatever the value.
  pub transform_hash-sha256 :
      ((v : Text) → length (packages.sha256 v) ≡ 32)
      → (value : Text) (o : TransformOptions)
      → validate_transform_config (some (hash_config o)) ≡ none
      → effective_algorithm o ≡ "sha256"
      → transform packages value (some (hash_config o)) ≡ (
          if leb (pos_part o.hash_length) 63
          then ok (take (pos_part o.hash_length) (hex (packages.sha256 value)))
          else err value_too_long)
  transform_hash-sha256 size value o h sha =
      let n = pos_part o.hash_length in
      let digits = hex (packages.sha256 value) in
      let r = hash_range o h in
      let l = length-hex (packages.sha256 value) in
      let s = size value in
      let run = transform_hash_lem value o h sha in
      elim (Bool-cases (leb n 63)) [
        | inl short ↦
            let fine = validate-hex n (packages.sha256 value) (ground (arith, short)) in
            run ∙ rw (short, fine, checked) refl
        | inr long ↦
            let q = length-take_eq n digits (omega (arith, r, l, s)) in
            let bad = validate-long (take n digits) (ground (arith, q, long)) in
            run ∙ rw (long, bad, checked) refl
      ]
