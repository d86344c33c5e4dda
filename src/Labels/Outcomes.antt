-- ===== src/Labels/Outcomes.antt =====
-- What `Transform` and `TransformChain` of transforms.go return.
use function_kubecore_schema.Base.{
  Text, ℕ, suc, ◌-◌, ◌≤◌, ◌≡◌, refl, sym, ap, ◌∙◌, ◌⊎◌, inl, inr, String, true, ◌||◌, Option, none,
  some, List, [], ◌∷◌, ◌++◌, map, string_eq, ◌==◌, Bool-cases, ltb, nat_beq, length, pos, pos_part,
  ltb_ℤ,
}
use function_kubecore_schema.Labels.Config.{
  TransformType, TransformOptions, LabelTransform, TransformError, requires_prefix, requires_suffix,
  requires_old, value_too_long, invalid_character, Result, ok, err, ◌>>=◌, Packages, hex, take,
  replace_all,
}
use function_kubecore_schema.Labels.Transform.{
  check_chars, validate_transformed_value, checked, transform_raw, transform, transform_chain,
  require_text, require_length, check_required, is_valid_label_char, check_length,
  check_hash_options, known_algorithm, digest, apply_hash, effective_algorithm, effective_length,
  default_options, new_text, check_affix, validate_transform_config,
}
use function_kubecore_schema.Labels.Values.{IsLabelValue, validate_transformed_value_iff}

-- A value that Kubernetes accepts as a label value.
abbrev pub Accepted : Text → Type 0
Accepted v = (length v ≤ 63) × IsLabelValue v

-- The property of what a call returns, if it returns no error.
abbrev pub OkIs : (Text → Type 0) → Result Text → Type 0
OkIs P (ok v) = P v
OkIs P (err e) = Unit

checked-cases :
    (packages : Packages) (v : Text) (o : Option TransformError)
    → validate_transformed_value v ≡ o
    → OkIs Accepted (elim o [ none ↦ ok v | some e ↦ err e ])
checked-cases packages v none h = (validate_transformed_value_iff v).0 h
checked-cases packages v (some e) h = tt

module _ (packages : Packages) where
  checked_ok : (r : Result Text) → OkIs Accepted (r >>= checked packages)
  checked_ok (ok v) = checked-cases packages v (validate_transformed_value v) refl
  checked_ok (err e) = tt

  transform-Accepted :
      (value : Text) (config : LabelTransform)
      → OkIs Accepted (transform packages value (some config))
  unfolding transform
  transform-Accepted value config =
      checked_ok (transform_raw packages config.type config.options value)

  bind_ok : (r : Result Text) → OkIs Accepted r → OkIs Accepted (r >>= ok)
  bind_ok (ok v) h = h
  bind_ok (err e) h = tt

  bind_then :
      (r : Result Text) (f : Text → Result Text)
      → ((v : Text) → OkIs Accepted (f v))
      → OkIs Accepted (r >>= f)
  bind_then (ok v) f h = h v
  bind_then (err e) f h = tt

  -- Whatever chain of one or more transformations, none of them nil, is run, on whatever value,
  -- `TransformChain` returns an error or a value of at most 63 bytes that is a label value of Kubernetes.
  pub transform_chain-Accepted :
      (value : Text) (t : LabelTransform) (ts : List LabelTransform)
      → OkIs Accepted (transform_chain packages value (map some (t ∷ ts)))
  unfolding transform_chain
  transform_chain-Accepted value t [] =
      bind_ok (transform packages value (some t)) (transform-Accepted value t)
  transform_chain-Accepted value t (u ∷ ts) =
      bind_then (transform packages value (some t))
        (λ r. transform_chain packages r (map some (u ∷ ts))) (λ r. transform_chain-Accepted r u ts)

-- What `Transform` finds wrong with a value: its length or a character.
abbrev pub BadValue : TransformError → Type 0
BadValue e = (e ≡ value_too_long) ⊎ (e ≡ invalid_character)

abbrev pub ErrIs : (TransformError → Type 0) → Result Text → Type 0
ErrIs P (ok v) = Unit
ErrIs P (err e) = P e

-- A call that returned a value.
abbrev pub IsOk : Result Text → Type 0
IsOk r = (v : Text) × (r ≡ ok v)

check_chars-BadValue :
    (i n : ℕ) (v : Text) (e : TransformError) → check_chars i n v ≡ some e → BadValue e
unfolding check_chars
check_chars-BadValue i n [] e h = cc
check_chars-BadValue i n (r ∷ rs) e h =
    let ih = check_chars-BadValue (suc i) n rs e in
    elim (Bool-cases (is_valid_label_char r (nat_beq i 0 || nat_beq i (n - 1)))) [
      | inl fine ↦ ih (cc)
      | inr bad ↦ inr cc
    ]

validate-BadValue :
    (v : Text) (e : TransformError) → validate_transformed_value v ≡ some e → BadValue e
unfolding validate_transformed_value
validate-BadValue v e h = elim (Bool-cases (ltb 63 (length v))) [
  | inl long ↦ inl cc
  | inr short ↦ check_chars-BadValue 0 (length v) v e (cc)
]

required-IsOk :
    (r : Result Text) (f : Text → Option TransformError) (g : Text → Text)
    → check_required r f ≡ none
    → IsOk (r >>= (λ p. ok (g p)))
required-IsOk (ok v) f g h = (g v, refl)
required-IsOk (err e) f g h = cc

truncate-IsOk :
    (o : Option TransformOptions) (g : ℕ → Text)
    → check_length o ≡ none
    → IsOk (require_length o >>= (λ n. ok (g n)))
unfolding check_length require_length
truncate-IsOk none g h = cc
truncate-IsOk (some o) g h = elim (Bool-cases (ltb_ℤ (pos 0) o.length)) [
  | inl positive ↦ rw positive (g (pos_part o.length), refl)
  | inr bad ↦ cc
]

hash_options-known :
    (o : TransformOptions)
    → check_hash_options (some o) ≡ none
    → known_algorithm o.hash_algorithm ≡ true
unfolding check_hash_options
hash_options-known o h = elim (Bool-cases (known_algorithm o.hash_algorithm)) [
  | inl known ↦ known
  | inr unknown ↦ cc
]

module _ (packages : Packages) where
  digest-IsOk :
      (a : String) (v : Text)
      → (a == "md5" || a == "sha1" || a == "sha256") ≡ true
      → IsOk (digest packages a v)
  unfolding digest
  digest-IsOk a v h = elim (Bool-cases (a == "md5")) [
    | inl md5 ↦ rw md5 (packages.md5 v, refl)
    | inr not_md5 ↦ rw not_md5 (elim (Bool-cases (a == "sha1")) [
      | inl sha1 ↦ rw sha1 (packages.sha1 v, refl)
      | inr not_sha1 ↦ rw not_sha1 (elim (Bool-cases (a == "sha256")) [
        | inl sha256 ↦ rw sha256 (packages.sha256 v, refl)
        | inr unknown ↦ cc
      ])
    ])
  ]

  effective-known :
      (o : TransformOptions)
      → known_algorithm o.hash_algorithm ≡ true
      → (effective_algorithm o == "md5"
          || effective_algorithm o == "sha1"
          || effective_algorithm o == "sha256")
        ≡ true
  unfolding effective_algorithm
  effective-known o h = elim (Bool-cases (o.hash_algorithm == "")) [
    | inl empty ↦ rw empty refl
    | inr given ↦ rw given (
        ap
          (λ b.
            b
            || o.hash_algorithm == "md5"
            || o.hash_algorithm == "sha1"
            || o.hash_algorithm == "sha256")
          (sym given)
        ∙ h)
  ]

  hash-IsOk :
      (v : Text) (o : Option TransformOptions)
      → check_hash_options o ≡ none
      → IsOk (apply_hash packages v o)
  unfolding apply_hash
  hash-IsOk v none h =
      let q =
        digest-IsOk (effective_algorithm default_options) v (unfold effective_algorithm in refl) in
      rw q.1 (take (effective_length default_options) (hex q.0), refl)
  hash-IsOk v (some o) h =
      let q = digest-IsOk (effective_algorithm o) v (effective-known o (hash_options-known o h)) in
      rw q.1 (take (effective_length o) (hex q.0), refl)

  raw-IsOk :
      (v : Text) (t : TransformType) (o : Option TransformOptions)
      → validate_transform_config (some (record { type = t; options = o })) ≡ none
      → IsOk (transform_raw packages t o v)
  unfolding transform_raw validate_transform_config
  raw-IsOk v TransformType.lowercase o h = (packages.to_lower v, refl)
  raw-IsOk v TransformType.uppercase o h = (packages.to_upper v, refl)
  raw-IsOk v TransformType.prefix o h =
      required-IsOk (require_text requires_prefix (λ o. o.prefix) o) check_affix (λ p. p ++ v) h
  raw-IsOk v TransformType.suffix o h =
      required-IsOk (require_text requires_suffix (λ o. o.suffix) o) check_affix (λ s. v ++ s) h
  raw-IsOk v TransformType.replace o h =
      required-IsOk (require_text requires_old (λ o. o.old) o) (λ _. none)
        (λ old. replace_all v old (new_text o)) h
  raw-IsOk v TransformType.truncate o h = truncate-IsOk o (λ n. take n v) h
  raw-IsOk v TransformType.hash o h = hash-IsOk v o h
  raw-IsOk v (TransformType.unknown t) o h = cc

  checked-BadValue :
      (v : Text) (o : Option TransformError)
      → validate_transformed_value v ≡ o
      → ErrIs BadValue (elim o [ none ↦ ok v | some e ↦ err e ])
  checked-BadValue v none h = tt
  checked-BadValue v (some e) h = validate-BadValue v e h

  -- A configuration that `ValidateTransformConfig` accepts leaves `Transform` only the errors about the
  -- value that it made: one of more than 63 bytes, or a character that a label value must not have.
  pub transform-BadValue :
      (value : Text) (config : LabelTransform)
      → validate_transform_config (some config) ≡ none
      → ErrIs BadValue (transform packages value (some config))
  unfolding transform
  transform-BadValue value config h =
      let q = raw-IsOk value config.type config.options h in
      rw q.1 (checked-BadValue q.0 (validate_transformed_value q.0) refl)
