-- ===== src/Tests/LabelTests.antt =====
-- pkg/labels/transforms.go on short values, with packages whose digests are constant.
use function_kubecore_schema.Base.{
  Text, ℕ, zero, suc, ◌≤◌, ◌≡◌, refl, ◌↔◌, none, some, [], ◌∷◌, map, leb, length, if◌then◌else◌,
  pos,
}
use function_kubecore_schema.Labels.Config.{
  TransformType, TransformOptions, LabelTransform, TransformError, value_too_long, ok, err,
  Packages, hex, take,
}
use function_kubecore_schema.Labels.Transform.{
  is_valid_label_char, check_chars, validate_transformed_value, require_text, require_length,
  default_options, effective_algorithm, transform, transform_raw, transform_chain,
  validate_transform_config, check_affix, check_hash_options, check_length,
}
use function_kubecore_schema.Labels.Values.{IsLabelValue, validate_transformed_value_iff}
use function_kubecore_schema.Labels.Outcomes.{
  Accepted, OkIs, ErrIs, BadValue, transform_chain-Accepted, transform-BadValue,
}
use function_kubecore_schema.Labels.Hashed.{hash_config, transform_hash-sha256}

abbrev zeros : ℕ → Text
zeros zero = []
zeros (suc n) = 0 ∷ zeros n

abbrev packages : Packages
packages = record {
  to_lower = λ s. s;
  to_upper = λ s. s;
  md5 = λ s. zeros 16;
  sha1 = λ s. zeros 20;
  sha256 = λ s. zeros 32;
}

-- `a-b`
abbrev value : Text
value = b'a' ∷ b'-' ∷ b'b' ∷ []

abbrev prefix_x : LabelTransform
prefix_x = record {
  type = TransformType.prefix;
  options = some (record default_options { prefix = b'x' ∷ [] });
}

abbrev truncate_two : LabelTransform
truncate_two = record {
  type = TransformType.truncate;
  options = some (record default_options { length = pos 2 });
}

abbrev hash_64 : TransformOptions
hash_64 = record default_options { hash_length = pos 64 }

-- What the runs compute with.
label_runs : Unit {0}
unfolding is_valid_label_char check_chars validate_transformed_value require_text require_length
    transform transform_raw transform_chain validate_transform_config check_affix check_hash_options
    check_length
label_runs = tt

chain_value :
    transform_chain packages value (some prefix_x ∷ []) ≡ ok (b'x' ∷ b'a' ∷ b'-' ∷ b'b' ∷ [])
unfolding label_runs
chain_value = refl

-- Cut after the dash, the value is no label value.
truncate_value : transform packages value (some truncate_two) ≡ err TransformError.invalid_character
unfolding label_runs
truncate_value = refl

validate_transformed_value_iff_example :
    (validate_transformed_value value ≡ none) ↔ ((length value ≤ 63) × IsLabelValue value)
validate_transformed_value_iff_example = validate_transformed_value_iff value

transform_chain-Accepted_example :
    OkIs Accepted (transform_chain packages value (map some (prefix_x ∷ truncate_two ∷ [])))
transform_chain-Accepted_example =
    transform_chain-Accepted packages value prefix_x (truncate_two ∷ [])

transform-BadValue_example : ErrIs BadValue (transform packages value (some truncate_two))
transform-BadValue_example =
    transform-BadValue packages value truncate_two (unfold label_runs in refl)

transform_hash-sha256_example :
    transform packages value (some (hash_config hash_64))
    ≡ (if leb 64 63 then ok (take 64 (hex (zeros 32))) else err value_too_long)
transform_hash-sha256_example =
    transform_hash-sha256 packages (λ v. refl) value hash_64 (unfold label_runs in refl)
      (unfold effective_algorithm in refl)
