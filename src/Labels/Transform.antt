-- ===== src/Labels/Transform.antt =====
-- pkg/labels/transforms.go
use function_kubecore_schema.Base.{
  Text, ℕ, suc, ◌-◌, String, Bool, true, false, ◌&&◌, ◌||◌, not, Option, none, some, List, [], ◌∷◌,
  ◌++◌, string_eq, ◌==◌, if◌then◌else◌, ltb, leb, nat_beq, length, pos, pos_part, ltb_ℤ,
}
use function_kubecore_schema.Labels.Config.{
  TransformType, TransformOptions, LabelTransform, TransformError, requires_prefix, requires_suffix,
  requires_old, requires_length, unsupported_algorithm, unsupported_type, length_over_limit,
  hash_length_out_of_range, value_too_long, invalid_character, Result, ok, err, ◌>>=◌, Packages,
  hex, take, replace_all,
}

abbrev pub is_alphanumeric : ℕ → Bool
is_alphanumeric r = leb b'a' r && leb r b'z' || leb b'A' r && leb r b'Z' || leb b'0' r && leb r b'9'

-- `isValidLabelChar`
unfoldable pub is_valid_label_char : ℕ → Bool → Bool
is_valid_label_char r is_first_or_last =
    if is_alphanumeric r
    then true
    else if not is_first_or_last
    then nat_beq r b'.' || nat_beq r b'-' || nat_beq r b'_'
    else false

-- The loop of `validateTransformedValue` from the index `i` in a value of `n` bytes. It runs over
-- bytes: a byte of a character outside ASCII is invalid, and so is the character.
unfoldable pub check_chars : ℕ → ℕ → Text → Option TransformError
check_chars i n [] = none
check_chars i n (r ∷ rs) =
    let rest = check_chars (suc i) n rs in
    if is_valid_label_char r (nat_beq i 0 || nat_beq i (n - 1))
    then rest
    else some invalid_character

-- `validateTransformedValue`; `none` is nil
unfoldable pub validate_transformed_value : Text → Option TransformError
validate_transformed_value value =
    if ltb 63 (length value) then some value_too_long else check_chars 0 (length value) value

-- a value of an option, or an error if there are no options or it is empty
unfoldable pub require_text :
    TransformError → (TransformOptions → Text) → Option TransformOptions → Result Text
require_text e field none = err e
require_text e field (some o) = elim (field o) [ [] ↦ err e | c ∷ cs ↦ ok (c ∷ cs) ]

unfoldable pub require_length : Option TransformOptions → Result ℕ
require_length none = err requires_length
require_length (some o) =
    if ltb_ℤ (pos 0) o.length then ok (pos_part o.length) else err requires_length

abbrev pub new_text : Option TransformOptions → Text
new_text none = []
new_text (some o) = o.new

abbrev pub default_options : TransformOptions
default_options = record {
  prefix = [];
  suffix = [];
  old = [];
  new = [];
  length = pos 0;
  hash_algorithm = "sha256";
  hash_length = pos 8;
}

abbrev pub options_or_default : Option TransformOptions → TransformOptions
options_or_default none = default_options
options_or_default (some o) = o

-- the algorithm and the length that `applyHashTransformation` uses
unfoldable pub effective_algorithm : TransformOptions → String
effective_algorithm o = if o.hash_algorithm == "" then "sha256" else o.hash_algorithm

unfoldable pub effective_length : TransformOptions → ℕ
effective_length o = if ltb_ℤ (pos 0) o.hash_length then pos_part o.hash_length else 8

module _ (packages : Packages) where
  unfoldable pub digest : String → Text → Result Text
  digest algorithm value =
      if algorithm == "md5"
      then ok (packages.md5 value)
      else if algorithm == "sha1"
      then ok (packages.sha1 value)
      else if algorithm == "sha256"
      then ok (packages.sha256 value)
      else err unsupported_algorithm

  -- `applyHashTransformation`; a cut beyond the end takes the whole text
  unfoldable pub apply_hash : Text → Option TransformOptions → Result Text
  apply_hash value options = do
    let o = options_or_default options
    bytes ← digest (effective_algorithm o) value
    ok (take (effective_length o) (hex bytes))

  -- The switch of `Transform`
  unfoldable pub transform_raw : TransformType → Option TransformOptions → Text → Result Text
  transform_raw TransformType.lowercase options value = ok (packages.to_lower value)
  transform_raw TransformType.uppercase options value = ok (packages.to_upper value)
  transform_raw TransformType.prefix options value = do
    p ← require_text requires_prefix (λ o. o.prefix) options
    ok (p ++ value)
  transform_raw TransformType.suffix options value = do
    s ← require_text requires_suffix (λ o. o.suffix) options
    ok (value ++ s)
  transform_raw TransformType.replace options value = do
    old ← require_text requires_old (λ o. o.old) options
    ok (replace_all value old (new_text options))
  transform_raw TransformType.truncate options value = do
    n ← require_length options
    ok (take n value)
  transform_raw TransformType.hash options value = apply_hash value options
  transform_raw (TransformType.unknown t) options value = err unsupported_type

  abbrev pub checked : Text → Result Text
  checked value = elim (validate_transformed_value value) [ none ↦ ok value | some e ↦ err e ]

  -- `Transform`; without a configuration the value is returned as it is
  unfoldable pub transform : Text → Option LabelTransform → Result Text
  transform value none = ok value
  transform value (some config) = do
    result ← transform_raw config.type config.options value
    checked result

  -- `TransformChain`
  unfoldable pub transform_chain : Text → List (Option LabelTransform) → Result Text
  transform_chain value [] = ok value
  transform_chain value (t ∷ ts) = do result ← transform value t; transform_chain result ts

-- The loops of `ValidateTransformConfig` over the bytes of a prefix or a suffix.
unfoldable pub check_affix : Text → Option TransformError
check_affix [] = none
check_affix (r ∷ rs) =
    let rest = check_affix rs in
    if is_valid_label_char r false then rest else some invalid_character

abbrev pub check_required : Result Text → (Text → Option TransformError) → Option TransformError
check_required (err e) f = some e
check_required (ok t) f = f t

abbrev pub known_algorithm : String → Bool
known_algorithm a = a == "" || a == "md5" || a == "sha1" || a == "sha256"

unfoldable pub check_hash_options : Option TransformOptions → Option TransformError
check_hash_options none = none
check_hash_options (some o) =
    if known_algorithm o.hash_algorithm
    then if ltb_ℤ o.hash_length (pos 4) || ltb_ℤ (pos 64) o.hash_length
      then some hash_length_out_of_range
      else none
    else some unsupported_algorithm

unfoldable pub check_length : Option TransformOptions → Option TransformError
check_length none = some requires_length
check_length (some o) =
    if ltb_ℤ (pos 0) o.length
    then if ltb_ℤ (pos 63) o.length then some length_over_limit else none
    else some requires_length

-- `ValidateTransformConfig`; `none` is nil
unfoldable pub validate_transform_config : Option LabelTransform → Option TransformError
validate_transform_config none = none
validate_transform_config (some config) = elim config.type [
  | TransformType.prefix ↦
      check_required (require_text requires_prefix (λ o. o.prefix) config.options) check_affix
  | TransformType.suffix ↦
      check_required (require_text requires_suffix (λ o. o.suffix) config.options) check_affix
  | TransformType.replace ↦
      check_required (require_text requires_old (λ o. o.old) config.options) (λ _. none)
  | TransformType.truncate ↦ check_length config.options
  | TransformType.hash ↦ check_hash_options config.options
  | TransformType.lowercase ↦ none
  | TransformType.uppercase ↦ none
  | TransformType.unknown t ↦ some unsupported_type
]
