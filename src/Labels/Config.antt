-- ===== src/Labels/Config.antt =====
-- The configuration of a label transformation (input/v1beta1/xr_labels.go), the errors, and what
-- transforms.go takes from other packages.
use function_kubecore_schema.Base.{
  ℕ, zero, suc, Bool, true, false, ◌&&◌, nat_beq, length, ◌+◌, ◌-◌, ◌/◌, ◌%◌, String, [], ◌∷◌, ◌++◌,
  Option, if◌then◌else◌, ltb, ℤ, Text,
}

pub data TransformType : Type 0 where
  lowercase uppercase prefix suffix replace truncate hash : TransformType
  unknown : String → TransformType

pub record TransformOptions : Type 0 where
  pub prefix : Text
  pub suffix : Text
  pub old : Text
  pub new : Text
  pub length : ℤ
  pub hash_algorithm : String
  pub hash_length : ℤ

pub record LabelTransform : Type 0 where
  pub type : TransformType
  pub options : Option TransformOptions

-- The validation errors of transforms.go, by what they complain of.
pub data TransformError : Type 0 where
  requires_prefix requires_suffix requires_old requires_length : TransformError
  unsupported_algorithm unsupported_type : TransformError
  length_over_limit hash_length_out_of_range : TransformError
  value_too_long invalid_character : TransformError

pub data Result (A : Type 0) : Type 0 where
  ok : A → Result A
  err : TransformError → Result A

infixl 5 ◌>>=◌
abbrev pub ◌>>=◌ : {A B : Type 0} → Result A → (A → Result B) → Result B
ok a >>= f = f a
err e >>= f = err e

-- The functions of Go's packages strings, md5, sha1 and sha256: case mapping over Unicode, and the
-- digests of 16, 20 and 32 bytes.
pub record Packages : Type 0 where
  pub to_lower : Text → Text
  pub to_upper : Text → Text
  pub md5 : Text → Text
  pub sha1 : Text → Text
  pub sha256 : Text → Text

-- fmt.Sprintf("%x", bytes)
abbrev pub hex_digit : ℕ → ℕ
hex_digit d = if ltb d 10 then b'0' + d else b'a' + (d - 10)

abbrev pub hex : Text → Text
hex [] = []
hex (b ∷ bs) = hex_digit (b / 16 % 16) ∷ hex_digit (b % 16) ∷ hex bs

abbrev pub take : ℕ → Text → Text
take zero s = []
take (suc n) [] = []
take (suc n) (c ∷ cs) = c ∷ take n cs

abbrev pub starts_with : Text → Text → Bool
starts_with [] s = true
starts_with (c ∷ cs) [] = false
starts_with (c ∷ cs) (d ∷ ds) = nat_beq c d && starts_with cs ds

-- strings.ReplaceAll for an `old` that is not empty; `skip` bytes of a match are still to be passed.
replace_from : Text → Text → ℕ → Text → Text
replace_from old new skip [] = []
replace_from old new (suc skip) (c ∷ cs) = replace_from old new skip cs
replace_from old new zero (c ∷ cs) = elim (starts_with old (c ∷ cs)) [
  | true ↦ new ++ replace_from old new (length old - 1) cs
  | false ↦ c ∷ replace_from old new 0 cs
]

unfoldable pub replace_all : Text → Text → Text → Text
unfolding replace_from
replace_all s old new = replace_from old new 0 s
