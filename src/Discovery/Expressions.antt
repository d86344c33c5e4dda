-- ===== src/Discovery/Expressions.antt =====
-- The expressions of pkg/discovery/resolver/expression.go. What fmt prints for a value, strconv.Atoi and
-- regexp.Compile are arguments. A dereference of nil is `none`.
pub mod Selects
pub mod Compiled
use function_kubecore_schema.Base.{
  ℕ, zero, suc, String, Bool, true, false, ◌&&◌, ◌||◌, not, ◌⊎◌, inl, inr, Option, none, some, List,
  [], ◌∷◌, ◌++◌, ◌==◌, if◌then◌else◌, nat_beq, ℤ, pos, negsuc, Text, text_eq, has_prefix,
  has_suffix,
}

-- The content of an unstructured object. An atom is a string, a number or a Boolean, by its text.
mutual
  pub data Value : Type 0 where
    null_value : Value
    atom : Text → Value
    array : Values → Value
    object : Fields → Value

  pub data Values : Type 0 where
    no_values : Values
    value_then : Value → Values → Values

  pub data Fields : Type 0 where
    no_fields : Fields
    field_then : Text → Value → Fields → Fields

pub data ExpressionOperator : Type 0 where
  op_equals op_not_equals op_in op_not_in op_contains op_starts_with : ExpressionOperator
  op_ends_with op_regex op_exists op_not_exists : ExpressionOperator
  op_unknown : Text → ExpressionOperator

pub record Expression : Type 0 where
  pub field : Text
  pub operator : ExpressionOperator
  pub value : Option Text
  pub values : List Text

pub data ExpressionError : Type 0 where
  field_required requires_value requires_values unsupported_operator : ExpressionError
  invalid_regex : ExpressionError

-- What other packages do.
pub record Externals : Type 0 where
  pub print : Value → Text
  pub atoi : Text → Option ℤ
  pub compile : Text → Option (Text → Bool)

pub record CompiledExpression : Type 0 where
  pub original : Expression
  pub regex : Option (Text → Bool)

-- Less the expected value, a copy of the expression's.
pub record ExpressionMatch : Type 0 where
  pub field : Text
  pub operator : ExpressionOperator
  pub actual_value : Value
  pub matched : Bool

unfoldable pub require_value : Option Text → Option ExpressionError
require_value none = some requires_value
require_value (some v) = none

unfoldable pub require_values : List Text → Option ExpressionError
require_values [] = some requires_values
require_values (v ∷ vs) = none

-- What an operator wants.
unfoldable pub validate_operator : Expression → Option ExpressionError
validate_operator e = elim e.operator [
  | op_equals ↦ require_value e.value
  | op_not_equals ↦ require_value e.value
  | op_contains ↦ require_value e.value
  | op_starts_with ↦ require_value e.value
  | op_ends_with ↦ require_value e.value
  | op_regex ↦ require_value e.value
  | op_in ↦ require_values e.values
  | op_not_in ↦ require_values e.values
  | op_exists ↦ none
  | op_not_exists ↦ none
  | op_unknown name ↦ some unsupported_operator
]

-- `none` is nil
unfoldable pub validate_expression : Expression → Option ExpressionError
validate_expression e = elim e.field [ [] ↦ some field_required | c ∷ cs ↦ validate_operator e ]

-- strings.Contains
unfoldable pub has_infix : Text → Text → Bool
has_infix [] t = has_prefix [] t
has_infix (c ∷ s) t = has_prefix (c ∷ s) t || has_infix s t

unfoldable pub is_among : Text → List Text → Bool
is_among s [] = false
is_among s (v ∷ vs) = let rest = is_among s vs in if s == v then true else rest

-- *expr.Value, handed to a test
abbrev pub deref {ℓ} : {A : Type ℓ} → Option A → (A → Bool) → Option Bool
deref none f = none
deref (some v) f = some (f v)

abbrev pub is_nil_value : Value → Bool
is_nil_value null_value = true
is_nil_value (atom t) = false
is_nil_value (array vs) = false
is_nil_value (object fs) = false

-- The parts between the dots of a field path.
unfoldable pub split_dots : Text → Text → List Text
split_dots part [] = part ∷ []
split_dots part (c ∷ s) =
    let rest = split_dots (part ++ c ∷ []) s in
    if nat_beq c b'.' then part ∷ split_dots [] s else rest

unfoldable pub field_of : Text → Fields → Value
field_of name no_fields = null_value
field_of name (field_then k v fs) = let rest = field_of name fs in if k == name then v else rest

unfoldable pub element_of : ℕ → Values → Value
element_of n no_values = null_value
element_of zero (value_then v vs) = v
element_of (suc n) (value_then v vs) = element_of n vs

abbrev pub element_at : Option ℤ → Values → Value
element_at none vs = null_value
element_at (some (pos n)) vs = element_of n vs
element_at (some (negsuc n)) vs = null_value

module _ (x : Externals) where
  unfoldable pub compile_expression : Expression → ExpressionError ⊎ CompiledExpression
  compile_expression e = elim (validate_expression e) [
    | some error ↦ inl error
    | none ↦ elim e.operator [
      | op_regex ↦ elim e.value [
        | none ↦ inl requires_value
        | some pattern ↦ elim (x.compile pattern) [
          | none ↦ inl invalid_regex
          | some regex ↦ inr (record { original = e; regex = some regex })
        ]
      ]
      | _ ↦ inr (record { original = e; regex = none })
    ]
  ]

  unfoldable pub compile_expressions : List Expression → ExpressionError ⊎ List CompiledExpression
  compile_expressions [] = inr []
  compile_expressions (e ∷ es) = elim (compile_expression e) [
    | inl error ↦ inl error
    | inr c ↦ elim (compile_expressions es) [ inl error ↦ inl error | inr cs ↦ inr (c ∷ cs) ]
  ]

  -- The walk of `getFieldValue`.
  unfoldable pub walk : List Text → Value → Value
  walk [] v = v
  walk (part ∷ parts) null_value = null_value
  walk (part ∷ parts) (atom t) = null_value
  walk (part ∷ parts) (array vs) = walk parts (element_at (x.atoi part) vs)
  walk (part ∷ parts) (object fs) = walk parts (field_of part fs)

  unfoldable pub get_field_value : Value → Text → Value
  get_field_value resource path = walk (split_dots [] path) resource

  unfoldable pub evaluate_expression : Expression → Value → Option (Text → Bool) → Option Bool
  evaluate_expression e actual regex =
      let text = x.print actual in
      elim e.operator [
        | op_equals ↦ deref e.value (λ v. text == v)
        | op_not_equals ↦ deref e.value (λ v. not (text == v))
        | op_in ↦ some (is_among text e.values)
        | op_not_in ↦ some (not (is_among text e.values))
        | op_contains ↦ deref e.value (has_infix text)
        | op_starts_with ↦ deref e.value (has_prefix text)
        | op_ends_with ↦ deref e.value (has_suffix text)
        | op_regex ↦ deref regex (λ matches. matches text)
        | op_exists ↦ some (not (is_nil_value actual) && not (text == []))
        | op_not_exists ↦ some (is_nil_value actual || text == [])
        | op_unknown name ↦ some false
      ]

  abbrev pub record_match :
      Expression → Value → Bool → Bool × List ExpressionMatch → Bool × List ExpressionMatch
  record_match e actual matched (all_matched, details) = (
    matched && all_matched,
    record { field = e.field; operator = e.operator; actual_value = actual; matched = matched }
        ∷ details,
  )

  -- `evaluateExpressions`: if all match, and a match for each.
  unfoldable pub evaluate_expressions :
      Value → List CompiledExpression → Option (Bool × List ExpressionMatch)
  evaluate_expressions resource [] = some (true, [])
  evaluate_expressions resource (c ∷ cs) =
      let actual = get_field_value resource c.original.field in
      elim (evaluate_expression c.original actual c.regex) [
        | none ↦ none
        | some matched ↦ elim (evaluate_expressions resource cs) [
          | none ↦ none
          | some rest ↦ some (record_match c.original actual matched rest)
        ]
      ]
