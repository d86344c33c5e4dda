-- ===== src/Tests/ExpressionTests.antt =====
-- pkg/discovery/resolver/expression.go on an object with a list and a name.
use function_kubecore_schema.Base.{
  ◌≡◌, refl, inr, Bool, true, Option, none, some, List, [], ◌∷◌, Text, runes, text_beq, has_prefix,
  has_suffix, pos,
}
use function_kubecore_schema.Discovery.Expressions.{
  Value, null_value, atom, array, object, value_then, no_values, field_then, no_fields,
  ExpressionOperator, op_starts_with, op_contains, Expression, Externals, CompiledExpression,
  ExpressionMatch, require_value, require_values, validate_operator, validate_expression, has_infix,
  is_among, split_dots, field_of, element_of, compile_expression, compile_expressions, walk,
  get_field_value, evaluate_expression, evaluate_expressions,
}
use function_kubecore_schema.Discovery.Expressions.Compiled.{Decided, evaluate_expressions-Decided}

-- Indices and patterns of one kind only.
abbrev externals : Externals
externals = record {
  print = λ v. elim v [
    | null_value ↦ runes "<nil>"
    | atom t ↦ t
    | array vs ↦ runes "[]"
    | object fs ↦ runes "map[]"
  ];
  atoi = λ t. some (pos 0);
  compile = λ t. some (λ s. true);
}

abbrev resource : Value
resource = object (
    field_then (runes "spec")
      (object (
        field_then (runes "names") (array (value_then (atom (runes "web-1")) no_values)) no_fields))
      no_fields)

abbrev expression : Text → ExpressionOperator → Text → Expression
expression field operator value = record {
  field = field;
  operator = operator;
  value = some value;
  values = [];
}

abbrev compiled : Expression → CompiledExpression
compiled e = record { original = e; regex = none }

abbrev starts : Expression
starts = expression (runes "spec.names.0") op_starts_with (runes "web")

-- A field that is missing has a text.
abbrev missing : Expression
missing = expression (runes "spec.owner") op_contains (runes "nil")

expression_runs : Unit {0}
unfolding require_value require_values validate_operator validate_expression has_infix is_among
    split_dots field_of element_of compile_expression compile_expressions walk get_field_value
    evaluate_expression evaluate_expressions runes text_beq has_prefix has_suffix
expression_runs = tt

accepted :
    compile_expressions externals (starts ∷ missing ∷ [])
    ≡ inr (compiled starts ∷ compiled missing ∷ [])
unfolding expression_runs
accepted = refl

abbrev answer : Option (Bool × List ExpressionMatch) → Option Bool
answer none = none
answer (some (b, details)) = some b

matched_value :
    answer (evaluate_expressions externals resource (compiled starts ∷ compiled missing ∷ []))
    ≡ some true
unfolding expression_runs
matched_value = refl

evaluate_expressions-Decided_example :
    Decided externals resource
      (starts ∷ missing ∷ [])
      (evaluate_expressions externals resource (compiled starts ∷ compiled missing ∷ []))
evaluate_expressions-Decided_example =
    evaluate_expressions-Decided externals (starts ∷ missing ∷ [])
      (compiled starts ∷ compiled missing ∷ []) resource accepted
