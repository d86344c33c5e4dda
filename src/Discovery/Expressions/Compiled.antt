-- ===== src/Discovery/Expressions/Compiled.antt =====
-- The expressions that expression.go compiles, and the resources that they match.
use function_kubecore_schema.Base.{
  suc, ◌≡◌, refl, sym, ap, ◌↔◌, ◌⊎◌, inl, inr, subst, Bool, true, Option, none, some, List, [], ◌∷◌,
  Option-cases, All, Text, length,
}
use function_kubecore_schema.Discovery.Expressions.{
  Value, ExpressionOperator, op_equals, op_not_equals, op_in, op_not_in, op_contains,
  op_starts_with, op_ends_with, op_regex, op_exists, op_not_exists, op_unknown, Expression,
  ExpressionError, invalid_regex, Externals, CompiledExpression, ExpressionMatch, validate_operator,
  validate_expression, compile_expression, compile_expressions, get_field_value,
  evaluate_expression, evaluate_expressions,
}
use function_kubecore_schema.Discovery.Expressions.Selects.{
  Holds, Tells, Fits, expression, operator-Tells, and_iff,
}

-- What compiling gives.
abbrev Outcome : Type 0
Outcome = ExpressionError ⊎ CompiledExpression

same-right : (a b : CompiledExpression) (o : Outcome) → o ≡ inr a → o ≡ inr b → a ≡ b
same-right a b o p q = cc

abbrev with_regex : Expression → Option (Text → Bool) → CompiledExpression
with_regex e regex = record { original = e; regex = regex }

-- It is the expression, with the regular expression that fits its operator.
abbrev Compiles : Externals → Expression → CompiledExpression → Type 0
Compiles x e c = (c.original ≡ e) × Fits x e.operator e.value c.regex

plain-Compiles :
    (x : Externals) (e : Expression) (c : CompiledExpression)
    → compile_expression x e ≡ inr (with_regex e none)
    → Fits x e.operator e.value none
    → compile_expression x e ≡ inr c
    → Compiles x e c
plain-Compiles x e c made f h =
    subst (Compiles x e) (same-right (with_regex e none) c (compile_expression x e) made h)
      (refl, f)

regex-Compiles :
    (x : Externals) (field : Text) (value : Option Text) (values : List Text)
    (c : CompiledExpression)
    → validate_expression (expression field op_regex value values) ≡ none
    → compile_expression x (expression field op_regex value values) ≡ inr c
    → Compiles x (expression field op_regex value values) c
unfolding compile_expression
regex-Compiles x field none values c v h = cc
regex-Compiles x field (some pattern) values c v h =
    let e = expression field op_regex (some pattern) values in
    elim (Option-cases (x.compile pattern)) [
      | inl bad ↦
          let made : compile_expression x e ≡ inl invalid_regex =
            rw (v, compile_expression) (rw (bad, compile_expression) refl) in
          cc
      | inr (matches, good) ↦
          let made : compile_expression x e ≡ inr (with_regex e (some matches)) =
            rw (v, compile_expression) (rw (good, compile_expression) refl) in
          subst (Compiles x e)
            (same-right (with_regex e (some matches)) c (compile_expression x e) made h)
            (refl, (pattern, refl, (matches, good, refl)))
    ]

operator-Compiles :
    (x : Externals) (field : Text) (op : ExpressionOperator) (value : Option Text)
    (values : List Text) (c : CompiledExpression)
    → validate_expression (expression field op value values) ≡ none
    → compile_expression x (expression field op value values) ≡ inr c
    → Compiles x (expression field op value values) c
unfolding compile_expression validate_expression
operator-Compiles x field op_regex value values c v h = regex-Compiles x field value values c v h
operator-Compiles x field op_equals value values c v h = plain-Compiles x _ c (rw v refl) tt h
operator-Compiles x field op_not_equals value values c v h = plain-Compiles x _ c (rw v refl) tt h
operator-Compiles x field op_in value values c v h = plain-Compiles x _ c (rw v refl) tt h
operator-Compiles x field op_not_in value values c v h = plain-Compiles x _ c (rw v refl) tt h
operator-Compiles x field op_contains value values c v h = plain-Compiles x _ c (rw v refl) tt h
operator-Compiles x field op_starts_with value values c v h = plain-Compiles x _ c (rw v refl) tt h
operator-Compiles x field op_ends_with value values c v h = plain-Compiles x _ c (rw v refl) tt h
operator-Compiles x field op_exists value values c v h = plain-Compiles x _ c (rw v refl) tt h
operator-Compiles x field op_not_exists value values c v h = plain-Compiles x _ c (rw v refl) tt h
operator-Compiles x field (op_unknown name) value values c v h =
    plain-Compiles x _ c (rw v refl) tt h

validate-operator :
    (field : Text) (op : ExpressionOperator) (value : Option Text) (values : List Text)
    → validate_expression (expression field op value values) ≡ none
    → validate_operator (expression field op value values) ≡ none
unfolding validate_expression
validate-operator [] op value values h = cc
validate-operator (t ∷ field) op value values h = h

compile-valid :
    (x : Externals) (e : Expression) (c : CompiledExpression)
    → compile_expression x e ≡ inr c
    → validate_expression e ≡ none
unfolding compile_expression
compile-valid x e c h = elim (Option-cases (validate_expression e)) [
  | inl valid ↦ valid
  | inr (error, bad) ↦
      let made : compile_expression x e ≡ inl error = rw (bad, compile_expression) refl in cc
]

-- A compiled expression evaluates, to what it says of its field.
compiled-Tells :
    (x : Externals) (e : Expression) (c : CompiledExpression) (resource : Value)
    → compile_expression x e ≡ inr c
    → Tells
        (Holds x resource e)
        (evaluate_expression x c.original (get_field_value x resource c.original.field) c.regex)
compiled-Tells x e c resource h =
    let valid = compile-valid x e c h in
    let (same, fits) = operator-Compiles x e.field e.operator e.value e.values c valid h in
    let told =
      operator-Tells x e.field e.operator e.value e.values (get_field_value x resource e.field)
        c.regex (validate-operator e.field e.operator e.value e.values valid) fits in
    subst
      (λ (o : Expression).
        Tells (Holds x resource e)
          (evaluate_expression x o (get_field_value x resource o.field) c.regex))
      (sym same) told

-- The evaluation returns a match for each expression, and says if all of them hold.
abbrev pub Decided :
    Externals → Value → List Expression → Option (Bool × List ExpressionMatch) → Type 0
Decided x resource es none = ⊥
Decided x resource es (some (b, details)) =
    (length details ≡ length es) × ((b ≡ true) ↔ All (Holds x resource) es)

Decided-cons :
    (x : Externals) (resource : Value) (e : Expression) (es : List Expression)
    (c : CompiledExpression) (cs : List CompiledExpression)
    → Tells
        (Holds x resource e)
        (evaluate_expression x c.original (get_field_value x resource c.original.field) c.regex)
    → Decided x resource es (evaluate_expressions x resource cs)
    → Decided x resource (e ∷ es) (evaluate_expressions x resource (c ∷ cs))
unfolding evaluate_expressions
Decided-cons x resource e es c cs (b, q, t) d =
    elim (Option-cases (evaluate_expressions x resource cs)) [
      | inl stuck ↦ absurd (rw stuck at d)
      | inr ((all, details), done) ↦
          let (len, rest) = (subst (Decided x resource es) done d) in
          rw (q, evaluate_expressions)
            (rw (done, evaluate_expressions) (ap suc len, and_iff b all t rest))
    ]

Sum-cases : {A B : Type 0} (o : A ⊎ B) → ((a : A) × (o ≡ inl a)) ⊎ ((b : B) × (o ≡ inr b))
Sum-cases (inl a) = inl (a, refl)
Sum-cases (inr b) = inr (b, refl)

-- If `compileExpressions` accepts expressions, `evaluateExpressions` never panics with what it compiled,
-- whatever the resource: it returns a match for each expression, and true exactly if every expression
-- holds of its field, as its operator says of the text that is printed for it.
pub evaluate_expressions-Decided :
    (x : Externals) (es : List Expression) (cs : List CompiledExpression) (resource : Value)
    → compile_expressions x es ≡ inr cs
    → Decided x resource es (evaluate_expressions x resource cs)
unfolding compile_expressions
evaluate_expressions-Decided x [] [] resource h =
    unfold evaluate_expressions in (refl, (λ _. tt, λ _. refl))
evaluate_expressions-Decided x [] (c ∷ cs) resource h = cc
evaluate_expressions-Decided x (e ∷ es) cs resource h = elim (Sum-cases (compile_expression x e)) [
  | inl (error, bad) ↦
      let made : compile_expressions x (e ∷ es) ≡ inl error = rw (bad, compile_expressions) refl in
      cc
  | inr (c, good) ↦ elim (Sum-cases (compile_expressions x es)) [
    | inl (error, bad) ↦
        let made : compile_expressions x (e ∷ es) ≡ inl error =
          rw (good, compile_expressions) (rw (bad, compile_expressions) refl) in
        cc
    | inr (rest, fine) ↦
        let made : compile_expressions x (e ∷ es) ≡ inr (c ∷ rest) =
          rw (good, compile_expressions) (rw (fine, compile_expressions) refl) in
        let same : c ∷ rest ≡ cs = cc in
        subst (λ l. Decided x resource (e ∷ es) (evaluate_expressions x resource l)) same
          (Decided-cons x resource e es c rest (compiled-Tells x e c resource good)
            (evaluate_expressions-Decided x es rest resource fine))
  ]
]
