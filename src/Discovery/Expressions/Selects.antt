-- ===== src/Discovery/Expressions/Selects.antt =====
-- What the expressions of expression.go select.
use function_kubecore_schema.Base.{
  ◌≡◌, ◌≢◌, refl, sym, ap, ◌↔◌, ◌⊎◌, inl, inr, subst, Bool, true, false, ◌&&◌, ◌||◌, not, Option,
  none, some, List, [], ◌∷◌, ◌++◌, ◌==◌, ==_iff, Bool-cases, arith, Member, Text, text_eq,
  has_prefix, has_prefix_iff, has_suffix_iff,
}
use function_kubecore_schema.Discovery.Expressions.{
  Value, null_value, atom, array, object, ExpressionOperator, op_equals, op_not_equals, op_in,
  op_not_in, op_contains, op_starts_with, op_ends_with, op_regex, op_exists, op_not_exists,
  op_unknown, Expression, Externals, require_value, validate_operator, has_infix, is_among, deref,
  is_nil_value, get_field_value, evaluate_expression,
}

-- The expression has a value, for which `P` holds.
abbrev pub With : Option Text → (Text → Type 0) → Type 0
With value P = (v : Text) × (value ≡ some v) × P v

-- What an expression says of a value and of its text.
abbrev pub Says : Externals → Expression → ExpressionOperator → Value → Type 0
Says x e op_equals actual = With e.value (λ v. x.print actual ≡ v)
Says x e op_not_equals actual = With e.value (λ v. x.print actual ≢ v)
Says x e op_in actual = Member (x.print actual) e.values
Says x e op_not_in actual = ¬ (Member (x.print actual) e.values)
Says x e op_contains actual =
    With e.value (λ v. (front : Text) × ((rest : Text) × (x.print actual ≡ front ++ (v ++ rest))))
Says x e op_starts_with actual = With e.value (λ v. (rest : Text) × (x.print actual ≡ v ++ rest))
Says x e op_ends_with actual = With e.value (λ v. (front : Text) × (x.print actual ≡ front ++ v))
Says x e op_regex actual = With e.value (λ v.
    (matches : Text → Bool) × (x.compile v ≡ some matches) × (matches (x.print actual) ≡ true))
Says x e op_exists actual = (actual ≢ null_value) × (x.print actual ≢ [])
Says x e op_not_exists actual = (actual ≡ null_value) ⊎ (x.print actual ≡ [])
Says x e (op_unknown name) actual = ⊥

abbrev pub Holds : Externals → Value → Expression → Type 0
Holds x resource e = Says x e e.operator (get_field_value x resource e.field)

-- The computation returns a Boolean that says if `P` holds.
abbrev pub Tells : Type 0 → Option Bool → Type 0
Tells P o = (b : Bool) × (o ≡ some b) × ((b ≡ true) ↔ P)

end-infix :
    (s t : Text)
    → has_infix s t ≡ true
    → (front : Text) × ((rest : Text) × (s ≡ front ++ (t ++ rest)))
unfolding has_infix
end-infix [] t h = let (rest, q) = (has_prefix_iff [] t).0 h in ([], (rest, q))
end-infix (c ∷ s) t h = elim (Bool-cases (has_prefix (c ∷ s) t)) [
  | inl here ↦ let (rest, q) = (has_prefix_iff (c ∷ s) t).0 here in ([], (rest, q))
  | inr later ↦
      let (front, (rest, q)) = end-infix s t (rw later at h) in
      (c ∷ front, (rest, ap (λ u. c ∷ u) q))
]

prefix-infix : (s t : Text) → has_prefix s t ≡ true → has_infix s t ≡ true
unfolding has_infix
prefix-infix [] t h = h
prefix-infix (c ∷ s) t h = rw h refl

infix-at : (front t rest : Text) → has_infix (front ++ (t ++ rest)) t ≡ true
unfolding has_infix
infix-at [] t rest = prefix-infix (t ++ rest) t ((has_prefix_iff (t ++ rest) t).1 (rest, refl))
infix-at (c ∷ front) t rest = ground (arith, infix-at front t rest)

is_among-Member : (s : Text) (vs : List Text) → (is_among s vs ≡ true) ↔ Member s vs
unfolding is_among
is_among-Member s [] = (λ h. cc, λ h. absurd h)
is_among-Member s (v ∷ vs) =
    let ih = is_among-Member s vs in let head = ==_iff s v in (λ h. ground arith, λ h. ground arith)

not_iff : {P : Type 0} (b : Bool) → (b ≡ true) ↔ P → (not b ≡ true) ↔ (¬ P)
not_iff true h = (λ e. cc, λ n. absurd (n (h.0 refl)))
not_iff false h = (λ _ p. let e = h.1 p in cc, λ _. refl)

deref-Tells :
    (value : Option Text) (f : Text → Bool) (P : Text → Type 0)
    → require_value value ≡ none
    → ((v : Text) → (f v ≡ true) ↔ P v)
    → Tells (With value P) (deref value f)
unfolding require_value
deref-Tells none f P h k = cc
deref-Tells (some v) f P h k = (
  f v,
  refl,
  (λ t. (v, refl, (k v).0 t), λ (w, same, p). let back : w ≡ v = cc in (k v).1 (subst P back p)),
)

flag-Tells : {P : Type 0} (b : Bool) → (b ≡ true) ↔ P → Tells P (some b)
flag-Tells b h = (b, refl, h)

abbrev pub expression : Text → ExpressionOperator → Option Text → List Text → Expression
expression field operator value values = record {
  field = field;
  operator = operator;
  value = value;
  values = values;
}

-- The regular expression that goes with an operator.
abbrev pub Fits : Externals → ExpressionOperator → Option Text → Option (Text → Bool) → Type 0
Fits x op_regex value regex =
    With value
      (λ v. (matches : Text → Bool) × (x.compile v ≡ some matches) × (regex ≡ some matches))
Fits x _ value regex = Unit

nil_iff : (v : Value) → (is_nil_value v ≡ true) ↔ (v ≡ null_value)
nil_iff null_value = (λ _. refl, λ _. refl)
nil_iff (atom t) = (λ h. cc, λ h. cc)
nil_iff (array vs) = (λ h. cc, λ h. cc)
nil_iff (object fs) = (λ h. cc, λ h. cc)

pub and_iff :
    {P Q : Type 0} (a b : Bool) → (a ≡ true) ↔ P → (b ≡ true) ↔ Q → ((a && b) ≡ true) ↔ (P × Q)
and_iff true b p q = (λ h. (p.0 refl, q.0 h), λ (_, h). q.1 h)
and_iff false b p q = (λ h. cc, λ (h, _). let e = p.1 h in cc)

or_iff : {P Q : Type 0} (a b : Bool) → (a ≡ true) ↔ P → (b ≡ true) ↔ Q → ((a || b) ≡ true) ↔ (P ⊎ Q)
or_iff true b p q = (λ _. inl (p.0 refl), λ _. refl)
or_iff false b p q = (λ h. inr (q.0 h), λ m. elim m [ inl h ↦ let e = p.1 h in cc | inr h ↦ q.1 h ])

exists_test :
    (actual : Value) (t : Text)
    → ((not (is_nil_value actual) && not (t == [])) ≡ true) ↔ ((actual ≢ null_value) × (t ≢ []))
exists_test actual t =
    and_iff _ _ (not_iff (is_nil_value actual) (nil_iff actual)) (not_iff (t == []) (==_iff t []))

not_exists_test :
    (actual : Value) (t : Text)
    → ((is_nil_value actual || t == []) ≡ true) ↔ ((actual ≡ null_value) ⊎ (t ≡ []))
not_exists_test actual t = or_iff _ _ (nil_iff actual) (==_iff t [])

pub operator-Tells :
    (x : Externals) (field : Text) (op : ExpressionOperator) (value : Option Text)
    (values : List Text) (actual : Value) (regex : Option (Text → Bool))
    → validate_operator (expression field op value values) ≡ none
    → Fits x op value regex
    → Tells
        (Says x (expression field op value values) op actual)
        (evaluate_expression x (expression field op value values) actual regex)
unfolding validate_operator evaluate_expression
operator-Tells x field op_equals value values actual regex h f =
    deref-Tells value _ (λ v. x.print actual ≡ v) h (λ v. ==_iff (x.print actual) v)
operator-Tells x field op_not_equals value values actual regex h f =
    deref-Tells value _ (λ v. x.print actual ≢ v) h
      (λ v. not_iff (x.print actual == v) (==_iff (x.print actual) v))
operator-Tells x field op_in value values actual regex h f =
    flag-Tells (is_among (x.print actual) values) (is_among-Member (x.print actual) values)
operator-Tells x field op_not_in value values actual regex h f =
    flag-Tells (not (is_among (x.print actual) values))
      (not_iff (is_among (x.print actual) values) (is_among-Member (x.print actual) values))
operator-Tells x field op_contains value values actual regex h f = deref-Tells value _ _ h (λ v. (
  end-infix (x.print actual) v,
  λ (front, (rest, q)). subst (λ t. has_infix t v ≡ true) (sym q) (infix-at front v rest),
))
operator-Tells x field op_starts_with value values actual regex h f =
    deref-Tells value _ _ h (λ v. has_prefix_iff (x.print actual) v)
operator-Tells x field op_ends_with value values actual regex h f =
    deref-Tells value _ _ h (λ v. has_suffix_iff (x.print actual) v)
operator-Tells x field op_regex value values actual regex h (v, same, (matches, c, r)) = (
  matches (x.print actual),
  rw (r, deref) refl,
  (
    λ t. (v, same, (matches, c, t)),
    λ (w, same', (other, c', t)).
        let back : other ≡ matches = cc in
        subst (λ (m : Text → Bool). m (x.print actual) ≡ true) back t,
  ),
)
operator-Tells x field op_exists value values actual regex h f =
    flag-Tells (not (is_nil_value actual) && not (x.print actual == []))
      (exists_test actual (x.print actual))
operator-Tells x field op_not_exists value values actual regex h f =
    flag-Tells (is_nil_value actual || x.print actual == [])
      (not_exists_test actual (x.print actual))
operator-Tells x field (op_unknown name) value values actual regex h f = cc
