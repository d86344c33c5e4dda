-- ===== src/Traversal/Filter/Patterns.antt =====
-- What the patterns of API groups match, and the loops of scope_filter.go that look for one.
use function_kubecore_schema.Base.{
  ◌≡◌, refl, sym, ap, ◌∙◌, subst, ◌↔◌, ◌⊎◌, inl, inr, String, Bool, true, false, List, [], ◌∷◌,
  ◌++◌, arith, string_eq, ◌==◌, Bool-cases, Member, Text, text_eq, has_prefix, has_suffix,
  trim_prefix, trim_suffix, has_prefix_iff, has_suffix_iff, trim_prefix-append, trim_suffix-append,
  ==_iff,
}
use function_kubecore_schema.Traversal.Filter.Platform.{matches_some}
use function_kubecore_schema.Traversal.Filter.Platform.{matches_pattern as platform_matches}
use function_kubecore_schema.Traversal.Filter.Scope.{
  matches_pattern, matches_api_group_patterns, string_in_slice,
}

abbrev pub star : Text
star = b'*' ∷ []

abbrev pub star_dot : Text
star_dot = b'*' ∷ b'.' ∷ []

-- "*." and an end of the value, a start of the value and "*", or the value.
abbrev pub Matches : Text → Text → Type 0
Matches value pattern =
    ((end : Text) × (pattern ≡ star_dot ++ end) × ((front : Text) × (value ≡ front ++ end)))
    ⊎ (((start : Text) × (pattern ≡ start ++ star)
          × (has_prefix pattern star_dot ≡ false)
          × ((rest : Text) × (value ≡ start ++ rest)))
        ⊎ (value ≡ pattern))

dotted :
    (value pattern : Text)
    → has_prefix pattern star_dot ≡ true
    → (has_suffix value (trim_prefix pattern star_dot) ≡ true) ↔ Matches value pattern
dotted value pattern h =
    let (end, q) = (has_prefix_iff pattern star_dot).0 h in
    let trimmed : trim_prefix pattern star_dot ≡ end =
      ap (λ p. trim_prefix p star_dot) q ∙ trim_prefix-append star_dot end in
    rw trimmed (
      λ t. inl (end, q, (has_suffix_iff value end).0 t),
      λ m. elim m [
        | inl (end', q', (front, e)) ↦
            let same : end' ≡ end = cc in
            (has_suffix_iff value end).1 (front, e ∙ ap (λ t. front ++ t) same)
        | inr (inl (start, q', clear, starts)) ↦ cc
        | inr (inr same) ↦ (has_suffix_iff value end).1 (star_dot, same ∙ q)
      ],
    )

open_ended :
    (value pattern : Text)
    → has_prefix pattern star_dot ≡ false
    → has_suffix pattern star ≡ true
    → (has_prefix value (trim_suffix pattern star) ≡ true) ↔ Matches value pattern
open_ended value pattern h q =
    let (start, e) = (has_suffix_iff pattern star).0 q in
    let trimmed : trim_suffix pattern star ≡ start =
      ap (λ p. trim_suffix p star) e ∙ trim_suffix-append start star in
    rw trimmed (
      λ t. inr (inl (start, e, h, (has_prefix_iff value start).0 t)),
      λ m. elim m [
        | inl (end, q', ends) ↦ let again = (has_prefix_iff pattern star_dot).1 (end, q') in cc
        | inr (inl (start', e', clear, (rest, r))) ↦
            let same : start' ≡ start =
              sym (ap (λ p. trim_suffix p star) e' ∙ trim_suffix-append start' star) ∙ trimmed in
            (has_prefix_iff value start).1 (rest, r ∙ ap (λ t. t ++ rest) same)
        | inr (inr same) ↦ (has_prefix_iff value start).1 (star, same ∙ e)
      ],
    )

exact :
    (value pattern : Text)
    → has_prefix pattern star_dot ≡ false
    → has_suffix pattern star ≡ false
    → ((value == pattern) ≡ true) ↔ Matches value pattern
exact value pattern h q = (
  λ same. inr (inr ((==_iff value pattern).0 same)),
  λ m. elim m [
    | inl (end, q', ends) ↦ let again = (has_prefix_iff pattern star_dot).1 (end, q') in cc
    | inr (inl (start, e, clear, starts)) ↦
        let again = (has_suffix_iff pattern star).1 (start, e) in cc
    | inr (inr same) ↦ (==_iff value pattern).1 same
  ],
)

star-no_dot : has_prefix star star_dot ≡ false
unfolding has_prefix
star-no_dot = refl

-- `matchesPattern` finds that a value matches a pattern exactly if the pattern is "*." and an end of
-- the value, no dot being wanted before that end, or does not begin with "*." and is a start of the
-- value and "*", or is the value.
pub matches_pattern-Matches :
    (value pattern : Text) → (matches_pattern value pattern ≡ true) ↔ Matches value pattern
unfolding matches_pattern
matches_pattern-Matches value pattern =
    let decides : (b : Bool)
        → matches_pattern value pattern ≡ b
        → (b ≡ true) ↔ Matches value pattern
        → (matches_pattern value pattern ≡ true) ↔ Matches value pattern =
      λ b step d. subst (λ c. (c ≡ true) ↔ Matches value pattern) (sym step) d in
    elim (Bool-cases (pattern == star)) [
      | inl all ↦
          let q = (==_iff pattern star).0 all in
          let no_dot = ap (λ p. has_prefix p star_dot) q ∙ star-no_dot in
          decides true (rw all refl) (λ _. inr (inl ([], q, no_dot, (value, refl))), λ _. refl)
      | inr not_all ↦ elim (Bool-cases (has_prefix pattern star_dot)) [
        | inl dot ↦ decides _ (rw (not_all, dot) refl) (dotted value pattern dot)
        | inr no_dot ↦ elim (Bool-cases (has_suffix pattern star)) [
          | inl ends ↦
              decides _ (rw (not_all, no_dot, ends) refl) (open_ended value pattern no_dot ends)
          | inr closed ↦
              decides _ (rw (not_all, no_dot, closed) refl) (exact value pattern no_dot closed)
        ]
      ]
    ]

-- The two types of scope_filter.go match in the same way.
platform_matches-same :
    (value pattern : Text) → platform_matches value pattern ≡ matches_pattern value pattern
unfolding matches_pattern platform_matches
platform_matches-same value pattern = refl

abbrev pub Matching : Text → List Text → Type 0
Matching value patterns = (pattern : Text) × Member pattern patterns × Matches value pattern

pub matches_api_group_patterns-Matching :
    (value : Text) (patterns : List Text)
    → (matches_api_group_patterns value patterns ≡ true) ↔ Matching value patterns
unfolding matches_api_group_patterns
matches_api_group_patterns-Matching value [] = (λ h. cc, λ (pattern, h, m). absurd h)
matches_api_group_patterns-Matching value (p ∷ ps) =
    let ih = matches_api_group_patterns-Matching value ps in
    let first = matches_pattern-Matches value p in
    elim (Bool-cases (matches_pattern value p)) [
      | inl hit ↦ rw hit (λ _. (p, inl refl, first.0 hit), λ _. refl)
      | inr miss ↦ rw miss (
        λ h. let (pattern, h', m) = ih.0 h in (pattern, inr h', m),
        λ (pattern, h, m). elim h [
          | inl same ↦ let hit = first.1 (subst (λ q. Matches value q) same m) in cc
          | inr later ↦ ih.1 (pattern, later, m)
        ],
      )
    ]

pub matches_some-Matching :
    (value : Text) (patterns : List Text)
    → matches_some value patterns ≡ matches_api_group_patterns value patterns
unfolding matches_some matches_api_group_patterns
matches_some-Matching value [] = refl
matches_some-Matching value (p ∷ ps) =
    rw (platform_matches-same value p, matches_some-Matching value ps) refl

pub string_in_slice-Member :
    (s : String) (ss : List String) → (string_in_slice s ss ≡ true) ↔ Member s ss
unfolding string_in_slice
string_in_slice-Member s [] = (λ h. cc, λ h. absurd h)
string_in_slice-Member s (t ∷ ts) =
    let ih = string_in_slice-Member s ts in
    let head = ==_iff t s in (λ h. ground arith, λ h. ground arith)
