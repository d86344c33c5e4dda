-- ===== src/Base/Texts.antt =====
-- The characters of a Go string, where they are read: prefixes, suffixes and equality.
use Prim.Native.Nat.{ℕ}
use Prim.Native.Char.{code}
use Prim.Native.String.{String}
use mathlib.Core.Path.{◌≡◌, refl, ap}
use mathlib.Core.Logic.{◌↔◌, ◌⊎◌, inl, inr}
use mathlib.Core.Bool.{Bool, true, false, ◌&&◌, ◌||◌}
use mathlib.Core.List.{List, [], ◌∷◌, ◌++◌}
use native.Mathlib.Omega.{arith}
use function_kubecore_schema.Base.Tests.{Eq, nat_beq, nat_beq_iff, if◌then◌else◌, Bool-cases}
use function_kubecore_schema.Base.Lists.{length, length-append}

-- Bytes, or the characters of a text without invalid UTF-8.
abbrev pub Text : Type 0
Text = List ℕ

unfoldable pub runes : String → Text
runes String.[] = []
runes (String.◌∷◌ c s) = code c ∷ runes s

unfoldable pub text_beq : Text → Text → Bool
text_beq [] [] = true
text_beq [] (b ∷ ys) = false
text_beq (a ∷ xs) [] = false
text_beq (a ∷ xs) (b ∷ ys) = nat_beq a b && text_beq xs ys

pub text_beq_iff : (s t : Text) → (text_beq s t ≡ true) ↔ (s ≡ t)
unfolding text_beq
text_beq_iff [] [] = (λ _. refl, λ _. refl)
text_beq_iff [] (b ∷ ys) = (λ h. cc, λ h. cc)
text_beq_iff (a ∷ xs) [] = (λ h. cc, λ h. cc)
text_beq_iff (a ∷ xs) (b ∷ ys) =
    let head = nat_beq_iff a b in
    let tail = text_beq_iff xs ys in (λ h. ground arith, λ h. ground arith)

instance abbrev pub text_eq : Eq Text
text_eq = record { eqb = text_beq; eqb_iff = text_beq_iff }

-- strings.HasPrefix(s, prefix)
unfoldable pub has_prefix : Text → Text → Bool
has_prefix s [] = true
has_prefix [] (p ∷ ps) = false
has_prefix (c ∷ s) (p ∷ ps) = nat_beq c p && has_prefix s ps

-- strings.HasSuffix(s, suffix)
unfoldable pub has_suffix : Text → Text → Bool
has_suffix [] suffix = text_beq [] suffix
has_suffix (c ∷ s) suffix = text_beq (c ∷ s) suffix || has_suffix s suffix

-- strings.TrimPrefix(s, prefix)
unfoldable pub trim_prefix : Text → Text → Text
trim_prefix s [] = s
trim_prefix [] (p ∷ ps) = []
trim_prefix (c ∷ s) (p ∷ ps) = if has_prefix (c ∷ s) (p ∷ ps) then trim_prefix s ps else c ∷ s

-- strings.TrimSuffix(s, suffix)
unfoldable pub trim_suffix : Text → Text → Text
trim_suffix [] suffix = []
trim_suffix (c ∷ s) suffix = if text_beq (c ∷ s) suffix then [] else c ∷ trim_suffix s suffix

pub has_prefix_iff : (s p : Text) → (has_prefix s p ≡ true) ↔ ((rest : Text) × (s ≡ p ++ rest))
unfolding has_prefix
has_prefix_iff s [] = (λ _. (s, refl), λ _. refl)
has_prefix_iff [] (p ∷ ps) = (λ h. cc, λ (rest, q). cc)
has_prefix_iff (c ∷ s) (p ∷ ps) =
    let head = nat_beq_iff c p in
    let tail = has_prefix_iff s ps in
    (
      λ h. let (rest, q) = tail.0 (ground arith) in (rest, ground arith),
      λ (rest, q). let again = tail.1 (rest, cc) in ground arith,
    )

end-nil : (front p : Text) → [] ≡ front ++ p → [] ≡ p
end-nil [] p h = h
end-nil (c ∷ front) p h = cc

end-cons :
    (c : ℕ) (s front p : Text)
    → c ∷ s ≡ front ++ p
    → (c ∷ s ≡ p) ⊎ ((rest : Text) × (s ≡ rest ++ p))
end-cons c s [] p h = inl h
end-cons c s (d ∷ front) p h = inr (front, cc)

pub has_suffix_iff : (s p : Text) → (has_suffix s p ≡ true) ↔ ((front : Text) × (s ≡ front ++ p))
unfolding has_suffix
has_suffix_iff [] p =
    (λ h. ([], (text_beq_iff [] p).0 h), λ (front, q). (text_beq_iff [] p).1 (end-nil front p q))
has_suffix_iff (c ∷ s) p = (
  λ h. elim (Bool-cases (text_beq (c ∷ s) p)) [
    | inl same ↦ ([], (text_beq_iff (c ∷ s) p).0 same)
    | inr other ↦
        let (front, q) = (has_suffix_iff s p).0 (rw other at h) in (c ∷ front, ap (λ t. c ∷ t) q)
  ],
  λ (front, q). elim (end-cons c s front p q) [
    | inl same ↦ rw ((text_beq_iff (c ∷ s) p).1 same) refl
    | inr (rest, r) ↦ let again = (has_suffix_iff s p).1 (rest, r) in ground arith
  ],
)

-- No text is a proper end of itself.
longer : (c : ℕ) (front p : Text) → text_beq (c ∷ front ++ p) p ≡ false
longer c front p = elim (Bool-cases (text_beq (c ∷ front ++ p) p)) [
  | inl same ↦
      let q = ap length ((text_beq_iff (c ∷ front ++ p) p).0 same) in
      absurd (omega (arith, q, length-append front p))
  | inr other ↦ other
]

trim-all : (p : Text) → trim_suffix p p ≡ []
unfolding trim_suffix
trim-all [] = refl
trim-all (c ∷ p) = rw ((text_beq_iff (c ∷ p) (c ∷ p)).1 refl) refl

pub trim_suffix-append : (front p : Text) → trim_suffix (front ++ p) p ≡ front
unfolding trim_suffix
trim_suffix-append [] p = trim-all p
trim_suffix-append (c ∷ front) p =
    rw (longer c front p) (ap (λ t. c ∷ t) (trim_suffix-append front p))

pub trim_prefix-append : (p rest : Text) → trim_prefix (p ++ rest) p ≡ rest
unfolding trim_prefix
trim_prefix-append [] rest = refl
trim_prefix-append (c ∷ p) rest =
    rw ((has_prefix_iff (c ∷ p ++ rest) (c ∷ p)).1 (rest, refl)) (trim_prefix-append p rest)
