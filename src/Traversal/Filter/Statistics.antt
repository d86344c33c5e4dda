-- ===== src/Traversal/Filter/Statistics.antt =====
-- The statistics of the scope filter through calls of its methods.
use function_kubecore_schema.Base.{
  ℕ, subst, if◌then◌else◌, suc, ◌+◌, ◌≡◌, refl, ◌⊎◌, inl, inr, String, Bool, true, false, List, [],
  ◌∷◌, arith, string_eq, sum_values, sum-count_up,
}
use function_kubecore_schema.Graph.Types.{Resource}
use function_kubecore_schema.Graph.Builder.Defs.{ReferenceField}
use function_kubecore_schema.Traversal.Filter.Scope.{
  PlatformChecker, ScopeFilterConfig, FilterStatistics, new_statistics, exclude, guards,
  resource_guards, reference_guards, should_include_resource, should_follow_reference,
  count_resource, count_reference, filter_resources, filter_references, reset_statistics,
}

-- Whatever was evaluated was included or excluded, and what was excluded has a reason, as have `direct`
-- more refusals.
abbrev pub Balanced : ℕ → FilterStatistics → Type 0
Balanced direct sf =
    (sf.resources_evaluated ≡ sf.resources_included + sf.resources_excluded)
    × ((sf.references_evaluated ≡ sf.references_included + sf.references_excluded)
        × (sum_values sf.filter_reasons
            ≡ (sf.resources_excluded + sf.references_excluded) + direct))

-- The guards answer true and leave the statistics, or answer false and count a reason.
Verdict : FilterStatistics → Bool × FilterStatistics → Type 0
Verdict sf answer = (answer ≡ (true, sf)) ⊎ ((reason : String) × (answer ≡ exclude reason sf))

guards-Verdict : (gs : List (Bool × String)) (sf : FilterStatistics) → Verdict sf (guards gs sf)
unfolding guards Verdict
guards-Verdict [] sf = inl refl
guards-Verdict ((true, reason) ∷ rest) sf = inr (reason, refl)
guards-Verdict ((false, reason) ∷ rest) sf = guards-Verdict rest sf

resource-step :
    (direct : ℕ) (sf : FilterStatistics) (answer : Bool × FilterStatistics)
    → Balanced direct sf
    → Verdict (record sf { resources_evaluated = suc sf.resources_evaluated }) answer
    → Balanced direct (count_resource answer.0 answer.1)
unfolding Verdict
resource-step direct sf answer (b, (c, d)) (inl same) = rw same (omega arith, (c, d))
resource-step direct sf answer (b, (c, d)) (inr (reason, same)) =
    rw same (omega arith, (c, omega (arith, sum-count_up reason sf.filter_reasons)))

reference-step :
    (direct : ℕ) (sf : FilterStatistics) (answer : Bool × FilterStatistics)
    → Balanced direct sf
    → Verdict (record sf { references_evaluated = suc sf.references_evaluated }) answer
    → Balanced direct (count_reference answer.0 answer.1)
unfolding Verdict
reference-step direct sf answer (b, (c, d)) (inl same) = rw same (b, (omega arith, d))
reference-step direct sf answer (b, (c, d)) (inr (reason, same)) =
    rw same (b, (omega arith, omega (arith, sum-count_up reason sf.filter_reasons)))

filter_resources-Balanced :
    (direct : ℕ) (pc : PlatformChecker) (config : ScopeFilterConfig) (rs : List Resource)
    (sf : FilterStatistics)
    → Balanced direct sf
    → Balanced direct (filter_resources pc config rs sf).1
unfolding filter_resources should_include_resource
filter_resources-Balanced direct pc config [] sf b = b
filter_resources-Balanced direct pc config (r ∷ rs) sf b =
    filter_resources-Balanced direct pc config rs _
      (resource-step direct sf _ b (guards-Verdict (resource_guards pc config r) _))

filter_references-Balanced :
    (direct : ℕ) (pc : PlatformChecker) (config : ScopeFilterConfig) (refs : List ReferenceField)
    (sf : FilterStatistics)
    → Balanced direct sf
    → Balanced direct (filter_references pc config refs sf).1
unfolding filter_references should_follow_reference
filter_references-Balanced direct pc config [] sf b = b
filter_references-Balanced direct pc config (ref ∷ refs) sf b =
    filter_references-Balanced direct pc config refs _
      (reference-step direct sf _ b (guards-Verdict (reference_guards pc config ref) _))

-- A call of `ShouldIncludeResource` or `ShouldFollowReference` that is not one of the filter's own.
direct-step :
    (direct : ℕ) (sf : FilterStatistics) (answer : Bool × FilterStatistics)
    → Balanced direct sf
    → Verdict sf answer
    → Balanced (if answer.0 then direct else suc direct) answer.1
unfolding Verdict
direct-step direct sf answer b (inl same) = rw same b
direct-step direct sf answer (b, (c, d)) (inr (reason, same)) =
    rw same (b, (c, omega (arith, d, sum-count_up reason sf.filter_reasons)))

-- The answer does not depend on the statistics.
guards-answer :
    (gs : List (Bool × String)) (sf sf' : FilterStatistics) → (guards gs sf).0 ≡ (guards gs sf').0
unfolding guards
guards-answer [] sf sf' = refl
guards-answer ((true, reason) ∷ rest) sf sf' = refl
guards-answer ((false, reason) ∷ rest) sf sf' = guards-answer rest sf sf'

-- The calls of a filter.
pub data Call : Type 0 where
  resources_call : ScopeFilterConfig → List Resource → Call
  references_call : ScopeFilterConfig → List ReferenceField → Call
  include_call : ScopeFilterConfig → Resource → Call
  follow_call : ScopeFilterConfig → ReferenceField → Call
  reset_call : Call

unfoldable pub perform : PlatformChecker → Call → FilterStatistics → FilterStatistics
perform pc (resources_call config rs) sf = (filter_resources pc config rs sf).1
perform pc (references_call config refs) sf = (filter_references pc config refs sf).1
perform pc (include_call config r) sf = (should_include_resource pc config r sf).1
perform pc (follow_call config ref) sf = (should_follow_reference pc config ref sf).1
perform pc reset_call sf = reset_statistics sf

unfoldable pub perform_all : PlatformChecker → List Call → FilterStatistics → FilterStatistics
perform_all pc [] sf = sf
perform_all pc (call ∷ calls) sf = perform_all pc calls (perform pc call sf)

-- The calls of `ShouldIncludeResource` and `ShouldFollowReference` since the last reset that answer
-- false, after `n` of them. The answer is that of a new filter.
unfoldable pub count_refusal : PlatformChecker → Call → ℕ → ℕ
count_refusal pc (resources_call config rs) n = n
count_refusal pc (references_call config refs) n = n
count_refusal pc (include_call config r) n =
    if (should_include_resource pc config r new_statistics).0 then n else suc n
count_refusal pc (follow_call config ref) n =
    if (should_follow_reference pc config ref new_statistics).0 then n else suc n
count_refusal pc reset_call n = 0

unfoldable pub refusals : PlatformChecker → List Call → ℕ → ℕ
refusals pc [] n = n
refusals pc (call ∷ calls) n = refusals pc calls (count_refusal pc call n)

Balanced-new : Balanced 0 new_statistics
unfolding new_statistics
Balanced-new = (refl, (refl, omega arith))

perform-Balanced :
    (pc : PlatformChecker) (call : Call) (n : ℕ) (sf : FilterStatistics)
    → Balanced n sf
    → Balanced (count_refusal pc call n) (perform pc call sf)
unfolding perform reset_statistics count_refusal should_include_resource should_follow_reference
perform-Balanced pc (resources_call config rs) n sf b =
    filter_resources-Balanced n pc config rs sf b
perform-Balanced pc (references_call config refs) n sf b =
    filter_references-Balanced n pc config refs sf b
perform-Balanced pc (include_call config r) n sf b =
    let gs = resource_guards pc config r in
    subst (λ a. Balanced (if a then n else suc n) (guards gs sf).1)
      (guards-answer gs sf new_statistics)
      (direct-step n sf (guards gs sf) b (guards-Verdict gs sf))
perform-Balanced pc (follow_call config ref) n sf b =
    let gs = reference_guards pc config ref in
    subst (λ a. Balanced (if a then n else suc n) (guards gs sf).1)
      (guards-answer gs sf new_statistics)
      (direct-step n sf (guards gs sf) b (guards-Verdict gs sf))
perform-Balanced pc reset_call n sf b = Balanced-new

perform_all-from :
    (pc : PlatformChecker) (calls : List Call) (n : ℕ) (sf : FilterStatistics)
    → Balanced n sf
    → Balanced (refusals pc calls n) (perform_all pc calls sf)
unfolding perform_all refusals
perform_all-from pc [] n sf b = b
perform_all-from pc (call ∷ calls) n sf b =
    perform_all-from pc calls (count_refusal pc call n) (perform pc call sf)
      (perform-Balanced pc call n sf b)

-- Through any calls of `FilterResources`, `FilterReferences`, `ShouldIncludeResource`,
-- `ShouldFollowReference` and `ResetStatistics` on a new filter, one after the other, the resources and
-- the references evaluated are those included and those excluded, and the counts of the reasons add up to
-- what was excluded and the answers false of `ShouldIncludeResource` and `ShouldFollowReference` to calls
-- of their own since the last reset.
pub perform_all-Balanced :
    (pc : PlatformChecker) (calls : List Call)
    → Balanced (refusals pc calls 0) (perform_all pc calls new_statistics)
perform_all-Balanced pc calls = perform_all-from pc calls 0 new_statistics Balanced-new
