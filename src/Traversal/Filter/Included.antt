-- ===== src/Traversal/Filter/Included.antt =====
-- The resources and the references that the scope filter keeps, by the entries of its configuration.
use function_kubecore_schema.Base.{
  suc, ◌≡◌, refl, subst, ◌↔◌, ◌⊎◌, inl, inr, String, Bool, true, false, ◌&&◌, not, List, [], ◌∷◌,
  arith, string_eq, Bool-cases, Member, All, Text, runes, ==_iff, iff_trans,
}
use function_kubecore_schema.Graph.Types.{Resource}
use function_kubecore_schema.Graph.Builder.Defs.{
  ReferenceField, RefType, ref_owner, ref_config_map, ref_secret, ref_service, ref_pvc, ref_custom,
}
use function_kubecore_schema.Traversal.Filter.Scope.{
  PlatformChecker, ScopeFilterConfig, FilterStatistics, extract_api_group, nonempty, is_owner_ref,
  guards, resource_guards, reference_guards, should_include_resource, should_follow_reference,
  filter_resources, filter_references, count_resource, count_reference, matches_api_group_patterns,
  string_in_slice,
}
use function_kubecore_schema.Traversal.Filter.Patterns.{
  Matching, matches_api_group_patterns-Matching, string_in_slice-Member,
}

-- `some` holds if the list of what is included has entries; it leaves out no one if it has none.
abbrev pub Allowed : {A : Type 0} → List A → Type 0 → Type 0
Allowed list P = (list ≡ []) ⊎ P

-- By its platform, its API group and its kind.
abbrev pub InScope : ScopeFilterConfig → Bool → Text → String → Type 0 → Type 0
InScope config platform group kind More =
    ((config.platform_only ≡ false) ⊎ (platform ≡ true))
    × (Allowed config.include_api_groups (Matching group config.include_api_groups)
        × ((¬ (Matching group config.exclude_api_groups))
            × (Allowed config.include_kinds (Member kind config.include_kinds)
                × ((¬ (Member kind config.exclude_kinds)) × More))))

abbrev pub Included : PlatformChecker → ScopeFilterConfig → Resource → Type 0
Included pc config r =
    InScope config (pc.is_platform_resource r) (extract_api_group (runes r.api_version)) r.kind (
      ((r.namespace ≡ "")
        ⊎ Allowed config.include_namespaces (Member r.namespace config.include_namespaces))
      × ((r.namespace ≡ "") ⊎ (¬ (Member r.namespace config.exclude_namespaces))))

abbrev pub Followed : PlatformChecker → ScopeFilterConfig → ReferenceField → Type 0
Followed pc config ref =
    InScope config (pc.is_platform_kind ref.target_kind (runes ref.target_group))
      (runes ref.target_group) ref.target_kind
      ((config.cross_namespace_enabled ≡ true) ⊎ (ref.ref_type ≡ ref_owner))

-- `ys` are the elements of `xs` with the property, in order and as often as they come.
abbrev pub Keeps : {A : Type 0} → (A → Type 0) → List A → List A → Type 0
Keeps P [] ys = ys ≡ []
Keeps {A} P (x ∷ xs) ys =
    (P x × ((rest : List A) × (ys ≡ x ∷ rest) × Keeps P xs rest)) ⊎ ((¬ (P x)) × Keeps P xs ys)

module _ {P : Type 0} where
  include_test :
      {A : Type 0} (list : List A) (b : Bool)
      → (b ≡ true) ↔ P
      → ((nonempty list && not b) ≡ false) ↔ Allowed list P
  include_test [] b h = (λ _. inl refl, λ _. refl)
  include_test (x ∷ xs) true h = (λ _. inr (h.0 refl), λ _. refl)
  include_test (x ∷ xs) false h =
      (λ q. cc, λ m. elim m [ inl e ↦ cc | inr p ↦ let q = h.1 p in cc ])

  exclude_test :
      {A : Type 0} (list : List A) (b : Bool)
      → (b ≡ true) ↔ P
      → (list ≡ [] → ¬ P)
      → ((nonempty list && b) ≡ false) ↔ (¬ P)
  exclude_test [] b h empty = (λ _. empty refl, λ _. refl)
  exclude_test (x ∷ xs) true h empty = (λ q. cc, λ n. absurd (n (h.0 refl)))
  exclude_test (x ∷ xs) false h empty = (λ _ p. let q = h.1 p in cc, λ _. refl)

  unless_test :
      {Q : Type 0} (c b : Bool)
      → (c ≡ true) ↔ P
      → (b ≡ false) ↔ Q
      → ((not c && b) ≡ false) ↔ (P ⊎ Q)
  unless_test true b h q = (λ _. inl (h.0 refl), λ _. refl)
  unless_test false b h q =
      (λ e. inr (q.0 e), λ m. elim m [ inl p ↦ let e = h.1 p in cc | inr r ↦ q.1 r ])

both : {A B P Q : Type 0} → A ↔ P → B ↔ Q → (A × B) ↔ (P × Q)
both p q = (λ (a, b). (p.0 a, q.0 b), λ (a, b). (p.1 a, q.1 b))

alone : {A P : Type 0} → A ↔ P → (A × Unit {0}) ↔ P
alone p = (λ (a, _). p.0 a, λ a. (p.1 a, tt))

guards-pass :
    (gs : List (Bool × String)) (sf : FilterStatistics)
    → ((guards gs sf).0 ≡ true) ↔ All (λ g. g.0 ≡ false) gs
unfolding guards
guards-pass [] sf = (λ _. tt, λ _. refl)
guards-pass ((true, reason) ∷ rest) sf = (λ h. cc, λ (h, _). cc)
guards-pass ((false, reason) ∷ rest) sf =
    let ih = guards-pass rest sf in (λ h. (refl, ih.0 h), λ (_, h). ih.1 h)

platform_test :
    (only platform : Bool) → ((only && not platform) ≡ false) ↔ ((only ≡ false) ⊎ (platform ≡ true))
platform_test only platform = (λ h. ground arith, λ h. ground arith)

no_match : (group : Text) (patterns : List Text) → patterns ≡ [] → ¬ (Matching group patterns)
no_match group [] e (p, h, m) = absurd h
no_match group (q ∷ qs) e m = cc

no-Member : (s : String) (ss : List String) → ss ≡ [] → ¬ (Member s ss)
no-Member s [] e h = absurd h
no-Member s (t ∷ ts) e h = cc

module _ (config : ScopeFilterConfig) where
  group_included :
      (group : Text)
      → ((nonempty config.include_api_groups
            && not (matches_api_group_patterns group config.include_api_groups))
          ≡ false)
        ↔ Allowed config.include_api_groups (Matching group config.include_api_groups)
  group_included group =
      include_test config.include_api_groups _
        (matches_api_group_patterns-Matching group config.include_api_groups)

  group_excluded :
      (group : Text)
      → ((nonempty config.exclude_api_groups
            && matches_api_group_patterns group config.exclude_api_groups)
          ≡ false)
        ↔ (¬ (Matching group config.exclude_api_groups))
  group_excluded group =
      exclude_test config.exclude_api_groups _
        (matches_api_group_patterns-Matching group config.exclude_api_groups)
        (no_match group config.exclude_api_groups)

Member-included :
    (s : String) (ss : List String)
    → ((nonempty ss && not (string_in_slice s ss)) ≡ false) ↔ Allowed ss (Member s ss)
Member-included s ss = include_test ss _ (string_in_slice-Member s ss)

Member-excluded :
    (s : String) (ss : List String)
    → ((nonempty ss && string_in_slice s ss) ≡ false) ↔ (¬ (Member s ss))
Member-excluded s ss = exclude_test ss _ (string_in_slice-Member s ss) (no-Member s ss)

should_include-Included :
    (pc : PlatformChecker) (config : ScopeFilterConfig) (r : Resource) (sf : FilterStatistics)
    → ((should_include_resource pc config r sf).0 ≡ true) ↔ Included pc config r
unfolding should_include_resource
should_include-Included pc config r sf =
    let group = extract_api_group (runes r.api_version) in
    let cluster_wide = ==_iff r.namespace "" in
    iff_trans (guards-pass (resource_guards pc config r) sf) (
      both (platform_test config.platform_only (pc.is_platform_resource r)) (
        both (group_included config group) (
          both (group_excluded config group) (
            both (Member-included r.kind config.include_kinds) (
              both (Member-excluded r.kind config.exclude_kinds) (
                both
                  (unless_test _ _ cluster_wide
                    (Member-included r.namespace config.include_namespaces))
                  (alone (
                    unless_test _ _ cluster_wide
                      (Member-excluded r.namespace config.exclude_namespaces)))))))))

owner_test : (t : RefType) → (is_owner_ref t ≡ true) ↔ (t ≡ ref_owner)
owner_test ref_owner = (λ _. refl, λ _. refl)
owner_test ref_config_map = (λ h. cc, λ h. cc)
owner_test ref_secret = (λ h. cc, λ h. cc)
owner_test ref_service = (λ h. cc, λ h. cc)
owner_test ref_pvc = (λ h. cc, λ h. cc)
owner_test ref_custom = (λ h. cc, λ h. cc)

cross_test :
    (config : ScopeFilterConfig) (ref : ReferenceField)
    → ((not config.cross_namespace_enabled && not (is_owner_ref ref.ref_type)) ≡ false)
      ↔ ((config.cross_namespace_enabled ≡ true) ⊎ (ref.ref_type ≡ ref_owner))
cross_test config ref =
    let owner = owner_test ref.ref_type in (λ h. ground arith, λ h. ground arith)

should_follow-Followed :
    (pc : PlatformChecker) (config : ScopeFilterConfig) (ref : ReferenceField)
    (sf : FilterStatistics)
    → ((should_follow_reference pc config ref sf).0 ≡ true) ↔ Followed pc config ref
unfolding should_follow_reference
should_follow-Followed pc config ref sf =
    let group = runes ref.target_group in
    iff_trans (guards-pass (reference_guards pc config ref) sf) (
      both (platform_test config.platform_only (pc.is_platform_kind ref.target_kind group)) (
        both (group_included config group) (
          both (group_excluded config group) (
            both (Member-included ref.target_kind config.include_kinds) (
              both (Member-excluded ref.target_kind config.exclude_kinds)
                (alone (cross_test config ref)))))))

-- `FilterResources` keeps, in order and as often as they come, exactly the resources that are in
-- scope: those of the platform where only these are wanted, whose API group and kind are included,
-- where something is included at all, and not excluded, and whose namespace, where they have one, is
-- included and not excluded.
pub filter_resources-Keeps :
    (pc : PlatformChecker) (config : ScopeFilterConfig) (rs : List Resource) (sf : FilterStatistics)
    → Keeps (Included pc config) rs (filter_resources pc config rs sf).0
unfolding filter_resources
filter_resources-Keeps pc config [] sf = refl
filter_resources-Keeps pc config (r ∷ rs) sf =
    let evaluated = record sf { resources_evaluated = suc sf.resources_evaluated } in
    let answer = should_include_resource pc config r evaluated in
    let decides = should_include-Included pc config r evaluated in
    let ih = filter_resources-Keeps pc config rs (count_resource answer.0 answer.1) in
    elim (Bool-cases answer.0) [
      | inl kept ↦ inl (decides.0 kept, (_, rw kept refl, ih))
      | inr dropped ↦ inr (
        λ h. let kept = decides.1 h in cc,
        subst (Keeps (Included pc config) rs) (rw dropped refl) ih,
      )
    ]

-- `FilterReferences` keeps, in order and as often as they come, exactly the references whose target
-- is in scope, by its kind and its API group, and which are owner references where references across
-- namespaces are not enabled.
pub filter_references-Keeps :
    (pc : PlatformChecker) (config : ScopeFilterConfig) (refs : List ReferenceField)
    (sf : FilterStatistics)
    → Keeps (Followed pc config) refs (filter_references pc config refs sf).0
unfolding filter_references
filter_references-Keeps pc config [] sf = refl
filter_references-Keeps pc config (ref ∷ refs) sf =
    let evaluated = record sf { references_evaluated = suc sf.references_evaluated } in
    let answer = should_follow_reference pc config ref evaluated in
    let decides = should_follow-Followed pc config ref evaluated in
    let ih = filter_references-Keeps pc config refs (count_reference answer.0 answer.1) in
    elim (Bool-cases answer.0) [
      | inl kept ↦ inl (decides.0 kept, (_, rw kept refl, ih))
      | inr dropped ↦ inr (
        λ h. let kept = decides.1 h in cc,
        subst (Keeps (Followed pc config) refs) (rw dropped refl) ih,
      )
    ]
