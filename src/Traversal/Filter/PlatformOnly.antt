-- ===== src/Traversal/Filter/PlatformOnly.antt =====
-- What the default platform checker of scope_filter.go takes for the platform.
use function_kubecore_schema.Base.{
  ◌≡◌, refl, ◌↔◌, ◌⊎◌, inl, inr, true, false, some, List, string_eq, Bool-cases, Option-cases,
  lookup, Text, runes, sym, subst,
}
use function_kubecore_schema.Graph.Types.{Resource}
use function_kubecore_schema.Traversal.Filter.Platform.{
  platform_kinds_table, new_default_platform_checker, extract_api_group, is_platform_api_group,
  is_platform_kind, is_platform_resource,
}
use function_kubecore_schema.Traversal.Filter.Patterns.{
  Matching, matches_some-Matching, matches_api_group_patterns-Matching,
}

group_iff :
    (groups : List Text) (group : Text)
    → (is_platform_api_group (new_default_platform_checker groups) group ≡ true)
      ↔ Matching group groups
unfolding is_platform_api_group new_default_platform_checker
group_iff groups group =
    subst (λ b. (b ≡ true) ↔ Matching group groups) (sym (matches_some-Matching group groups))
      (matches_api_group_patterns-Matching group groups)

-- For the default checker a resource belongs to the platform exactly if its API group matches one of
-- the patterns, whatever the table of kinds says of its kind, or the table marks its kind.
pub is_platform_resource_iff :
    (groups : List Text) (r : Resource)
    → (is_platform_resource (new_default_platform_checker groups) r ≡ true) ↔ (
        Matching (extract_api_group (runes r.api_version)) groups
        ⊎ (lookup r.kind platform_kinds_table ≡ some true))
unfolding is_platform_resource is_platform_kind new_default_platform_checker
is_platform_resource_iff groups r =
    let pc = new_default_platform_checker groups in
    let group = extract_api_group (runes r.api_version) in
    let by_group = group_iff groups group in
    elim (Bool-cases (is_platform_api_group pc group)) [
      | inl hit ↦ (λ _. inl (by_group.0 hit), λ _. rw hit refl)
      | inr miss ↦
          let by_kind : (is_platform_resource pc r ≡ true)
              ↔ (is_platform_kind pc r.kind group ≡ true) =
            rw miss (λ h. h, λ h. h) in
          elim (Option-cases (lookup r.kind platform_kinds_table)) [
            | inl unknown ↦
                let same : is_platform_kind pc r.kind group ≡ false =
                  rw (unknown, is_platform_kind) miss in
                (
                  λ h. let k = by_kind.0 h in cc,
                  λ m. elim m [ inl g ↦ let k = by_group.1 g in cc | inr k ↦ cc ],
                )
            | inr (b, found) ↦
                let same : is_platform_kind pc r.kind group ≡ b =
                  rw (found, is_platform_kind) refl in
                (
                  λ h. let k = by_kind.0 h in inr cc,
                  λ m. elim m [ inl g ↦ let k = by_group.1 g in cc | inr k ↦ by_kind.1 cc ],
                )
          ]
    ]
