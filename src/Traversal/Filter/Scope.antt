-- ===== src/Traversal/Filter/Scope.antt =====
-- `DefaultScopeFilter` of scope_filter.go. The filter's state is its statistics. The platform checker
-- is an interface: its two answers are arguments.
use function_kubecore_schema.Base.{
  ℕ, suc, String, Bool, true, false, ◌&&◌, not, none, some, List, [], ◌∷◌, string_eq, ◌==◌,
  if◌then◌else◌, Dict, count_up, Text, runes, text_eq, has_prefix, has_suffix, trim_prefix,
  trim_suffix,
}
use function_kubecore_schema.Graph.Types.{Resource}
use function_kubecore_schema.Graph.Builder.Defs.{
  RefType, ref_owner, ref_config_map, ref_secret, ref_service, ref_pvc, ref_custom, ReferenceField,
}
use function_kubecore_schema.Traversal.Filter.Platform.{before_slash}

-- `ScopeFilterConfig` (types.go)
pub record ScopeFilterConfig : Type 0 where
  pub include_api_groups : List Text
  pub exclude_api_groups : List Text
  pub include_kinds : List String
  pub exclude_kinds : List String
  pub platform_only : Bool
  pub cross_namespace_enabled : Bool
  pub include_namespaces : List String
  pub exclude_namespaces : List String

pub record FilterStatistics : Type 0 where
  pub resources_evaluated : ℕ
  pub resources_included : ℕ
  pub resources_excluded : ℕ
  pub references_evaluated : ℕ
  pub references_included : ℕ
  pub references_excluded : ℕ
  pub filter_reasons : Dict String ℕ

-- The methods of the interface `PlatformChecker` that the filter calls.
pub record PlatformChecker : Type 0 where
  pub is_platform_resource : Resource → Bool
  pub is_platform_kind : String → Text → Bool

unfoldable pub new_statistics : FilterStatistics
new_statistics = record {
  resources_evaluated = 0;
  resources_included = 0;
  resources_excluded = 0;
  references_evaluated = 0;
  references_included = 0;
  references_excluded = 0;
  filter_reasons = [];
}

unfoldable pub extract_api_group : Text → Text
extract_api_group api_version = elim (before_slash api_version) [ none ↦ [] | some part ↦ part ]

unfoldable pub matches_pattern : Text → Text → Bool
matches_pattern value pattern =
    if pattern == b'*' ∷ []
    then true
    else if has_prefix pattern (b'*' ∷ b'.' ∷ [])
    then has_suffix value (trim_prefix pattern (b'*' ∷ b'.' ∷ []))
    else if has_suffix pattern (b'*' ∷ [])
    then has_prefix value (trim_suffix pattern (b'*' ∷ []))
    else value == pattern

unfoldable pub matches_api_group_patterns : Text → List Text → Bool
matches_api_group_patterns api_group [] = false
matches_api_group_patterns api_group (pattern ∷ patterns) =
    let rest = matches_api_group_patterns api_group patterns in
    if matches_pattern api_group pattern then true else rest

unfoldable pub string_in_slice : String → List String → Bool
string_in_slice str [] = false
string_in_slice str (s ∷ ss) = let rest = string_in_slice str ss in if s == str then true else rest

-- `len(list) > 0`
abbrev pub nonempty : {A : Type 0} → List A → Bool
nonempty [] = false
nonempty (x ∷ xs) = true

-- FilterReasons[reason]++ and the answer false
abbrev pub exclude : String → FilterStatistics → Bool × FilterStatistics
exclude reason sf = (false, record sf { filter_reasons = count_up reason sf.filter_reasons })

-- Guards that return early, one behind the other, each with the reason to exclude.
unfoldable pub guards : List (Bool × String) → FilterStatistics → Bool × FilterStatistics
guards [] sf = (true, sf)
guards ((fails, reason) ∷ rest) sf = if fails then exclude reason sf else guards rest sf

abbrev pub resource_guards : PlatformChecker → ScopeFilterConfig → Resource → List (Bool × String)
resource_guards pc config r =
    let api_group = extract_api_group (runes r.api_version) in
    (config.platform_only && not (pc.is_platform_resource r), "not_platform")
    ∷ (
      nonempty config.include_api_groups
          && not (matches_api_group_patterns api_group config.include_api_groups),
      "api_group_not_included",
    )
    ∷ (
      nonempty config.exclude_api_groups
          && matches_api_group_patterns api_group config.exclude_api_groups,
      "api_group_excluded",
    )
    ∷ (
      nonempty config.include_kinds && not (string_in_slice r.kind config.include_kinds),
      "kind_not_included",
    )
    ∷ (
      nonempty config.exclude_kinds && string_in_slice r.kind config.exclude_kinds,
      "kind_excluded",
    )
    ∷ (
      not (r.namespace == "")
          && (nonempty config.include_namespaces
              && not (string_in_slice r.namespace config.include_namespaces)),
      "namespace_not_included",
    )
    ∷ (
      not (r.namespace == "")
          && (nonempty config.exclude_namespaces
              && string_in_slice r.namespace config.exclude_namespaces),
      "namespace_excluded",
    )
    ∷ []

unfoldable pub should_include_resource :
    PlatformChecker → ScopeFilterConfig → Resource → FilterStatistics → Bool × FilterStatistics
should_include_resource pc config r sf = guards (resource_guards pc config r) sf

abbrev pub is_owner_ref : RefType → Bool
is_owner_ref ref_owner = true
is_owner_ref ref_config_map = false
is_owner_ref ref_secret = false
is_owner_ref ref_service = false
is_owner_ref ref_pvc = false
is_owner_ref ref_custom = false

abbrev pub reference_guards :
    PlatformChecker → ScopeFilterConfig → ReferenceField → List (Bool × String)
reference_guards pc config ref =
    let target_group = runes ref.target_group in
    (
      config.platform_only && not (pc.is_platform_kind ref.target_kind target_group),
      "ref_target_not_platform",
    )
    ∷ (
      nonempty config.include_api_groups
          && not (matches_api_group_patterns target_group config.include_api_groups),
      "ref_api_group_not_included",
    )
    ∷ (
      nonempty config.exclude_api_groups
          && matches_api_group_patterns target_group config.exclude_api_groups,
      "ref_api_group_excluded",
    )
    ∷ (
      nonempty config.include_kinds && not (string_in_slice ref.target_kind config.include_kinds),
      "ref_kind_not_included",
    )
    ∷ (
      nonempty config.exclude_kinds && string_in_slice ref.target_kind config.exclude_kinds,
      "ref_kind_excluded",
    )
    ∷ (
      not config.cross_namespace_enabled && not (is_owner_ref ref.ref_type),
      "cross_namespace_disabled",
    )
    ∷ []

unfoldable pub should_follow_reference :
    PlatformChecker
    → ScopeFilterConfig
    → ReferenceField
    → FilterStatistics
    → Bool × FilterStatistics
should_follow_reference pc config ref sf = guards (reference_guards pc config ref) sf

-- One round of the loop of `FilterResources` behind the test.
abbrev pub count_resource : Bool → FilterStatistics → FilterStatistics
count_resource true sf = record sf { resources_included = suc sf.resources_included }
count_resource false sf = record sf { resources_excluded = suc sf.resources_excluded }

unfoldable pub filter_resources :
    PlatformChecker
    → ScopeFilterConfig
    → List Resource
    → FilterStatistics
    → List Resource × FilterStatistics
filter_resources pc config [] sf = ([], sf)
filter_resources pc config (r ∷ rs) sf =
    let evaluated = record sf { resources_evaluated = suc sf.resources_evaluated } in
    let (included, sf') = should_include_resource pc config r evaluated in
    let (filtered, end) = filter_resources pc config rs (count_resource included sf') in
    (if included then r ∷ filtered else filtered, end)

abbrev pub count_reference : Bool → FilterStatistics → FilterStatistics
count_reference true sf = record sf { references_included = suc sf.references_included }
count_reference false sf = record sf { references_excluded = suc sf.references_excluded }

unfoldable pub filter_references :
    PlatformChecker
    → ScopeFilterConfig
    → List ReferenceField
    → FilterStatistics
    → List ReferenceField × FilterStatistics
filter_references pc config [] sf = ([], sf)
filter_references pc config (ref ∷ refs) sf =
    let evaluated = record sf { references_evaluated = suc sf.references_evaluated } in
    let (included, sf') = should_follow_reference pc config ref evaluated in
    let (filtered, end) = filter_references pc config refs (count_reference included sf') in
    (if included then ref ∷ filtered else filtered, end)

unfoldable pub reset_statistics : FilterStatistics → FilterStatistics
reset_statistics sf = new_statistics
