-- ===== src/Traversal/Filter/Platform.antt =====
-- `DefaultPlatformChecker` of scope_filter.go. API groups and their patterns are texts.
use function_kubecore_schema.Base.{
  String, Bool, true, false, Option, none, some, List, [], ◌∷◌, string_eq, ◌==◌, if◌then◌else◌,
  nat_beq, Dict, lookup, Text, runes, text_eq, has_prefix, has_suffix, trim_prefix, trim_suffix,
}
use function_kubecore_schema.Graph.Types.{Resource}

pub record DefaultPlatformChecker : Type 0 where
  pub platform_api_groups : List Text
  pub platform_kinds : Dict String Bool

abbrev pub platform_kinds_table : Dict String Bool
platform_kinds_table =
    ("Pod", false)
    ∷ ("Service", false)
    ∷ ("ConfigMap", false)
    ∷ ("Secret", false)
    ∷ ("PersistentVolumeClaim", false)
    ∷ ("PersistentVolume", false)
    ∷ ("StorageClass", false)
    ∷ ("Namespace", false)
    ∷ ("Node", false)
    ∷ ("Deployment", false)
    ∷ ("ReplicaSet", false)
    ∷ ("DaemonSet", false)
    ∷ ("StatefulSet", false)
    ∷ ("Job", false)
    ∷ ("CronJob", false)
    ∷ ("KubeCluster", true)
    ∷ ("KubEnv", true)
    ∷ ("KubeApp", true)
    ∷ ("KubeSystem", true)
    ∷ ("KubeNet", true)
    ∷ ("QualityGate", true)
    ∷ ("GitHubProject", true)
    ∷ ("GitHubInfra", true)
    ∷ ("GitHubSystem", true)
    ∷ ("GithubProvider", true)
    ∷ []

unfoldable pub new_default_platform_checker : List Text → DefaultPlatformChecker
new_default_platform_checker groups = record {
  platform_api_groups = groups;
  platform_kinds = platform_kinds_table;
}

-- What stands before the first slash, if there is one.
unfoldable pub before_slash : Text → Option Text
before_slash [] = none
before_slash (c ∷ s) =
    let rest = before_slash s in
    if nat_beq c b'/' then some [] else elim rest [ none ↦ none | some part ↦ some (c ∷ part) ]

-- parts[0] of strings.Split(apiVersion, "/") if there is a slash
unfoldable pub extract_api_group : Text → Text
extract_api_group api_version = elim (before_slash api_version) [ none ↦ [] | some part ↦ part ]

unfoldable pub matches_pattern : Text → Text → Bool
matches_pattern value pattern =
    if pattern == b'*' ∷ []
    then true
    else if has_prefix pattern (b'*' ∷ b'.' ∷ [])
    then has_suffix value (trim_prefix pattern (b'*' ∷ b'.' ∷ []))
    else if has_suffix pattern (b'*' ∷ [])
    then has_prefix value (trim_suffix pattern (b'*' ∷ []))
    else value == pattern

-- The loop of `IsPlatformAPIGroup`.
unfoldable pub matches_some : Text → List Text → Bool
matches_some value [] = false
matches_some value (pattern ∷ patterns) =
    let rest = matches_some value patterns in if matches_pattern value pattern then true else rest

unfoldable pub is_platform_api_group : DefaultPlatformChecker → Text → Bool
is_platform_api_group pc api_group = matches_some api_group pc.platform_api_groups

unfoldable pub is_platform_kind : DefaultPlatformChecker → String → Text → Bool
is_platform_kind pc kind api_group = elim (lookup kind pc.platform_kinds) [
  | some is_platform ↦ is_platform
  | none ↦ is_platform_api_group pc api_group
]

unfoldable pub is_platform_resource : DefaultPlatformChecker → Resource → Bool
is_platform_resource pc r =
    let api_group = extract_api_group (runes r.api_version) in
    if is_platform_api_group pc api_group then true else is_platform_kind pc r.kind api_group

unfoldable pub get_api_group_scope : DefaultPlatformChecker → Text → String
get_api_group_scope pc api_version =
    if is_platform_api_group pc (extract_api_group api_version) then "platform" else "external"
