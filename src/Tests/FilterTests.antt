-- ===== src/Tests/FilterTests.antt =====
-- pkg/traversal/scope_filter.go on two resources.
use function_kubecore_schema.Base.{
  ◌≡◌, refl, ◌↔◌, ◌⊎◌, String, some, true, false, List, [], ◌∷◌, string_eq, text_eq, runes,
  text_beq, lookup, insert, has_prefix, has_suffix, trim_prefix, trim_suffix, pos,
}
use function_kubecore_schema.Graph.Types.{Resource}
use function_kubecore_schema.Graph.Builder.Defs.{ReferenceField, ref_secret}
use function_kubecore_schema.Traversal.Filter.Platform.{
  DefaultPlatformChecker, new_default_platform_checker, before_slash, matches_some,
  is_platform_api_group, platform_kinds_table,
}
use function_kubecore_schema.Traversal.Filter.Platform.{
  is_platform_kind as default_kind, is_platform_resource as default_resource,
  matches_pattern as platform_matches, extract_api_group as platform_group,
}
use function_kubecore_schema.Traversal.Filter.Scope.{
  ScopeFilterConfig, PlatformChecker, new_statistics, extract_api_group, matches_pattern,
  matches_api_group_patterns, string_in_slice, guards, should_include_resource,
  should_follow_reference, filter_resources, filter_references,
}
use function_kubecore_schema.Traversal.Filter.Patterns.{Matches, matches_pattern-Matches, Matching}
use function_kubecore_schema.Traversal.Filter.PlatformOnly.{is_platform_resource_iff}
use function_kubecore_schema.Traversal.Filter.Included.{
  Keeps, Included, Followed, filter_resources-Keeps, filter_references-Keeps,
}
use function_kubecore_schema.Traversal.Filter.Statistics.{
  Balanced, Call, resources_call, references_call, include_call, refusals, perform_all,
  perform_all-Balanced,
}

abbrev resource : String → String → String → Resource
resource api_version kind namespace = record {
  api_version = api_version;
  kind = kind;
  namespace = namespace;
  name = "a";
  uid = "";
}

abbrev reference : String → String → ReferenceField
reference kind group = record {
  field_path = "spec.ref";
  field_name = "ref";
  target_kind = kind;
  target_group = group;
  target_version = "v1";
  ref_type = ref_secret;
  confidence = pos 90;
  detection_method = "pattern";
}

abbrev config : ScopeFilterConfig
config = record {
  include_api_groups = runes "*.kubecore.io" ∷ [];
  exclude_api_groups = [];
  include_kinds = [];
  exclude_kinds = "KubeNet" ∷ [];
  platform_only = false;
  cross_namespace_enabled = true;
  include_namespaces = [];
  exclude_namespaces = "test" ∷ [];
}

abbrev checker : DefaultPlatformChecker
checker = new_default_platform_checker (runes "*.kubecore.io" ∷ [])

abbrev platform : PlatformChecker
platform = record {
  is_platform_resource = default_resource checker;
  is_platform_kind = default_kind checker;
}

abbrev app : Resource
app = resource "platform.kubecore.io/v1" "KubeApp" "prod"

abbrev resources : List Resource
resources =
    app
    ∷ resource "apps/v1" "Deployment" "prod"
    ∷ resource "platform.kubecore.io/v1" "KubeApp" "test"
    ∷ []

abbrev references : List ReferenceField
references = reference "KubeApp" "app.kubecore.io" ∷ reference "Secret" "" ∷ []

filter_runs : Unit {0}
unfolding new_statistics filter_resources filter_references should_include_resource
    should_follow_reference guards extract_api_group matches_pattern matches_api_group_patterns
    string_in_slice before_slash runes text_beq has_prefix has_suffix trim_prefix trim_suffix insert
    lookup new_default_platform_checker default_kind default_resource platform_group
    is_platform_api_group matches_some platform_matches
filter_runs = tt

filtered_value : (filter_resources platform config resources new_statistics).0 ≡ app ∷ []
unfolding filter_runs
filtered_value = refl

-- The end of a group need not begin behind a dot.
evil_value : matches_pattern (runes "evilkubecore.io") (runes "*.kubecore.io") ≡ true
unfolding filter_runs
evil_value = refl

-- Pods of a platform group are of the platform, though their kind is not.
platform_value : default_resource checker (resource "x.kubecore.io/v1" "Pod" "") ≡ true
unfolding filter_runs
platform_value = refl

matches_pattern-Matches_example :
    (matches_pattern (runes "evilkubecore.io") (runes "*.kubecore.io") ≡ true)
    ↔ Matches (runes "evilkubecore.io") (runes "*.kubecore.io")
matches_pattern-Matches_example =
    matches_pattern-Matches (runes "evilkubecore.io") (runes "*.kubecore.io")

is_platform_resource_iff_example :
    (default_resource (new_default_platform_checker (runes "*.kubecore.io" ∷ [])) app ≡ true) ↔ (
      Matching (platform_group (runes "platform.kubecore.io/v1")) (runes "*.kubecore.io" ∷ [])
      ⊎ (lookup "KubeApp" platform_kinds_table ≡ some true))
is_platform_resource_iff_example = is_platform_resource_iff (runes "*.kubecore.io" ∷ []) app

filter_resources-Keeps_example :
    Keeps
      (Included platform config)
      resources
      (filter_resources platform config resources new_statistics).0
filter_resources-Keeps_example = filter_resources-Keeps platform config resources new_statistics

filter_references-Keeps_example :
    Keeps
      (Followed platform config)
      references
      (filter_references platform config references new_statistics).0
filter_references-Keeps_example = filter_references-Keeps platform config references new_statistics

abbrev calls : List Call
calls =
    resources_call config resources
    ∷ references_call config references
    ∷ include_call config (resource "v1" "Secret" "prod")
    ∷ []

perform_all-Balanced_example :
    Balanced (refusals platform calls 0) (perform_all platform calls new_statistics)
perform_all-Balanced_example = perform_all-Balanced platform calls
