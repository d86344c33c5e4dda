-- ===== src/Traversal/Engine/Discover.antt =====
-- `DiscoverReferencedResources` of engine.go. Its goroutines hold a mutex while they write what they
-- found, in an order that the scheduler chooses: the order is an argument. They take a place in a
-- channel of `MaxConcurrentRequests` places first. The calls of `FilterReferences` are outside of the
-- mutex: what they leave behind where they overlap is an argument as well. `none` is a call that does not
-- return: a panic, a program that the Go runtime ends, or goroutines that wait for a place for ever.
use function_kubecore_schema.Base.{
  String, Bool, true, ◌&&◌, Option, none, some, List, [], ◌∷◌, ◌++◌, map, string_eq, ◌==◌,
  if◌then◌else◌, not, int_eq, ℤ, pos, ltb_ℤ, Dict, insert, has,
}
use function_kubecore_schema.Graph.Types.{Resource}
use function_kubecore_schema.Graph.Builder.Keys.{generate_node_id}
use function_kubecore_schema.Graph.Builder.Defs.{ReferenceField}
use function_kubecore_schema.Graph.Builder.Build.{◌>>=◌}
use function_kubecore_schema.Traversal.Filter.Scope.{
  PlatformChecker, ScopeFilterConfig, FilterStatistics, filter_references,
}

-- How the calls of `FilterReferences` of one call of `DiscoverReferencedResources` met. Its answer does
-- not depend on the statistics, which calls that overlap write without a lock: they leave some behind,
-- or the runtime finds two writes of the map at once and ends the program.
pub data Overlap : Type 0 where
  apart ended : Overlap
  raced : FilterStatistics → Overlap

-- What the Go scheduler does with the goroutines: the order in which they get the mutex, which is a
-- permutation of the resources, and how their calls of the filter met.
pub record Scheduler : Type 0 where
  pub order : List Resource → List Resource
  pub overlap : List Resource → Overlap

-- The interface `ReferenceResolver`, as far as the engine calls it. No references are an error.
pub record Resolver : Type 0 where
  pub extract_references : Resource → Option (List ReferenceField)
  pub resolve_references : Resource → List ReferenceField → List Resource × List String

-- An error about a resource.
pub record TraversalError : Type 0 where
  pub resource_id : String
  pub message : String
  pub recoverable : Bool

pub record DiscoveryResult : Type 0 where
  pub resources : List Resource
  pub references : Dict String (List ReferenceField)
  pub errors : List TraversalError

-- What the goroutines share.
pub record Discovery : Type 0 where
  pub discovered : Dict String Resource
  pub references : Dict String (List ReferenceField)
  pub errors : List TraversalError
  pub filter : FilterStatistics

-- The references that the threshold of confidence leaves.
unfoldable pub high_confidence : List ReferenceField → List ReferenceField
high_confidence [] = []
high_confidence (ref ∷ refs) =
    let rest = high_confidence refs in
    if ltb_ℤ ref.confidence (pos 70) && ref.target_kind == "" then rest else ref ∷ rest

-- The resources that no other one has the identifier of.
unfoldable pub add_discovered : List Resource → Dict String Resource → Dict String Resource
add_discovered [] m = m
add_discovered (r ∷ rs) m =
    let id = generate_node_id r in
    if has id m then add_discovered rs m else add_discovered rs (insert id r m)

-- The work of one goroutine.
unfoldable pub discover_one :
    Resolver → PlatformChecker → ScopeFilterConfig → Bool → Resource → Discovery → Discovery
discover_one resolver checker config skip_missing r d =
    let id = generate_node_id r in
    elim (resolver.extract_references r) [
      | none ↦ record d {
        errors =
            d.errors
            ++ record {
              resource_id = id;
              message = "Failed to extract references";
              recoverable = true;
            }
              ∷ [];
      }
      | some refs ↦
          let (filtered, filter) =
            filter_references checker config (high_confidence refs) d.filter in
          let (resources, failures) = resolver.resolve_references r filtered in
          record {
            discovered = add_discovered resources d.discovered;
            references = insert id filtered d.references;
            errors =
                d.errors
                ++ map
                    (λ message. record {
                      resource_id = id;
                      message = message;
                      recoverable = skip_missing;
                    })
                    failures;
            filter = filter;
          }
    ]

unfoldable pub discover_all :
    Resolver → PlatformChecker → ScopeFilterConfig → Bool → List Resource → Discovery → Discovery
discover_all resolver checker config skip_missing [] d = d
discover_all resolver checker config skip_missing (r ∷ rs) d =
    discover_all resolver checker config skip_missing rs
      (discover_one resolver checker config skip_missing r d)

-- The values of a map.
abbrev pub values : Dict String Resource → List Resource
values [] = []
values ((id, r) ∷ m) = r ∷ values m

-- The statistics that the filter is left with. With one place no two goroutines overlap.
unfoldable pub filter_after : ℤ → Overlap → FilterStatistics → Option FilterStatistics
filter_after places met sf =
    if places == pos 1
    then some sf
    else elim met [ apart ↦ some sf | raced left ↦ some left | ended ↦ none ]

-- The channel of so many places: `make` panics where it is negative, and with none no goroutine starts.
unfoldable pub has_places : ℤ → List Resource → Bool
has_places places [] = not (ltb_ℤ places (pos 0))
has_places places (r ∷ rs) = ltb_ℤ (pos 0) places

unfoldable pub discover_referenced_resources :
    Resolver
    → PlatformChecker
    → Scheduler
    → ScopeFilterConfig
    → Bool
    → ℤ
    → List Resource
    → FilterStatistics
    → Option (DiscoveryResult × FilterStatistics)
discover_referenced_resources resolver checker scheduler config skip_missing places resources
      filter =
    let d =
      discover_all resolver checker config skip_missing (scheduler.order resources)
        (record { discovered = []; references = []; errors = []; filter = filter }) in
    if has_places places resources
    then (filter_after places (scheduler.overlap resources) d.filter >>= λ left. some (
      record { resources = values d.discovered; references = d.references; errors = d.errors },
      left,
    ))
    else none
