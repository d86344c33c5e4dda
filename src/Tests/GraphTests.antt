-- ===== src/Tests/GraphTests.antt =====
-- pkg/graph on a graph of three resources.
use function_kubecore_schema.Base.{
  ℕ, ◌≡◌, refl, ◌↔◌, String, Bool, true, false, Option, none, some, List, [], ◌∷◌, string_eq,
  length, pos, Dict, lookup, insert,
}
use function_kubecore_schema.Graph.Types.{RelationType, Resource, ResourceEdge, ResourceGraph}
use function_kubecore_schema.Graph.Walks.{Cyclic}
use function_kubecore_schema.Graph.Builder.Keys.{
  generate_node_id, generate_edge_id, extract_api_group,
}
use function_kubecore_schema.Graph.Builder.Defs.{
  ReferenceField, ref_secret, new_graph, add_node, EdgeSpec, add_edge, shorten, fresh_node,
  enter_node, link, fresh_edge, enter_edge, update_metadata,
}
use function_kubecore_schema.Graph.Builder.Build.{build_graph}
use function_kubecore_schema.Graph.Builder.Validate.{validate_graph}
use function_kubecore_schema.Graph.Builder.WellFormed.{WellFormed, validate_graph-valid_iff}
use function_kubecore_schema.Graph.Builder.Preserve.{WellFormed-new, add_node-WellFormed}
use function_kubecore_schema.Graph.Builder.PreserveEdges.{GraphIs, add_edge-WellFormed}
use function_kubecore_schema.Graph.Builder.Built.{build_graph-valid}
use function_kubecore_schema.Graph.Builder.Unlinked.{build_graph-edges_empty}
use function_kubecore_schema.Graph.Builder.Merge.{
  merge_known, merge_new, merge_node, merge_nodes, merge_all_nodes, merge_mapped, merge_edge,
  merge_edges, merge_all_edges, merge_root, merge_roots, merge_all_roots, merge_all_cycles,
  merge_graphs,
}
use function_kubecore_schema.Graph.Builder.MergedNodes.{Gives}
use function_kubecore_schema.Graph.Builder.Merged.{merge_graphs-WellFormed}
use function_kubecore_schema.Graph.Cycles.HasCycle.{has_cycle}
use function_kubecore_schema.Graph.Cycles.Decides.{has_cycle_decides}

abbrev app : Resource
app = record {
  api_version = "apps/v1";
  kind = "Deployment";
  namespace = "prod";
  name = "web";
  uid = "u1";
}

abbrev secret : Resource
secret = record {
  api_version = "v1";
  kind = "Secret";
  namespace = "prod";
  name = "key";
  uid = "u2";
}

abbrev none_platform : Resource → Bool
none_platform r = false

abbrev secret_ref_field : ReferenceField
secret_ref_field = record {
  field_path = "spec.secretRef";
  field_name = "secretRef";
  target_kind = "Secret";
  target_group = "";
  target_version = "v1";
  ref_type = ref_secret;
  confidence = pos 95;
  detection_method = "pattern";
}

abbrev two_nodes : ResourceGraph
two_nodes =
    (add_node none_platform (add_node none_platform new_graph app (pos 0) []).0 secret (pos 1)
      ("apps/v1/Deployment/prod/web" ∷ [])).0

abbrev spec : String → EdgeSpec
spec path = record {
  relation_type = RelationType.secret_ref;
  field_path = path;
  field_name = "ref";
  confidence = pos 90;
}

two_nodes-WellFormed : WellFormed two_nodes
two_nodes-WellFormed =
    add_node-WellFormed none_platform _ secret (pos 1) _
      (add_node-WellFormed none_platform new_graph app (pos 0) [] WellFormed-new)

abbrev graph_of : Option (ResourceGraph × Option ResourceEdge) → ResourceGraph
graph_of none = new_graph
graph_of (some (g, _)) = g

-- app → secret → app
abbrev loop : ResourceGraph
loop = graph_of (
    add_edge
      (graph_of (add_edge two_nodes "apps/v1/Deployment/prod/web" "v1/Secret/prod/key" (spec "a")))
      "v1/Secret/prod/key" "apps/v1/Deployment/prod/web" (spec "b"))

graph_of-WellFormed :
    (r : Option (ResourceGraph × Option ResourceEdge))
    → GraphIs WellFormed r
    → WellFormed (graph_of r)
graph_of-WellFormed none h = absurd h
graph_of-WellFormed (some (g, e)) h = h

loop-WellFormed : WellFormed loop
loop-WellFormed = graph_of-WellFormed _ (
    add_edge-WellFormed _ _ _ _
      (graph_of-WellFormed _ (add_edge-WellFormed two_nodes _ _ _ two_nodes-WellFormed)))

-- What the runs compute with.
builder_runs : Unit {0}
unfolding add_node add_edge new_graph lookup insert shorten fresh_node enter_node link fresh_edge
    enter_edge update_metadata generate_node_id generate_edge_id extract_api_group
builder_runs = tt

loop_cycle : (has_cycle loop ≡ some true) × (has_cycle two_nodes ≡ some false)
unfolding has_cycle builder_runs
loop_cycle = (refl, refl)

abbrev roots : List Resource
roots = app ∷ secret ∷ []

abbrev references : Dict String (List ReferenceField)
references = ("apps/v1/Deployment/prod/web", secret_ref_field ∷ []) ∷ []

validate_graph-valid_iff_example : ((validate_graph two_nodes).valid ≡ true) ↔ WellFormed two_nodes
validate_graph-valid_iff_example = validate_graph-valid_iff two_nodes

add_node-WellFormed_example : WellFormed (add_node none_platform new_graph app (pos 0) []).0
add_node-WellFormed_example =
    add_node-WellFormed none_platform new_graph app (pos 0) [] WellFormed-new

add_edge-WellFormed_example :
    GraphIs WellFormed
      (add_edge two_nodes "apps/v1/Deployment/prod/web" "v1/Secret/prod/key" (spec "a"))
add_edge-WellFormed_example =
    add_edge-WellFormed two_nodes "apps/v1/Deployment/prod/web" "v1/Secret/prod/key" (spec "a")
      two_nodes-WellFormed

build_graph-valid_example :
    (g : ResourceGraph) × (build_graph none_platform roots references ≡ some g)
    × ((validate_graph g).valid ≡ true)
build_graph-valid_example = build_graph-valid none_platform roots references

-- A Deployment that refers to a Secret among the roots: the reference is skipped.
build_graph-edges_empty_example :
    (g : ResourceGraph) × (build_graph none_platform roots references ≡ some g) × (g.edges ≡ [])
build_graph-edges_empty_example =
    build_graph-edges_empty none_platform roots references (refl, (refl, tt))
      (((refl, refl), tt), tt)

has_cycle_decides_example : (b : Bool) × (has_cycle loop ≡ some b) × ((b ≡ true) ↔ Cyclic loop)
has_cycle_decides_example = has_cycle_decides loop loop-WellFormed

-- What the merges compute with.
merge_runs : Unit {0}
unfolding merge_known merge_new merge_node merge_nodes merge_all_nodes merge_mapped merge_edge
    merge_edges merge_all_edges merge_root merge_roots merge_all_roots merge_all_cycles merge_graphs
    builder_runs
merge_runs = tt

abbrev edges_of_result : Option ResourceGraph → ℕ
edges_of_result none = 0
edges_of_result (some g) = length g.edges

-- The edges of the second graph are all that the merged graph has.
merge_two : edges_of_result (merge_graphs none_platform (two_nodes ∷ loop ∷ [])) ≡ 2
unfolding merge_runs
merge_two = refl

merge_graphs-WellFormed_example :
    Gives WellFormed (merge_graphs none_platform (two_nodes ∷ loop ∷ []))
merge_graphs-WellFormed_example =
    merge_graphs-WellFormed none_platform (two_nodes ∷ loop ∷ [])
      (two_nodes-WellFormed, (loop-WellFormed, tt))
