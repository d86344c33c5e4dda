-- ===== src/Tests/TraverserTests.antt =====
-- `FindAllPaths`, `DetectCycles` and the depth-first and breadth-first traversals on a graph
-- where two paths lead from `a` to `c`, with a loop back.
use function_kubecore_schema.Base.{
  ◌≤◌, ◌≡◌, ◌≢◌, refl, ◌↔◌, String, true, false, some, none, List, [], ◌∷◌, arith, string_eq,
  length, pos, lookup, insert, map, All, ==_iff, sym, Member, inl, inr, has,
}
use function_kubecore_schema.Graph.Types.{RelationType, ResourceEdge, ResourceGraph, ResourceNode}
use function_kubecore_schema.Graph.Walks.{edges_of}
use function_kubecore_schema.Graph.Cycles.Detect.{
  DetectedCycle, index_of, relation_types, total_weight, all_new, create_cycle_from_path, scan,
  dfs_detect_cycles, detect_all, cycles_with, detect_cycles,
}
use function_kubecore_schema.Graph.Cycles.Detect.Chain.{Genuine}
use function_kubecore_schema.Graph.Cycles.Detect.Sound.{detect_cycles-Genuine}
use function_kubecore_schema.Graph.Cycles.HasCycle.{
  enter, leave, scan_edges, unless_found, dfs_has_cycle, any_cycle, has_cycle,
}
use function_kubecore_schema.Graph.Traverser.DepthFirst.{
  follow_edge, follow_edges, dfs_visit, visit_roots, depth_first_traversal,
}
use function_kubecore_schema.Graph.Traverser.BreadthFirst.{
  enqueue_edge, enqueue_edges, process_item, process_queue, root_items, breadth_first_traversal,
  forward_traversal,
}
use function_kubecore_schema.Graph.Traverser.BreadthFirst.Returns.{breadth_first_traversal-returns}
use function_kubecore_schema.Graph.Traverser.Visits.{VisitationStrategy, TraversalResult}
use function_kubecore_schema.Graph.Traverser.Visits.Reached.{Reported, times}
use function_kubecore_schema.Graph.Traverser.DepthFirst.Reached.{depth_first_traversal-Reported}
use function_kubecore_schema.Graph.Traverser.AllPaths.{
  path_result, explore, find_all_paths_dfs, shortest_of, find_all_paths,
}
use function_kubecore_schema.Graph.Traverser.AllPaths.Simple.{Simple, targets}
use function_kubecore_schema.Graph.Traverser.AllPaths.Exact.{find_all_paths-Simple}
use function_kubecore_schema.Graph.Traverser.AllPaths.Shortest.{find_all_paths-IsShortest}

abbrev node : String → ResourceNode
node id = record {
  id = id;
  resource = none;
  uid = "";
  discovery_depth = pos 0;
  discovery_path = [];
  platform = false;
  metadata = none;
}

abbrev edge : String → String → String → ResourceEdge
edge id source target = record {
  id = id;
  source = source;
  target = target;
  relation_type = RelationType.custom_ref;
  field_path = "";
  field_name = "";
  confidence = pos 90;
  detection_method = "";
  metadata = record { is_optional = false; is_cross_namespace = false; target_exists = true };
}

abbrev diamond : ResourceGraph
diamond = record {
  nodes = ("a", node "a") ∷ ("b", node "b") ∷ ("c", node "c") ∷ [];
  edges =
      ("ab", edge "ab" "a" "b")
      ∷ ("ba", edge "ba" "b" "a")
      ∷ ("bc", edge "bc" "b" "c")
      ∷ ("ac", edge "ac" "a" "c")
      ∷ [];
  adjacency_list = ("a", "ab" ∷ "ac" ∷ []) ∷ ("b", "ba" ∷ "bc" ∷ []) ∷ ("c", []) ∷ [];
  reverse_adjacency_list = [];
  metadata = record {
    root_nodes = [];
    total_nodes = 3;
    total_edges = 4;
    max_depth = pos 0;
    platform_nodes = 0;
    external_nodes = 3;
    cycles_detected = [];
  };
}

path_runs : Unit {0}
unfolding edges_of explore find_all_paths_dfs shortest_of find_all_paths lookup insert
path_runs = tt

paths_value :
    (find_all_paths diamond "a" "c" (pos 5)).paths
    ≡ path_result ("a" ∷ "b" ∷ "c" ∷ []) ("ab" ∷ "bc" ∷ [])
      ∷ path_result ("a" ∷ "c" ∷ []) ("ac" ∷ [])
      ∷ []
unfolding path_runs
paths_value = refl

shortest_value :
    (find_all_paths diamond "a" "c" (pos 5)).shortest_path
    ≡ some (path_result ("a" ∷ "c" ∷ []) ("ac" ∷ []))
unfolding path_runs
shortest_value = refl

-- Within one edge there is only one of the paths.
bounded_value :
    (find_all_paths diamond "a" "c" (pos 1)).paths ≡ path_result ("a" ∷ "c" ∷ []) ("ac" ∷ []) ∷ []
unfolding path_runs
bounded_value = refl

apart : ◌≢◌ {A = String} "a" "c"
apart h = let f : false ≡ true = (==_iff "a" "c").1 h in cc

direct : Simple diamond "c" [] "a" ("ac" ∷ [])
unfolding path_runs
direct = (
  apart,
  inr (inl refl),
  (edge "ac" "a" "c", refl, λ h. elim h [ inl e ↦ apart (sym e) | inr f ↦ absurd f ], refl),
)

find_all_paths-Simple_example :
    Member (path_result ("a" ∷ "c" ∷ []) ("ac" ∷ [])) (find_all_paths diamond "a" "c" (pos 5)).paths
    ↔ ((has "a" diamond.nodes ≡ true)
        × (has "c" diamond.nodes ≡ true)
        × ((ids : List String) × (length ids ≤ 5)
            × Simple diamond "c" [] "a" ids
            × (path_result ("a" ∷ "c" ∷ []) ("ac" ∷ [])
                ≡ path_result ("a" ∷ targets diamond ids) ids)))
find_all_paths-Simple_example =
    find_all_paths-Simple diamond "a" "c" (pos 5) (path_result ("a" ∷ "c" ∷ []) ("ac" ∷ []))

known : (has "a" diamond.nodes ≡ true) × (has "c" diamond.nodes ≡ true)
unfolding path_runs
known = (refl, refl)

find_all_paths-IsShortest_example :
    (best : List String) × ((find_all_paths diamond "a" "c" (pos 5)).shortest_path
      ≡ some (path_result ("a" ∷ targets diamond best) best))
    × Simple diamond "c" [] "a" best
    × (length best ≤ 1)
find_all_paths-IsShortest_example =
    find_all_paths-IsShortest diamond "a" "c" (pos 5) ("ac" ∷ []) known.0 known.1 (omega arith)
      direct

cycle_runs : Unit {0}
unfolding edges_of index_of relation_types total_weight all_new create_cycle_from_path scan
    dfs_detect_cycles detect_all cycles_with detect_cycles enter leave scan_edges unless_found
    dfs_has_cycle any_cycle has_cycle lookup insert
cycle_runs = tt

cycles_value :
    map (λ (c : DetectedCycle). c.cycle.nodes) (detect_cycles (pos 10) diamond).cycles
    ≡ ("a" ∷ "b" ∷ "a" ∷ []) ∷ []
unfolding cycle_runs
cycles_value = refl

-- A maximal depth that is too small hides the cycle, which `HasCycle` finds.
hidden_value :
    ((detect_cycles (pos 0) diamond).cycles_found ≡ false) × (has_cycle diamond ≡ some true)
unfolding cycle_runs
hidden_value = (refl, refl)

detect_cycles-Genuine_example : All (Genuine diamond) (detect_cycles (pos 10) diamond).cycles
detect_cycles-Genuine_example = detect_cycles-Genuine diamond (pos 10)

-- Both ends are root nodes, and every node and edge is admitted.
abbrev two_roots : ResourceGraph
two_roots = record diamond { metadata = record diamond.metadata { root_nodes = "a" ∷ "c" ∷ [] } }

abbrev everything : VisitationStrategy
everything = record {
  should_visit = λ n depth max_depth. true;
  should_traverse_edge = λ e depth max_depth. true;
}

dfs_runs : Unit {0}
unfolding edges_of follow_edge follow_edges dfs_visit visit_roots depth_first_traversal lookup
    insert
dfs_runs = tt

-- The root node "c", which the walk from "a" reaches, is visited twice: the loop over the root nodes
-- does not look at the marks.
root_twice :
    (depth_first_traversal everything two_roots (pos 5)).visited_nodes ≡ "a" ∷ "b" ∷ "c" ∷ "c" ∷ []
unfolding dfs_runs
root_twice = refl

depth_first_traversal-Reported_example :
    Reported everything two_roots (pos 5) (depth_first_traversal everything two_roots (pos 5))
depth_first_traversal-Reported_example = depth_first_traversal-Reported everything two_roots (pos 5)

bfs_runs : Unit {0}
unfolding edges_of enqueue_edge enqueue_edges process_item process_queue root_items
    breadth_first_traversal forward_traversal lookup insert
bfs_runs = tt

-- Each node is visited once, at its least depth.
bfs_value :
    ((r : TraversalResult) × (breadth_first_traversal everything two_roots (pos 5) ≡ some r)
      × (r.visited_nodes ≡ "a" ∷ "c" ∷ "b" ∷ [])
      × (r.traversal_metadata.statistics.max_queue_size ≡ 3))
unfolding bfs_runs
bfs_value = (_, refl, refl, refl)

-- The root nodes are as before.
forward_value : (forward_traversal everything two_roots ("b" ∷ []) (pos 5)).1 ≡ two_roots
unfolding bfs_runs
forward_value = refl

breadth_first_traversal-returns_example :
    (r : TraversalResult) × (breadth_first_traversal everything two_roots (pos 5) ≡ some r)
    × Reported everything two_roots (pos 5) r
    × ((n : String) → times n r.visited_nodes ≤ 1)
breadth_first_traversal-returns_example =
    breadth_first_traversal-returns everything two_roots (pos 5)
