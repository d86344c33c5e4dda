-- ===== src/Graph/Traverser/AllPaths.antt =====
-- `FindAllPaths` and `findAllPathsDFS` of traverser.go. The map `visited` and the result, which the
-- code shares between the calls, are passed along. `left` is `maxDepth - currentDepth`, and zero where
-- that is negative: the code compares the two and nothing else.
pub mod Simple
pub mod Explore
pub mod Exact
pub mod Shortest
use function_kubecore_schema.Base.{
  ℕ, zero, suc, ◌+◌, Bool, true, false, Option, none, some, List, [], ◌∷◌, ◌++◌, string_eq, ◌==◌,
  if◌then◌else◌, ltb, length, ℤ, pos_part, Dict, lookup, insert, get_or, has,
}
use function_kubecore_schema.Graph.Types.{NodeId, EdgeId, ResourceGraph}
use function_kubecore_schema.Graph.Walks.{edges_of}

-- `TotalDistance` counts edges of weight one.
pub record PathResult : Type 0 where
  pub path : List NodeId
  pub edges : List EdgeId
  pub path_length : ℕ
  pub total_distance : ℕ
  pub found : Bool

pub record PathsResult : Type 0 where
  pub paths : List PathResult
  pub shortest_path : Option PathResult
  pub total_paths_found : ℕ
  pub search_depth_reached : ℕ

-- What the recursion shares: the marks, and the part of the result that it writes.
pub record PathSearch : Type 0 where
  pub visited : Dict NodeId Bool
  pub paths : List PathResult
  pub search_depth_reached : ℕ

abbrev pub is_marked : PathSearch → NodeId → Bool
is_marked s n = get_or n s.visited false

abbrev pub mark : NodeId → Bool → PathSearch → PathSearch
mark n b s = record s { visited = insert n b s.visited }

abbrev pub reach_depth : ℕ → PathSearch → PathSearch
reach_depth depth s = record s {
  search_depth_reached = if ltb s.search_depth_reached depth then depth else s.search_depth_reached;
}

abbrev pub path_result : List NodeId → List EdgeId → PathResult
path_result path edges = record {
  path = path;
  edges = edges;
  path_length = length edges;
  total_distance = length edges;
  found = true;
}

abbrev pub add_path : List NodeId → List EdgeId → PathSearch → PathSearch
add_path path edges s = record s { paths = s.paths ++ path_result path edges ∷ [] }

-- The loop over the edges of the current node. `visit` is the recursive call.
unfoldable pub explore :
    (NodeId → List NodeId → List EdgeId → PathSearch → PathSearch)
    → ResourceGraph
    → List NodeId
    → List EdgeId
    → List EdgeId
    → PathSearch
    → PathSearch
explore visit g path edges [] s = s
explore visit g path edges (id ∷ ids) s = elim (lookup id g.edges) [
  | none ↦ explore visit g path edges ids s
  | some edge ↦ elim (is_marked s edge.target) [
    | true ↦ explore visit g path edges ids s
    | false ↦
        explore visit g path edges ids
          (visit edge.target (path ++ edge.target ∷ []) (edges ++ id ∷ []) s)
  ]
]

-- `findAllPathsDFS`
unfoldable pub find_all_paths_dfs :
    ResourceGraph → NodeId → ℕ → ℕ → NodeId → List NodeId → List EdgeId → PathSearch → PathSearch
find_all_paths_dfs g target zero depth current path edges s =
    if current == target then add_path path edges (reach_depth depth s) else reach_depth depth s
find_all_paths_dfs g target (suc left) depth current path edges s = elim (current == target) [
  | true ↦ add_path path edges (reach_depth depth s)
  | false ↦ mark current false (
      explore (find_all_paths_dfs g target left (depth + 1)) g path edges (edges_of g current)
        (mark current true (reach_depth depth s)))
]

-- The loop for the shortest path behind the first one.
unfoldable pub shortest_of : PathResult → List PathResult → PathResult
shortest_of shortest [] = shortest
shortest_of shortest (p ∷ ps) =
    shortest_of (if ltb p.path_length shortest.path_length then p else shortest) ps

abbrev pub shortest_path_of : List PathResult → Option PathResult
shortest_path_of [] = none
shortest_path_of (p ∷ ps) = some (shortest_of p ps)

abbrev pub no_paths : PathsResult
no_paths = record {
  paths = [];
  shortest_path = none;
  total_paths_found = 0;
  search_depth_reached = 0;
}

abbrev pub start_search : PathSearch
start_search = record { visited = []; paths = []; search_depth_reached = 0 }

abbrev pub paths_result : PathSearch → PathsResult
paths_result s = record {
  paths = s.paths;
  shortest_path = shortest_path_of s.paths;
  total_paths_found = length s.paths;
  search_depth_reached = s.search_depth_reached;
}

-- `FindAllPaths`
unfoldable pub find_all_paths : ResourceGraph → NodeId → NodeId → ℤ → PathsResult
find_all_paths g source target max_depth =
    if has source g.nodes
    then if has target g.nodes
      then paths_result
          (find_all_paths_dfs g target (pos_part max_depth) 0 source (source ∷ []) [] start_search)
      else no_paths
    else no_paths
