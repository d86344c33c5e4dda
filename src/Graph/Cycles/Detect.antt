-- ===== src/Graph/Cycles/Detect.antt =====
-- `DetectCycles` and `DetectCyclesFromNode` of cycle_detector.go. `left` is `maxDepth - depth + 1`, or zero
-- where the code returns for the depth. The maps and the result, which the calls share, are passed along.
pub mod Chain
pub mod Sound
use function_kubecore_schema.Base.{
  ℕ, zero, suc, ◌+◌, String, Bool, true, false, Option, none, some, List, [], ◌∷◌, ◌++◌, string_eq,
  ◌==◌, if◌then◌else◌, ltb, length, ℤ, pos, negsuc, add_ℤ, Dict, lookup, insert, get_or, has, drop,
}
use function_kubecore_schema.Graph.Types.{
  NodeId, EdgeId, RelationType, Cycle, ResourceNode, ResourceEdge, ResourceGraph,
}
use function_kubecore_schema.Graph.Walks.{edges_of}

-- The weight is in hundredths.
pub record DetectedCycle : Type 0 where
  pub cycle : Cycle
  pub cycle_length : ℕ
  pub is_simple : Bool
  pub weight : ℤ
  pub reference_types : List RelationType

-- Less the time.
pub record CycleDetectionResult : Type 0 where
  pub cycles_found : Bool
  pub cycles : List DetectedCycle
  pub total_cycles : ℕ
  pub simple_cycles : List DetectedCycle
  pub complex_cycles : List DetectedCycle
  pub nodes_analyzed : ℕ
  pub edges_analyzed : ℕ
  pub max_depth_reached : ℕ
  pub backtrack_count : ℕ

-- What the recursion shares.
pub record Detection : Type 0 where
  pub visited : Dict NodeId Bool
  pub recursion_stack : Dict NodeId Bool
  pub cycles : List DetectedCycle
  pub max_depth_reached : ℕ
  pub backtrack_count : ℕ

-- The index of the first occurrence.
unfoldable pub index_of : NodeId → List NodeId → Option ℕ
index_of n [] = none
index_of n (m ∷ ms) =
    let rest = index_of n ms in
    if m == n then some 0 else elim rest [ none ↦ none | some i ↦ some (suc i) ]

unfoldable pub relation_types : ResourceGraph → List EdgeId → List RelationType
relation_types g [] = []
relation_types g (id ∷ ids) =
    let rest = relation_types g ids in
    elim (lookup id g.edges) [ none ↦ rest | some e ↦ e.relation_type ∷ rest ]

unfoldable pub total_weight : ResourceGraph → List EdgeId → ℤ
total_weight g [] = pos 0
total_weight g (id ∷ ids) =
    let rest = total_weight g ids in
    elim (lookup id g.edges) [ none ↦ rest | some e ↦ add_ℤ e.confidence rest ]

-- No node comes twice, nor is in the set.
unfoldable pub all_new : List NodeId → Dict NodeId Bool → Bool
all_new [] set = true
all_new (n ∷ ns) set =
    let rest = all_new ns (insert n true set) in if get_or n set false then false else rest

abbrev pub unknown_cycle : NodeId → DetectedCycle
unknown_cycle start = record {
  cycle = record { nodes = start ∷ []; edges = []; cycle_type = "unknown" };
  cycle_length = 0;
  is_simple = false;
  weight = pos 0;
  reference_types = [];
}

abbrev pub cycle_of : ResourceGraph → NodeId → List NodeId → List EdgeId → DetectedCycle
cycle_of g start nodes edges = record {
  cycle = record {
    nodes = nodes ++ start ∷ [];
    edges = edges;
    cycle_type = if all_new nodes [] then "simple" else "complex";
  };
  cycle_length = length edges;
  is_simple = all_new nodes [];
  weight = total_weight g edges;
  reference_types = relation_types g edges;
}

-- `createCycleFromPath`
unfoldable pub create_cycle_from_path :
    ResourceGraph → List NodeId → List EdgeId → NodeId → DetectedCycle
create_cycle_from_path g path edges start = elim (index_of start path) [
  | none ↦ unknown_cycle start
  | some i ↦ cycle_of g start (drop i path) (drop i edges)
]

abbrev pub is_on_stack : Detection → NodeId → Bool
is_on_stack d n = get_or n d.recursion_stack false

abbrev pub add_cycle : DetectedCycle → Detection → Detection
add_cycle c d = record d { cycles = d.cycles ++ c ∷ []; backtrack_count = suc d.backtrack_count }

-- The start of `dfsDetectCycles` for a node.
abbrev pub push_node : NodeId → ℕ → Detection → Detection
push_node n depth d = record d {
  visited = insert n true d.visited;
  recursion_stack = insert n true d.recursion_stack;
  max_depth_reached = if ltb d.max_depth_reached depth then depth else d.max_depth_reached;
}

abbrev pub release : NodeId → Detection → Detection
release n d = record d { recursion_stack = insert n false d.recursion_stack }

-- The loop over the edges. `visit` is the recursive call; it gets the stack of edges.
unfoldable pub scan :
    (NodeId → List EdgeId → Detection → Detection)
    → ResourceGraph
    → List NodeId
    → List EdgeId
    → List EdgeId
    → Detection
    → Detection
scan visit g path edges [] d = d
scan visit g path edges (id ∷ ids) d = elim (lookup id g.edges) [
  | none ↦ scan visit g path edges ids d
  | some e ↦ elim (is_on_stack d e.target) [
    | true ↦
        scan visit g path edges ids
          (add_cycle (create_cycle_from_path g path (edges ++ id ∷ []) e.target) d)
    | false ↦ elim (get_or e.target d.visited false) [
      | true ↦ scan visit g path edges ids d
      | false ↦ scan visit g path edges ids (visit e.target (edges ++ id ∷ []) d)
    ]
  ]
]

-- `dfsDetectCycles`
unfoldable pub dfs_detect_cycles :
    ResourceGraph → ℕ → ℕ → NodeId → List NodeId → List EdgeId → Detection → Detection
dfs_detect_cycles g zero depth n path edges d = d
dfs_detect_cycles g (suc left) depth n path edges d = release n (
    scan (λ m ids s. dfs_detect_cycles g left (suc depth) m (path ++ n ∷ []) ids s) g
      (path ++ n ∷ []) edges (edges_of g n) (push_node n depth d))

-- The loop over the nodes.
unfoldable pub detect_all : ResourceGraph → ℕ → Dict NodeId ResourceNode → Detection → Detection
detect_all g left [] d = d
detect_all g left ((n, node) ∷ nodes) d =
    if get_or n d.visited false
    then detect_all g left nodes d
    else detect_all g left nodes (dfs_detect_cycles g left 0 n [] [] d)

abbrev pub new_detection : Detection
new_detection = record {
  visited = [];
  recursion_stack = [];
  cycles = [];
  max_depth_reached = 0;
  backtrack_count = 0;
}

-- The cycles that are simple, or those that are not.
unfoldable pub cycles_with : Bool → List DetectedCycle → List DetectedCycle
cycles_with true [] = []
cycles_with true (c ∷ cs) = let rest = cycles_with true cs in if c.is_simple then c ∷ rest else rest
cycles_with false [] = []
cycles_with false (c ∷ cs) =
    let rest = cycles_with false cs in if c.is_simple then rest else c ∷ rest

-- How many rounds `maxDepth` allows: depths from zero to it.
abbrev pub rounds : ℤ → ℕ
rounds (pos n) = suc n
rounds (negsuc n) = 0

unfoldable pub detect_cycles : ℤ → ResourceGraph → CycleDetectionResult
detect_cycles max_depth g =
    let d = detect_all g (rounds max_depth) g.nodes new_detection in
    record {
      cycles_found = ltb 0 (length d.cycles);
      cycles = d.cycles;
      total_cycles = length d.cycles;
      simple_cycles = cycles_with true d.cycles;
      complex_cycles = cycles_with false d.cycles;
      nodes_analyzed = length g.nodes;
      edges_analyzed = length g.edges;
      max_depth_reached = d.max_depth_reached;
      backtrack_count = d.backtrack_count;
    }

abbrev pub from_node : CycleDetectionResult → Detection → CycleDetectionResult
from_node r d = record r {
  cycles_found = ltb 0 (length d.cycles);
  cycles = d.cycles;
  total_cycles = length d.cycles;
  max_depth_reached = d.max_depth_reached;
  backtrack_count = d.backtrack_count;
}

abbrev pub no_cycles : CycleDetectionResult
no_cycles = record {
  cycles_found = false;
  cycles = [];
  total_cycles = 0;
  simple_cycles = [];
  complex_cycles = [];
  nodes_analyzed = 0;
  edges_analyzed = 0;
  max_depth_reached = 0;
  backtrack_count = 0;
}

unfoldable pub detect_cycles_from_node : ℤ → ResourceGraph → NodeId → CycleDetectionResult
detect_cycles_from_node max_depth g start =
    if has start g.nodes
    then from_node no_cycles (dfs_detect_cycles g (rounds max_depth) 0 start [] [] new_detection)
    else no_cycles
