-- ===== src/Graph/Cycles/HasCycle.antt =====
-- `HasCycle` and `dfsHasCycle` of cycle_detector.go. The recursion takes fuel: `none` is fuel that
-- ran out. The maps `visited` and `recursionStack` are passed along.
use function_kubecore_schema.Base.{
  ℕ, zero, suc, ◌+◌, Bool, true, false, Option, none, some, List, [], ◌∷◌, string_eq, length, Dict,
  lookup, insert, get_or,
}
use function_kubecore_schema.Graph.Types.{NodeId, EdgeId, ResourceNode, ResourceGraph}
use function_kubecore_schema.Graph.Walks.{edges_of}

pub record Marks : Type 0 where
  pub visited : Dict NodeId Bool
  pub recursion_stack : Dict NodeId Bool

abbrev pub is_visited : Marks → NodeId → Bool
is_visited s n = get_or n s.visited false

abbrev pub on_stack : Marks → NodeId → Bool
on_stack s n = get_or n s.recursion_stack false

unfoldable pub enter : NodeId → Marks → Marks
enter n s = record {
  visited = insert n true s.visited;
  recursion_stack = insert n true s.recursion_stack;
}

unfoldable pub leave : NodeId → Marks → Marks
leave n s = record s { recursion_stack = insert n false s.recursion_stack }

-- `if f() { return true }`, then the rest.
unfoldable pub unless_found :
    Option (Bool × Marks) → (Marks → Option (Bool × Marks)) → Option (Bool × Marks)
unless_found none rest = none
unless_found (some (true, s)) rest = some (true, s)
unless_found (some (false, s)) rest = rest s

-- The loop over the edges of a node. `visit` is the recursive call.
unfoldable pub scan_edges :
    (NodeId → Marks → Option (Bool × Marks))
    → ResourceGraph
    → List EdgeId
    → Marks
    → Option (Bool × Marks)
unfolding unless_found
scan_edges visit g [] s = some (false, s)
scan_edges visit g (id ∷ ids) s = elim (lookup id g.edges) [
  | none ↦ scan_edges visit g ids s
  | some edge ↦ elim (on_stack s edge.target) [
    | true ↦ some (true, s)
    | false ↦ elim (is_visited s edge.target) [
      | true ↦ scan_edges visit g ids s
      | false ↦ unless_found (visit edge.target s) (λ s'. scan_edges visit g ids s')
    ]
  ]
]

unfoldable pub dfs_has_cycle : ℕ → ResourceGraph → NodeId → Marks → Option (Bool × Marks)
dfs_has_cycle zero g n s = none
dfs_has_cycle (suc fuel) g n s =
    unless_found (scan_edges (dfs_has_cycle fuel g) g (edges_of g n) (enter n s))
      (λ s'. some (false, leave n s'))

-- The loop over the nodes of the graph.
unfoldable pub any_cycle :
    ℕ → ResourceGraph → Dict NodeId ResourceNode → Marks → Option (Bool × Marks)
any_cycle fuel g [] s = some (false, s)
any_cycle fuel g ((id, _) ∷ rest) s = elim (is_visited s id) [
  | true ↦ any_cycle fuel g rest s
  | false ↦ unless_found (dfs_has_cycle fuel g id s) (λ s'. any_cycle fuel g rest s')
]

abbrev pub no_marks : Marks
no_marks = record { visited = []; recursion_stack = [] }

abbrev pub answer : Option (Bool × Marks) → Option Bool
answer none = none
answer (some (found, _)) = some found

-- Each call marks a node of the graph or a target of an edge, so this much fuel is enough.
unfoldable pub has_cycle : ResourceGraph → Option Bool
unfolding any_cycle dfs_has_cycle unless_found scan_edges enter leave edges_of
has_cycle g = answer (any_cycle (length g.nodes + length g.edges) g g.nodes no_marks)
