-- ===== src/Graph/Cycles/Decides.antt =====
-- `HasCycle` decides whether a graph has a cycle.
use mathlib.Core.WellFounded.{Acc}
use function_kubecore_schema.Base.{
  ℕ, ◌+◌, ◌≤◌, ◌≡◌, refl, ap, sym, ◌∙◌, subst, Bool, true, false, Option, none, some, List, [], ◌∷◌,
  ◌++◌, map, arith, ◌⊎◌, ◌↔◌, inl, inr, Bool-cases, Option-cases, string_eq, ◌==◌, ==_iff, length,
  length-append, Member, Member-append_left, Member-append_right, count-le-length, not, Dict,
  lookup, has, Entries-lookup,
}
use function_kubecore_schema.Graph.Types.{NodeId, EdgeId, ResourceNode, ResourceEdge, ResourceGraph}
use function_kubecore_schema.Graph.Walks.{
  edges_of, edges_of-absent, CycleAt, Cyclic, Succ, Acc-acyclic,
}
use function_kubecore_schema.Graph.Builder.WellFormed.{AdjacencyOk, WellFormed}
use function_kubecore_schema.Graph.Cycles.HasCycle.{
  Marks, is_visited, on_stack, dfs_has_cycle, any_cycle, no_marks, answer, has_cycle,
}
use function_kubecore_schema.Graph.Cycles.Visited.{unvisited, unvisited_mono}
use function_kubecore_schema.Graph.Cycles.Search.{
  Inv, Passed-refl, Good, Good-after, Good-unless_found, dfs-Good,
}

abbrev keys : Dict NodeId ResourceNode → List NodeId
keys m = map (λ kv. kv.0) m

-- Every node that the search can reach: the nodes of the graph and the targets of its edges.
abbrev universe : ResourceGraph → List NodeId
universe g = keys g.nodes ++ map (λ kv. kv.1.target) g.edges

length-map {ℓ κ} :
    {A : Type ℓ} {B : Type κ} (f : A → B) (xs : List A) → length (map f xs) ≡ length xs
length-map f [] = refl
length-map f (x ∷ xs) = omega (arith, length-map f xs)

length-universe : (g : ResourceGraph) → length (universe g) ≡ length g.nodes + length g.edges
length-universe g = omega (
  arith,
  length-append (keys g.nodes) (map (λ kv. kv.1.target) g.edges),
  length-map (λ (kv : NodeId × ResourceNode). kv.0) g.nodes,
  length-map (λ (kv : EdgeId × ResourceEdge). kv.1.target) g.edges,
)

target-Member :
    (edges : Dict EdgeId ResourceEdge) (id : EdgeId) (e : ResourceEdge)
    → lookup id edges ≡ some e
    → Member e.target (map (λ kv. kv.1.target) edges)
unfolding lookup
target-Member [] id e h = cc
target-Member ((j, d) ∷ rest) id e h = elim (Bool-cases (j == id)) [
  | inl same ↦ inl (let q : d ≡ e = ground arith in ap (λ (x : ResourceEdge). x.target) (sym q))
  | inr other ↦ inr (target-Member rest id e (rw other at h))
]

key-Member :
    (nodes : Dict NodeId ResourceNode) (n : NodeId) → has n nodes ≡ true → Member n (keys nodes)
unfolding lookup
key-Member [] n h = cc
key-Member ((j, d) ∷ rest) n h = elim (Bool-cases (j == n)) [
  | inl same ↦ inl (sym ((==_iff j n).0 same))
  | inr other ↦ inr (key-Member rest n (rw other at h))
]

module _ (g : ResourceGraph) where
  targets_in :
      (id : EdgeId) (e : ResourceEdge) → lookup id g.edges ≡ some e → Member e.target (universe g)
  targets_in id e h = Member-append_right e.target (keys g.nodes) _ (target-Member g.edges id e h)

  -- The nodes of `rest` are done.
  abbrev AllDone : Dict NodeId ResourceNode → Type 0
  AllDone rest = (n : NodeId) → Member n (keys rest) → Acc (Succ g) n

  any_cycle-Good :
      (fuel : ℕ) (rest : Dict NodeId ResourceNode) (s : Marks)
      → ((n : NodeId) → Member n (keys rest) → Member n (universe g))
      → unvisited s (universe g) ≤ fuel
      → Inv g s
      → ((w : NodeId) → on_stack s w ≡ false)
      → Good g s (AllDone rest) (any_cycle fuel g rest s)
  unfolding any_cycle
  any_cycle-Good fuel [] s sub room inv off = (Passed-refl g inv, λ n m. absurd m)
  any_cycle-Good fuel ((id, node) ∷ rest) s sub room inv off = elim (Bool-cases (is_visited s id)) [
    | inl seen ↦
        rw (seen, any_cycle)
          (Good-after g (any_cycle fuel g rest s) (Passed-refl g inv)
            (add id (inv.finished id seen (off id)))
            (any_cycle-Good fuel rest s (λ n m. sub n (inr m)) room inv off))
    | inr fresh ↦
        rw (fresh, any_cycle)
          (Good-unless_found g s _ _ (dfs_has_cycle fuel g id s) _
            (dfs-Good g (universe g) targets_in fuel id s (sub id (inl refl)) fresh room inv
              (λ w h. absurd (ground (arith, off w))))
            (λ t p acc. Good-after g (any_cycle fuel g rest t) (Passed-refl g p.inv) (add id acc) (
              any_cycle-Good fuel rest t (λ n m. sub n (inr m))
                (omega (arith, unvisited_mono s t (universe g) p.spreads)) p.inv
                (λ w. p.same_stack w ∙ off w))))
  ]
    where
      add :
          (k : NodeId)
          → Acc (Succ g) k
          → AllDone rest
          → (n : NodeId) → (n ≡ k) ⊎ Member n (keys rest)
          → Acc (Succ g) n
      add k acc h n (inl same) = subst (λ x. Acc (Succ g) x) (sym same) acc
      add k acc h n (inr m) = h n m

  Inv-no_marks : Inv g no_marks
  unfolding lookup
  Inv-no_marks = record { finished = λ w v o. cc; marked = λ w o. cc }

  search :
      Good g no_marks
        (AllDone g.nodes)
        (any_cycle (length g.nodes + length g.edges) g g.nodes no_marks)
  unfolding lookup
  search =
      any_cycle-Good (length g.nodes + length g.edges) g.nodes no_marks
        (λ n m. Member-append_left n (keys g.nodes) _ m)
        (omega (
          arith,
          length-universe g,
          count-le-length (λ n. not (is_visited no_marks n)) (universe g),
        ))
        Inv-no_marks (λ w. refl)

  -- A cycle goes through a node of a well-formed graph.
  cycle_in_nodes : WellFormed g → (n : NodeId) → CycleAt g n → has n g.nodes ≡ true
  unfolding edges_of
  cycle_in_nodes w n (m, e, _) = elim (Option-cases (lookup n g.adjacency_list)) [
    | inl absent ↦ absurd (subst (λ l. Member e.id l) (edges_of-absent g n absent) e.member)
    | inr (ids, listed) ↦
        (Entries-lookup (AdjacencyOk (λ x. x.source) g.nodes g.edges) n g.adjacency_list ids
          w.adjacency_ok listed).0
  ]

judge :
    (g : ResourceGraph) (r : Option (Bool × Marks))
    → WellFormed g
    → Good g no_marks (AllDone g g.nodes) r
    → (b : Bool) × (answer r ≡ some b) × ((b ≡ true) ↔ Cyclic g)
judge g none w h = absurd h
judge g (some (true, s)) w h = (true, refl, (λ _. h, λ _. refl))
judge g (some (false, s)) w h = (
  false,
  refl,
  (
    λ q. absurd (ground arith),
    λ (n, c). absurd (Acc-acyclic g n (h.1 n (key-Member g.nodes n (cycle_in_nodes g w n c))) c),
  ),
)

-- On a well-formed graph `HasCycle` returns, and it returns true if and only if some closed walk
-- along the edges leads from a node back to it.
pub has_cycle_decides :
    (g : ResourceGraph)
    → WellFormed g
    → (b : Bool) × (has_cycle g ≡ some b) × ((b ≡ true) ↔ Cyclic g)
unfolding has_cycle
has_cycle_decides g w = judge g _ w (search g)
