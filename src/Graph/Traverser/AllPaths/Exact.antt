-- ===== src/Graph/Traverser/AllPaths/Exact.antt =====
-- `FindAllPaths` finds the simple paths and nothing else.
use function_kubecore_schema.Base.{
  ℕ, zero, suc, ◌+◌, ◌≤◌, ◌≡◌, ◌≢◌, refl, sym, ap, ◌∙◌, subst, ◌↔◌, inl, inr, Bool, true, false,
  some, List, [], ◌∷◌, ◌++◌, arith, string_eq, ◌==◌, ==_iff, Bool-cases, append_assoc, append-nil,
  Member-push, if◌then◌else◌, length, Member, ℤ, pos_part, lookup, lookup-insert, has,
}
use function_kubecore_schema.Graph.Types.{NodeId, EdgeId, ResourceEdge, ResourceGraph}
use function_kubecore_schema.Graph.Walks.{edges_of}
use function_kubecore_schema.Graph.Traverser.AllPaths.{
  PathResult, PathSearch, is_marked, mark, reach_depth, path_result, add_path, explore,
  find_all_paths_dfs, find_all_paths, start_search,
}
use function_kubecore_schema.Graph.Traverser.AllPaths.Simple.{Simple, targets, Hit}
use function_kubecore_schema.Graph.Traverser.AllPaths.Explore.{
  Reads, Effect, Effect-none, Effect-iff, HitVia, explore-Effect,
}

marked_mark :
    (n w : NodeId) (b : Bool) (s : PathSearch)
    → is_marked (mark n b s) w ≡ (if n == w then b else is_marked s w)
marked_mark n w b s = ground (arith, lookup-insert n w b s.visited)

Reads-mark :
    (n : NodeId) (s : PathSearch) (on : List NodeId) → Reads s on → Reads (mark n true s) (n ∷ on)
Reads-mark n s on r w = elim (Bool-cases (n == w)) [
  | inl same ↦
      rw (marked_mark n w true s) (rw same (λ _. inl (sym ((==_iff n w).0 same)), λ _. refl))
  | inr other ↦ rw (marked_mark n w true s) (
      rw other (
        λ h. inr ((r w).0 h),
        λ m. elim m [
          | inl same ↦ absurd (ground (arith, other, ==_iff n w, same))
          | inr old ↦ (r w).1 old
        ],
      ))
]

Reads-unmark :
    (n : NodeId) (s : PathSearch) (on : List NodeId)
    → ¬ (Member n on)
    → Reads s (n ∷ on)
    → Reads (mark n false s) on
Reads-unmark n s on free r w = elim (Bool-cases (n == w)) [
  | inl same ↦ rw (marked_mark n w false s) (
      rw same
        (λ h. cc, λ m. absurd (free (subst (λ x. Member x on) (sym ((==_iff n w).0 same)) m))))
  | inr other ↦ rw (marked_mark n w false s) (
      rw other (
        λ h. elim ((r w).0 h) [
          | inl same ↦ absurd (ground (arith, other, ==_iff n w, same))
          | inr old ↦ old
        ],
        λ m. (r w).1 (inr m),
      ))
]

Reads-start : Reads start_search []
unfolding lookup
Reads-start n = (λ h. cc, λ h. absurd h)

module _ (g : ResourceGraph) (target : NodeId) where
  arrived_back :
      (left : ℕ) (on : List NodeId) (u : NodeId) (path : List NodeId) (edges : List EdgeId)
      (p : PathResult)
      → u ≡ target
      → Hit g target left on u path edges p
      → p ≡ path_result path edges
  arrived_back left on u path edges p there ([], short, simple, same) =
      rw (append-nil path) at (rw (append-nil edges) at same)
  arrived_back left on u path edges p there (id ∷ ids, short, simple, same) =
      absurd (simple.0 there)

  Hit-arrived :
      (left : ℕ) (on : List NodeId) (u : NodeId) (path : List NodeId) (edges : List EdgeId)
      (p : PathResult)
      → u ≡ target
      → (p ≡ path_result path edges) ↔ Hit g target left on u path edges p
  Hit-arrived left on u path edges p there = (
    λ same. ([], omega arith, there, rw (append-nil path) (rw (append-nil edges) same)),
    arrived_back left on u path edges p there,
  )

  Hit-stopped :
      (on : List NodeId) (u : NodeId) (path : List NodeId) (edges : List EdgeId) (p : PathResult)
      → u ≢ target
      → ¬ (Hit g target 0 on u path edges p)
  Hit-stopped on u path edges p ne ([], short, simple, same) = ne simple
  Hit-stopped on u path edges p ne (id ∷ ids, short, simple, same) = omega arith

  -- The path behind one more edge.
  path_result-step :
      (path : List NodeId) (edges : List EdgeId) (id : EdgeId) (ids : List EdgeId)
      (e : ResourceEdge)
      → lookup id g.edges ≡ some e
      → path_result (path ++ targets g (id ∷ ids)) (edges ++ id ∷ ids)
        ≡ path_result ((path ++ e.target ∷ []) ++ targets g ids) ((edges ++ id ∷ []) ++ ids)
  path_result-step path edges id ids e found =
      let step : targets g (id ∷ ids) ≡ e.target ∷ targets g ids = rw (found, targets) refl in
      rw (append_assoc path (e.target ∷ []) (targets g ids)) (
        rw (append_assoc edges (id ∷ []) ids)
          (ap (λ t. path_result (path ++ t) (edges ++ id ∷ ids)) step))

  through :
      (left : ℕ) (on : List NodeId) (u : NodeId) (path : List NodeId) (edges : List EdgeId)
      (p : PathResult)
      → u ≢ target
      → Hit g target (suc left) on u path edges p
      → HitVia g target left (u ∷ on) path edges (edges_of g u) p
  through left on u path edges p ne ([], short, simple, same) = absurd (ne simple)
  through left on u path edges p ne
        (id ∷ ids, short, (away, member, (e, found, free, simple)), same) =
      (
        id,
        member,
        (
          e,
          found,
          free,
          (ids, omega arith, simple, same ∙ path_result-step path edges id ids e found),
        ),
      )

  Hit-through :
      (left : ℕ) (on : List NodeId) (u : NodeId) (path : List NodeId) (edges : List EdgeId)
      (p : PathResult)
      → u ≢ target
      → HitVia g target left (u ∷ on) path edges (edges_of g u) p
        ↔ Hit g target (suc left) on u path edges p
  Hit-through left on u path edges p ne = (
    λ (id, member, (e, found, free, (ids, short, simple, same))). (
      id ∷ ids,
      omega arith,
      (ne, member, (e, found, free, simple)),
      same ∙ sym (path_result-step path edges id ids e found),
    ),
    through left on u path edges p ne,
  )

  add_path-Effect :
      (left depth : ℕ) (on : List NodeId) (u : NodeId) (path : List NodeId) (edges : List EdgeId)
      (s : PathSearch)
      → Reads s on
      → u ≡ target
      → Effect on (Hit g target left on u path edges) s (add_path path edges (reach_depth depth s))
  add_path-Effect left depth on u path edges s r there =
      Effect-iff (λ p. Hit-arrived left on u path edges p there)
        (record { reads = r; paths = λ p. Member-push p (path_result path edges) s.paths })

  dfs-Effect :
      (left depth : ℕ) (u : NodeId) (path : List NodeId) (edges : List EdgeId) (s : PathSearch)
      (on : List NodeId)
      → Reads s on
      → ¬ (Member u on)
      → Effect on
          (Hit g target left on u path edges)
          s
          (find_all_paths_dfs g target left depth u path edges s)
  unfolding find_all_paths_dfs
  dfs-Effect zero depth u path edges s on r free = elim (Bool-cases (u == target)) [
    | inl there ↦ rw there (add_path-Effect 0 depth on u path edges s r ((==_iff u target).0 there))
    | inr away ↦
        let ne : u ≢ target = λ same. ground (arith, away, ==_iff u target, same) in
        rw away (record {
          reads = r;
          paths =
              (Effect-none {P = Hit g target 0 on u path edges} {s = s} r
                (λ p. Hit-stopped on u path edges p ne)).paths;
        })
  ]
  dfs-Effect (suc left) depth u path edges s on r free = elim (Bool-cases (u == target)) [
    | inl there ↦
        rw (there, find_all_paths_dfs)
          (add_path-Effect (suc left) depth on u path edges s r ((==_iff u target).0 there))
    | inr away ↦
        let ne : u ≢ target = λ same. ground (arith, away, ==_iff u target, same) in
        let inner =
          explore-Effect g target left (u ∷ on) path edges
            (find_all_paths_dfs g target left (depth + 1))
            (λ n path' edges' s' r' free'.
              dfs-Effect left (depth + 1) n path' edges' s' (u ∷ on) r' free')
            (edges_of g u) (mark u true (reach_depth depth s))
            (Reads-mark u (reach_depth depth s) on r) in
        rw (away, find_all_paths_dfs)
          (record {
            reads =
                Reads-unmark u
                  (explore (find_all_paths_dfs g target left (depth + 1)) g path edges
                    (edges_of g u) (mark u true (reach_depth depth s)))
                  on free inner.reads;
            paths = λ p. (Effect-iff (λ q. Hit-through left on u path edges q ne) inner).paths p;
          })
  ]

-- `FindAllPaths` between two nodes of the graph finds a result if and only if it is that of a simple
-- path of at most `maxDepth` edges from the source to the target: edges of the graph, each from the
-- adjacency list of the node before it, with no node twice and the target only at the end. If the
-- source or the target is no node of the graph, it finds none.
pub find_all_paths-Simple :
    (g : ResourceGraph) (source target : NodeId) (max_depth : ℤ) (p : PathResult)
    → Member p (find_all_paths g source target max_depth).paths ↔ (
        (has source g.nodes ≡ true)
        × (has target g.nodes ≡ true)
        × ((ids : List EdgeId) × (length ids ≤ pos_part max_depth)
            × Simple g target [] source ids
            × (p ≡ path_result (source ∷ targets g ids) ids)))
unfolding find_all_paths
find_all_paths-Simple g source target max_depth p = elim (Bool-cases (has source g.nodes)) [
  | inr no_source ↦ rw no_source (λ h. absurd h, λ h. cc (h.0))
  | inl s ↦ elim (Bool-cases (has target g.nodes)) [
    | inr no_target ↦ rw (s, no_target) (λ h. absurd h, λ h. cc (h.1))
    | inl t ↦
        let run =
          (dfs-Effect g target (pos_part max_depth) 0 source (source ∷ []) [] start_search []
              Reads-start (λ m. m)).paths
            p in
        rw (s, t)
          (
            λ h. elim (run.0 h) [ inl old ↦ absurd old | inr new ↦ (refl, refl, new) ],
            λ h. run.1 (inr h.2),
          )
  ]
]
