-- ===== src/Graph/Traverser/AllPaths/Shortest.antt =====
-- The shortest of the paths that `FindAllPaths` finds.
use function_kubecore_schema.Base.{
  ◌≤◌, ◌≡◌, refl, sym, ap, ◌∙◌, subst, inl, inr, true, some, List, [], ◌∷◌, arith, string_eq,
  Bool-cases, ltb, length, Member, ℤ, pos_part, has,
}
use function_kubecore_schema.Graph.Types.{NodeId, EdgeId, ResourceGraph}
use function_kubecore_schema.Graph.Traverser.AllPaths.{
  PathResult, path_result, shortest_of, shortest_path_of, find_all_paths,
}
use function_kubecore_schema.Graph.Traverser.AllPaths.Simple.{Simple, targets}
use function_kubecore_schema.Graph.Traverser.AllPaths.Exact.{find_all_paths-Simple}

-- `q` is one of the paths, and none of them is shorter.
abbrev pub IsShortest : PathResult → List PathResult → Type 0
IsShortest q ps = Member q ps × ((p : PathResult) → Member p ps → q.path_length ≤ p.path_length)

shortest_of-IsShortest :
    (s : PathResult) (ps : List PathResult) → IsShortest (shortest_of s ps) (s ∷ ps)
unfolding shortest_of
shortest_of-IsShortest s [] =
    (inl refl, λ p m. elim m [ inl same ↦ rw same (omega arith) | inr h ↦ absurd h ])
shortest_of-IsShortest s (r ∷ ps) = elim (Bool-cases (ltb r.path_length s.path_length)) [
  | inl shorter ↦
      let step : shortest_of s (r ∷ ps) ≡ shortest_of r ps = rw shorter refl in
      let ih = shortest_of-IsShortest r ps in
      subst (λ q. IsShortest q (s ∷ r ∷ ps)) (sym step)
        (
          inr ih.0,
          λ p m. elim m [
            | inl same ↦ rw same (ground (arith, shorter, ih.1 r (inl refl)))
            | inr later ↦ ih.1 p later
          ],
        )
  | inr longer ↦
      let step : shortest_of s (r ∷ ps) ≡ shortest_of s ps = rw longer refl in
      let ih = shortest_of-IsShortest s ps in
      subst (λ q. IsShortest q (s ∷ r ∷ ps)) (sym step)
        (
          elim ih.0 [ inl same ↦ inl same | inr later ↦ inr (inr later) ],
          λ p m. elim m [
            | inl same ↦ ih.1 p (inl same)
            | inr (inl same) ↦ rw same (ground (arith, longer, ih.1 s (inl refl)))
            | inr (inr later) ↦ ih.1 p (inr later)
          ],
        )
]

shortest_path_of-IsShortest :
    (ps : List PathResult) (p : PathResult)
    → Member p ps
    → (q : PathResult) × (shortest_path_of ps ≡ some q) × IsShortest q ps
shortest_path_of-IsShortest [] p m = absurd m
shortest_path_of-IsShortest (r ∷ ps) p m = (shortest_of r ps, refl, shortest_of-IsShortest r ps)

shortest_field :
    (g : ResourceGraph) (source target : NodeId) (max_depth : ℤ)
    → (find_all_paths g source target max_depth).shortest_path
      ≡ shortest_path_of (find_all_paths g source target max_depth).paths
unfolding find_all_paths
shortest_field g source target max_depth = ground arith

-- If a simple path of at most `maxDepth` edges leads from the source to the target, two nodes of the
-- graph, then `FindAllPaths` reports a shortest one: a simple path that has no more edges than that.
pub find_all_paths-IsShortest :
    (g : ResourceGraph) (source target : NodeId) (max_depth : ℤ) (ids : List EdgeId)
    → has source g.nodes ≡ true
    → has target g.nodes ≡ true
    → length ids ≤ pos_part max_depth
    → Simple g target [] source ids
    → (best : List EdgeId) × ((find_all_paths g source target max_depth).shortest_path
        ≡ some (path_result (source ∷ targets g best) best))
      × Simple g target [] source best
      × (length best ≤ length ids)
find_all_paths-IsShortest g source target max_depth ids s t short simple =
    let result = find_all_paths g source target max_depth in
    let p = path_result (source ∷ targets g ids) ids in
    let member =
      (find_all_paths-Simple g source target max_depth p).1 (s, t, (ids, short, simple, refl)) in
    let (q, shown, (is, least)) = shortest_path_of-IsShortest result.paths p member in
    let (_, _, (best, _, simple', same)) =
      (find_all_paths-Simple g source target max_depth q).0 is in
    let length_q : q.path_length ≡ length best = ap (λ (r : PathResult). r.path_length) same in
    (
      best,
      shortest_field g source target max_depth ∙ shown ∙ ap some same,
      simple',
      omega (arith, least p member, length_q),
    )
