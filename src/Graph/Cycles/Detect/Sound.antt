-- ===== src/Graph/Cycles/Detect/Sound.antt =====
-- Every cycle that `DetectCycles` reports is one of the graph.
use function_kubecore_schema.Base.{
  ℕ, zero, suc, ◌≡◌, refl, sym, inl, inr, true, false, List, [], ◌∷◌, ◌++◌, arith, ℤ, string_eq,
  ◌==◌, ==_iff, Bool-cases, Option-cases, Dict, lookup, lookup-insert, get_or, has, Member,
  Member-push, All, All-append,
}
use function_kubecore_schema.Graph.Types.{NodeId, EdgeId, ResourceNode, ResourceGraph}
use function_kubecore_schema.Graph.Walks.{edges_of}
use function_kubecore_schema.Graph.Cycles.Detect.{
  Detection, is_on_stack, add_cycle, push_node, release, scan, dfs_detect_cycles, detect_all,
  new_detection, rounds, detect_cycles, detect_cycles_from_node, create_cycle_from_path,
}
use function_kubecore_schema.Graph.Cycles.Detect.Chain.{
  Leads, Chain, Chain-push, Genuine, create_cycle-Genuine,
}

-- What is on the recursion stack is on the path, and every cycle so far is one of the graph.
abbrev Good : ResourceGraph → List NodeId → Detection → Type 0
Good g path d = ((n : NodeId) → is_on_stack d n ≡ true → Member n path) × All (Genuine g) d.cycles

module _ (g : ResourceGraph) where
  push-Good :
      (path : List NodeId) (n : NodeId) (depth : ℕ) (d : Detection)
      → Good g path d
      → Good g (path ++ n ∷ []) (push_node n depth d)
  push-Good path n depth d (on, cycles) = (
    λ m h. elim (Bool-cases (n == m)) [
      | inl same ↦ (Member-push m n path).1 (inr (sym ((==_iff n m).0 same)))
      | inr other ↦
          (Member-push m n path).1
            (inl (on m (ground (arith, h, other, lookup-insert n m true d.recursion_stack))))
    ],
    cycles,
  )

  release-Good :
      (path : List NodeId) (n : NodeId) (d : Detection)
      → Good g (path ++ n ∷ []) d
      → Good g path (release n d)
  release-Good path n d (on, cycles) = (
    λ m h. elim (Bool-cases (n == m)) [
      | inl same ↦ absurd (ground (arith, h, same, lookup-insert n m false d.recursion_stack))
      | inr other ↦
          elim ((Member-push m n path).0
            (on m (ground (arith, h, other, lookup-insert n m false d.recursion_stack)))) [
              | inl there ↦ there
              | inr e ↦ absurd (ground (arith, ==_iff n m, other, e))
            ]
    ],
    cycles,
  )

  scan-Good :
      (visit : NodeId → List EdgeId → Detection → Detection) (path : List NodeId) (n : NodeId)
      (edges ids : List EdgeId) (d : Detection)
      → ((m : NodeId) (es : List EdgeId) (s : Detection)
          → Chain g ((path ++ n ∷ []) ++ m ∷ []) es
          → Good g (path ++ n ∷ []) s
          → Good g (path ++ n ∷ []) (visit m es s))
      → Chain g (path ++ n ∷ []) edges
      → ((id : EdgeId) → Member id ids → Member id (edges_of g n))
      → Good g (path ++ n ∷ []) d
      → Good g (path ++ n ∷ []) (scan visit g (path ++ n ∷ []) edges ids d)
  unfolding scan
  scan-Good visit path n edges [] d v c listed good = good
  scan-Good visit path n edges (id ∷ ids) d v c listed good =
      let later : (x : EdgeId) → Member x ids → Member x (edges_of g n) = λ x h. listed x (inr h) in
      elim (Option-cases (lookup id g.edges)) [
        | inl absent ↦ rw (absent, scan) (scan-Good visit path n edges ids d v c later good)
        | inr (e, found) ↦
            let leads : Leads g n id e.target = (listed id (inl refl), (e, found, refl)) in
            elim (Bool-cases (is_on_stack d e.target)) [
              | inl on ↦
                  let cycle =
                    create_cycle_from_path g (path ++ n ∷ []) (edges ++ id ∷ []) e.target in
                  rw (found, scan)
                    (rw (on, scan)
                      (scan-Good visit path n edges ids (add_cycle cycle d) v c later (
                        good.0,
                        All-append (Genuine g) d.cycles (cycle ∷ []) good.1 (
                          create_cycle-Genuine g path n edges id e.target c leads
                              (good.0 e.target on),
                          tt,
                        ),
                      )))
              | inr off ↦ elim (Bool-cases (get_or e.target d.visited false)) [
                | inl seen ↦
                    rw (found, scan)
                      (rw (off, scan)
                        (rw (seen, scan) (scan-Good visit path n edges ids d v c later good)))
                | inr new ↦
                    rw (found, scan)
                      (rw (off, scan)
                        (rw (new, scan)
                          (scan-Good visit path n edges ids (visit e.target (edges ++ id ∷ []) d) v
                            c later
                            (v e.target (edges ++ id ∷ []) d
                              (Chain-push g path edges n e.target id c leads) good))))
              ]
            ]
      ]

  dfs-Good :
      (left depth : ℕ) (n : NodeId) (path : List NodeId) (edges : List EdgeId) (d : Detection)
      → Chain g (path ++ n ∷ []) edges
      → Good g path d
      → Good g path (dfs_detect_cycles g left depth n path edges d)
  unfolding dfs_detect_cycles
  dfs-Good zero depth n path edges d c good = good
  dfs-Good (suc left) depth n path edges d c good =
      release-Good path n
        (scan (λ m ids s. dfs_detect_cycles g left (suc depth) m (path ++ n ∷ []) ids s) g
          (path ++ n ∷ []) edges (edges_of g n) (push_node n depth d))
        (scan-Good (λ m ids s. dfs_detect_cycles g left (suc depth) m (path ++ n ∷ []) ids s) path n
          edges (edges_of g n) (push_node n depth d)
          (λ m es s c' good'. dfs-Good left (suc depth) m (path ++ n ∷ []) es s c' good') c
          (λ id h. h) (push-Good path n depth d good))

  all-Good :
      (left : ℕ) (nodes : Dict NodeId ResourceNode) (d : Detection)
      → Good g [] d
      → Good g [] (detect_all g left nodes d)
  unfolding detect_all
  all-Good left [] d good = good
  all-Good left ((n, node) ∷ nodes) d good = elim (Bool-cases (get_or n d.visited false)) [
    | inl seen ↦ rw (seen, detect_all) (all-Good left nodes d good)
    | inr new ↦
        rw (new, detect_all)
          (all-Good left nodes (dfs_detect_cycles g left 0 n [] [] d)
            (dfs-Good left 0 n [] [] d tt good))
  ]

  Good-new : Good g [] new_detection
  unfolding lookup
  Good-new = (λ n h. cc, tt)

  -- Every cycle that `DetectCycles` reports, whatever the maximal depth, is one of the graph: its nodes
  -- begin and end with the same node, and its edges, each listed for a node of the cycle, lead from
  -- that node to the next one.
  pub detect_cycles-Genuine : (max_depth : ℤ) → All (Genuine g) (detect_cycles max_depth g).cycles
  unfolding detect_cycles
  detect_cycles-Genuine max_depth = (all-Good (rounds max_depth) g.nodes new_detection Good-new).1

  pub detect_cycles_from_node-Genuine :
      (max_depth : ℤ) (start : NodeId)
      → All (Genuine g) (detect_cycles_from_node max_depth g start).cycles
  unfolding detect_cycles_from_node
  detect_cycles_from_node-Genuine max_depth start = elim (Bool-cases (has start g.nodes)) [
    | inl there ↦ rw there (dfs-Good (rounds max_depth) 0 start [] [] new_detection tt Good-new).1
    | inr absent ↦ rw absent tt
  ]
