-- ===== src/Graph/Cycles/Detect/Chain.antt =====
-- Nodes joined by edges, as the stacks of the cycle detector hold them.
use function_kubecore_schema.Base.{
  suc, ◌≡◌, refl, sym, ap, subst, inl, inr, none, some, List, [], ◌∷◌, ◌++◌, arith, string_eq, ◌==◌,
  ==_iff, Bool-cases, Option-cases, lookup, Member, ℕ, drop,
}
use function_kubecore_schema.Graph.Types.{NodeId, EdgeId, ResourceEdge, ResourceGraph}
use function_kubecore_schema.Graph.Walks.{edges_of}
use function_kubecore_schema.Graph.Cycles.Detect.{DetectedCycle, index_of, create_cycle_from_path}

-- `id` is listed for `u` and is an edge of the graph with the target `v`.
abbrev pub Leads : ResourceGraph → NodeId → EdgeId → NodeId → Type 0
Leads g u id v =
    Member id (edges_of g u) × ((e : ResourceEdge) × (lookup id g.edges ≡ some e) × (e.target ≡ v))

-- Each edge leads from a node to the next one.
abbrev pub Chain : ResourceGraph → List NodeId → List EdgeId → Type 0
Chain g [] ids = ⊥
Chain g (n ∷ []) [] = Unit
Chain g (n ∷ []) (id ∷ ids) = ⊥
Chain g (n ∷ m ∷ ns) [] = ⊥
Chain g (n ∷ m ∷ ns) (id ∷ ids) = Leads g n id m × Chain g (m ∷ ns) ids

-- The nodes of the cycle begin and end with the same node, and its edges join them.
abbrev pub Genuine : ResourceGraph → DetectedCycle → Type 0
Genuine g c =
    (start : NodeId) × ((rest : List NodeId) × (c.cycle.nodes ≡ start ∷ (rest ++ start ∷ []))
      × Chain g c.cycle.nodes c.cycle.edges)

module _ (g : ResourceGraph) where
  pub Chain-push :
      (ns : List NodeId) (ids : List EdgeId) (n m : NodeId) (id : EdgeId)
      → Chain g (ns ++ n ∷ []) ids
      → Leads g n id m
      → Chain g ((ns ++ n ∷ []) ++ m ∷ []) (ids ++ id ∷ [])
  Chain-push [] [] n m id c l = (l, tt)
  Chain-push [] (x ∷ ids) n m id c l = absurd c
  Chain-push (a ∷ []) [] n m id c l = absurd c
  Chain-push (a ∷ []) (x ∷ ids) n m id (h, c) l = (h, Chain-push [] ids n m id c l)
  Chain-push (a ∷ b ∷ ns) [] n m id c l = absurd c
  Chain-push (a ∷ b ∷ ns) (x ∷ ids) n m id (h, c) l = (h, Chain-push (b ∷ ns) ids n m id c l)

  Chain-rest :
      (t m : NodeId) (ms tail : List NodeId) (ids : List EdgeId) (j : ℕ)
      → index_of t ms ≡ some j
      → Chain g (m ∷ (ms ++ tail)) ids
      → (xs : List EdgeId) × ((x : EdgeId) × (ids ≡ x ∷ xs) × Chain g (ms ++ tail) xs)
  unfolding index_of
  Chain-rest t m [] tail ids j found c = cc
  Chain-rest t m (k ∷ ks) tail [] j found c = absurd c
  Chain-rest t m (k ∷ ks) tail (x ∷ xs) j found (_, c) = (xs, (x, refl, c))

  -- A chain from the first occurrence of a node on.
  Chain-drop :
      (t : NodeId) (ns tail : List NodeId) (ids : List EdgeId) (i : ℕ)
      → index_of t ns ≡ some i
      → Chain g (ns ++ tail) ids
      → ((rest : List NodeId) × (drop i ns ≡ t ∷ rest)) × Chain g (drop i ns ++ tail) (drop i ids)
  unfolding index_of
  Chain-drop t [] tail ids i h c = cc
  Chain-drop t (m ∷ ms) tail ids i h c =
      let Goal : ℕ → Type 0 = λ k.
        ((rest : List NodeId) × (drop k (m ∷ ms) ≡ t ∷ rest))
        × Chain g (drop k (m ∷ ms) ++ tail) (drop k ids) in
      elim (Bool-cases (m == t)) [
        | inl same ↦
            let at_head : index_of t (m ∷ ms) ≡ some 0 = rw same refl in
            let z : 0 ≡ i = cc in subst Goal z ((ms, ap (λ n. n ∷ ms) ((==_iff m t).0 same)), c)
        | inr other ↦ elim (Option-cases (index_of t ms)) [
          | inl absent ↦ let nowhere : index_of t (m ∷ ms) ≡ none = rw other (rw absent refl) in cc
          | inr (j, found) ↦
              let behind : index_of t (m ∷ ms) ≡ some (suc j) = rw other (rw found refl) in
              let z : suc j ≡ i = cc in
              let (xs, (x, split, c')) = Chain-rest t m ms tail ids j found c in
              let (starts, joined) = Chain-drop t ms tail xs j found c' in
              subst Goal z (
                starts,
                subst (λ l. Chain g (drop j ms ++ tail) (drop (suc j) l)) (sym split) joined,
              )
        ]
      ]

  pub index_of-some :
      (t : NodeId) (ns : List NodeId) → Member t ns → (i : ℕ) × (index_of t ns ≡ some i)
  unfolding index_of
  index_of-some t [] h = absurd h
  index_of-some t (m ∷ ms) h = elim (Bool-cases (m == t)) [
    | inl same ↦ (0, rw same refl)
    | inr other ↦ elim h [
      | inl e ↦ absurd (ground (arith, ==_iff m t, other, e))
      | inr later ↦ let (i, found) = index_of-some t ms later in (suc i, rw other (rw (found) refl))
    ]
  ]

  -- The cycle that is made of a path which ends before an edge back to one of its nodes.
  pub create_cycle-Genuine :
      (path : List NodeId) (n : NodeId) (edges : List EdgeId) (id : EdgeId) (t : NodeId)
      → Chain g (path ++ n ∷ []) edges
      → Leads g n id t
      → Member t (path ++ n ∷ [])
      → Genuine g (create_cycle_from_path g (path ++ n ∷ []) (edges ++ id ∷ []) t)
  unfolding create_cycle_from_path
  create_cycle-Genuine path n edges id t c l there =
      let (i, found) = index_of-some t (path ++ n ∷ []) there in
      let ((rest, starts), joined) =
        Chain-drop t (path ++ n ∷ []) (t ∷ []) (edges ++ id ∷ []) i found
          (Chain-push path edges n t id c l) in
      rw (found, create_cycle_from_path) (t, (rest, ap (λ ns. ns ++ t ∷ []) starts, joined))
