-- ===== src/Graph/Traverser/AllPaths/Explore.antt =====
-- What the loop of `findAllPathsDFS` over the edges of a node adds to the paths.
use function_kubecore_schema.Base.{
  ℕ, ◌≡◌, refl, subst, ◌↔◌, ◌⊎◌, inl, inr, true, none, some, List, [], ◌∷◌, ◌++◌, arith, string_eq,
  Bool-cases, Option-cases, Member, lookup,
}
use function_kubecore_schema.Graph.Types.{NodeId, EdgeId, ResourceEdge, ResourceGraph}
use function_kubecore_schema.Graph.Traverser.AllPaths.{PathResult, PathSearch, is_marked, explore}
use function_kubecore_schema.Graph.Traverser.AllPaths.Simple.{Hit}

-- The marked nodes are those of `on`.
abbrev pub Reads : PathSearch → List NodeId → Type 0
Reads s on = (n : NodeId) → (is_marked s n ≡ true) ↔ Member n on

-- From `s` to `t` the marks of `on` are kept, and the paths of `P` are added.
pub record Effect (on : List NodeId) (P : PathResult → Type 0) (s t : PathSearch) : Type 0 where
  pub reads : Reads t on
  pub paths : (p : PathResult) → Member p t.paths ↔ (Member p s.paths ⊎ P p)

pub Effect-none :
    {on : List NodeId} {P : PathResult → Type 0} {s : PathSearch}
    → Reads s on
    → ((p : PathResult) → ¬ (P p))
    → Effect on P s s
Effect-none r never = record {
  reads = r;
  paths = λ p. (λ h. inl h, λ h. elim h [ inl m ↦ m | inr q ↦ absurd (never p q) ]);
}

pub Effect-iff :
    {on : List NodeId} {P Q : PathResult → Type 0} {s t : PathSearch}
    → ((p : PathResult) → P p ↔ Q p)
    → Effect on P s t
    → Effect on Q s t
Effect-iff same h = record {
  reads = h.reads;
  paths = λ p. (
    λ m. elim ((h.paths p).0 m) [ inl old ↦ inl old | inr new ↦ inr ((same p).0 new) ],
    λ m. (h.paths p).1 (elim m [ inl old ↦ inl old | inr new ↦ inr ((same p).1 new) ]),
  );
}

pub Effect-trans :
    {on : List NodeId} {P Q : PathResult → Type 0} {s t u : PathSearch}
    → Effect on P s t
    → Effect on Q t u
    → Effect on (λ p. P p ⊎ Q p) s u
Effect-trans h k = record {
  reads = k.reads;
  paths = λ p. (
    λ m. elim ((k.paths p).0 m) [
      | inl mid ↦ elim ((h.paths p).0 mid) [ inl old ↦ inl old | inr a ↦ inr (inl a) ]
      | inr b ↦ inr (inr b)
    ],
    λ m. elim m [
      | inl old ↦ (k.paths p).1 (inl ((h.paths p).1 (inl old)))
      | inr (inl a) ↦ (k.paths p).1 (inl ((h.paths p).1 (inr a)))
      | inr (inr b) ↦ (k.paths p).1 (inr b)
    ],
  );
}

module _ (g : ResourceGraph) (target : NodeId) (left : ℕ) (on : List NodeId) (path : List NodeId)
    (edges : List EdgeId) where
  -- A path that goes on along one of the edges `ids`.
  abbrev pub HitVia : List EdgeId → PathResult → Type 0
  HitVia ids p =
      (id : EdgeId) × Member id ids
      × ((e : ResourceEdge) × (lookup id g.edges ≡ some e)
          × (¬ (Member e.target on))
          × Hit g target left on e.target (path ++ e.target ∷ []) (edges ++ id ∷ []) p)

  -- What is known of the recursive call.
  abbrev pub Visits : (NodeId → List NodeId → List EdgeId → PathSearch → PathSearch) → Type 0
  Visits visit =
      (n : NodeId) (path' : List NodeId) (edges' : List EdgeId) (s : PathSearch)
      → Reads s on
      → ¬ (Member n on)
      → Effect on (Hit g target left on n path' edges') s (visit n path' edges' s)

  HitVia-missing :
      (id : EdgeId) (ids : List EdgeId) (p : PathResult)
      → lookup id g.edges ≡ none
      → HitVia ids p ↔ HitVia (id ∷ ids) p
  HitVia-missing id ids p missing = (
    λ (i, m, rest). (i, inr m, rest),
    λ (i, m, rest). elim m [ inl same ↦ absurd (cc (rest.1)) | inr later ↦ (i, later, rest) ],
  )

  module _ (id : EdgeId) (ids : List EdgeId) (e : ResourceEdge)
      (found : lookup id g.edges ≡ some e) where
    same_edge : (i : EdgeId) (d : ResourceEdge) → i ≡ id → lookup i g.edges ≡ some d → d ≡ e
    same_edge i d same at =
        let at' : lookup id g.edges ≡ some d = subst (λ x. lookup x g.edges ≡ some d) same at in
        ground (arith, at', found)

    HitVia-marked : (p : PathResult) → Member e.target on → HitVia ids p ↔ HitVia (id ∷ ids) p
    HitVia-marked p marked = (
      λ (i, m, rest). (i, inr m, rest),
      λ (i, m, (d, at, free, rest)). elim m [
        | inl same ↦ absurd (free (rw (same_edge i d same at) marked))
        | inr later ↦ (i, later, (d, at, free, rest))
      ],
    )

    HitVia-taken :
        (p : PathResult)
        → ¬ (Member e.target on)
        → (Hit g target left on e.target (path ++ e.target ∷ []) (edges ++ id ∷ []) p
            ⊎ HitVia ids p)
          ↔ HitVia (id ∷ ids) p
    HitVia-taken p free = (
      λ h. elim h [
        | inl hit ↦ (id, inl refl, (e, found, free, hit))
        | inr (i, m, rest) ↦ (i, inr m, rest)
      ],
      λ (i, m, (d, at, free', rest)). elim m [
        | inl same ↦ inl (
            subst (λ x. Hit g target left on e.target (path ++ e.target ∷ []) (edges ++ x ∷ []) p)
              same
              (subst
                (λ (x : ResourceEdge).
                  Hit g target left on x.target (path ++ x.target ∷ []) (edges ++ i ∷ []) p)
                {x = d} {y = e} (same_edge i d same at) rest))
        | inr later ↦ inr (i, later, (d, at, free', rest))
      ],
    )

  pub explore-Effect :
      (visit : NodeId → List NodeId → List EdgeId → PathSearch → PathSearch)
      → Visits visit
      → (ids : List EdgeId) (s : PathSearch) → Reads s on
      → Effect on (HitVia ids) s (explore visit g path edges ids s)
  unfolding explore
  explore-Effect visit ok [] s r = Effect-none r (λ p h. absurd h.1)
  explore-Effect visit ok (id ∷ ids) s r = elim (Option-cases (lookup id g.edges)) [
    | inl missing ↦
        rw (missing, explore)
          (Effect-iff (λ p. HitVia-missing id ids p missing) (explore-Effect visit ok ids s r))
    | inr (e, found) ↦ elim (Bool-cases (is_marked s e.target)) [
      | inl marked ↦
          rw (found, explore)
            (rw (marked, explore)
              (Effect-iff (λ p. HitVia-marked id ids e found p ((r e.target).0 marked))
                (explore-Effect visit ok ids s r)))
      | inr fresh ↦
          let free : ¬ (Member e.target on) = λ m. cc ((r e.target).1 m, fresh) in
          let first = ok e.target (path ++ e.target ∷ []) (edges ++ id ∷ []) s r free in
          rw (found, explore)
            (rw (fresh, explore)
              (Effect-iff (λ p. HitVia-taken id ids e found p free)
                (Effect-trans first (explore-Effect visit ok ids _ first.reads))))
    ]
  ]
