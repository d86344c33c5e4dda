-- ===== src/Graph/Cycles/Search.antt =====
-- What one call of `dfsHasCycle` establishes.
use mathlib.Core.WellFounded.{Acc}
use native.Mathlib.Nat.{le_trans}
use function_kubecore_schema.Base.{
  ℕ, zero, suc, ◌≤◌, ◌≡◌, refl, sym, ◌∙◌, subst, Bool, true, false, Option, none, some, List, [],
  ◌∷◌, arith, inl, inr, Bool-cases, Option-cases, string_eq, ◌==◌, ==_iff, Member, lookup,
}
use function_kubecore_schema.Graph.Types.{NodeId, EdgeId, ResourceEdge, ResourceGraph}
use function_kubecore_schema.Graph.Walks.{edges_of, EdgeBetween, Walk, here, next, Cyclic, Succ}
use function_kubecore_schema.Graph.Cycles.HasCycle.{
  Marks, is_visited, on_stack, enter, leave, unless_found, scan_edges, dfs_has_cycle,
}
use function_kubecore_schema.Graph.Cycles.Visited.{
  visited-enter, stack-enter, stack-leave, visited-leave, unvisited, Spreads, unvisited_mono,
  unvisited-enter,
}

module _ (g : ResourceGraph) where
  -- No walk from a node that is done goes on for ever; a node on the stack is visited.
  pub record Inv (s : Marks) : Type 0 where
    pub finished : (w : NodeId) → is_visited s w ≡ true → on_stack s w ≡ false → Acc (Succ g) w
    pub marked : (w : NodeId) → on_stack s w ≡ true → is_visited s w ≡ true

  -- A search that found no cycle leaves the stack as it was and has visited more.
  pub record Passed (s t : Marks) : Type 0 where
    pub inv : Inv t
    pub spreads : Spreads s t
    pub same_stack : (w : NodeId) → on_stack t w ≡ on_stack s w

  pub Passed-trans : {s t u : Marks} → Passed s t → Passed t u → Passed s u
  Passed-trans p q = record {
    inv = q.inv;
    spreads = λ w h. q.spreads w (p.spreads w h);
    same_stack = λ w. q.same_stack w ∙ p.same_stack w;
  }

  -- The result of a search from the marks `s`: a cycle, or `Extra` and no harm done.
  abbrev pub Good : Marks → Type 0 → Option (Bool × Marks) → Type 0
  Good s Extra none = ⊥
  Good s Extra (some (true, t)) = Cyclic g
  Good s Extra (some (false, t)) = Passed s t × Extra

  -- The stack holds nodes from which a walk leads to `n`.
  abbrev pub LeadsTo : Marks → NodeId → Type 0
  LeadsTo s n = (w : NodeId) → on_stack s w ≡ true → Walk g w n

  -- Every target of the listed edges is done.
  abbrev pub TargetsDone : List EdgeId → Type 0
  TargetsDone ids =
      (id : EdgeId) (e : ResourceEdge)
      → Member id ids
      → lookup id g.edges ≡ some e
      → Acc (Succ g) e.target

  pub Passed-refl : {s : Marks} → Inv s → Passed s s
  Passed-refl inv = record { inv = inv; spreads = λ w h. h; same_stack = λ w. refl }

  pub Good-after :
      {s t : Marks} {A B : Type 0} (r : Option (Bool × Marks))
      → Passed s t
      → (A → B)
      → Good t A r
      → Good s B r
  Good-after none p f h = absurd h
  Good-after (some (true, u)) p f h = h
  Good-after (some (false, u)) p f h = (Passed-trans p h.0, f h.1)

  pub Good-unless_found :
      (s : Marks) (A B : Type 0) (r : Option (Bool × Marks)) (rest : Marks → Option (Bool × Marks))
      → Good s A r
      → ((t : Marks) → Passed s t → A → Good t B (rest t))
      → Good s B (unless_found r rest)
  unfolding unless_found
  Good-unless_found s A B none rest h k = absurd h
  Good-unless_found s A B (some (true, t)) rest h k = h
  Good-unless_found s A B (some (false, t)) rest h k =
      Good-after (rest t) h.0 (λ b. b) (k t h.0 h.1)

  TargetsDone-cons :
      (id : EdgeId) (ids : List EdgeId)
      → ((e : ResourceEdge) → lookup id g.edges ≡ some e → Acc (Succ g) e.target)
      → TargetsDone ids
      → TargetsDone (id ∷ ids)
  TargetsDone-cons id ids h t j e (inl same) found =
      h e (subst (λ x. lookup x g.edges ≡ some e) same found)
  TargetsDone-cons id ids h t j e (inr m) found = t j e m found

  done-at :
      (id : EdgeId) (e : ResourceEdge)
      → lookup id g.edges ≡ some e
      → Acc (Succ g) e.target
      → (d : ResourceEdge) → lookup id g.edges ≡ some d
      → Acc (Succ g) d.target
  done-at id e found acc d same =
      let q : e ≡ d = ground arith in subst (λ (x : ResourceEdge). Acc (Succ g) x.target) q acc

  -- A node whose search found no cycle leaves the stack, and it is done.
  module _ (n : NodeId) (s : Marks) (fresh : is_visited s n ≡ false) (inv : Inv s) where
    Inv-enter : Inv (enter n s)
    Inv-enter = record {
      finished = λ w v o.
          inv.finished w (ground (arith, visited-enter n w s, stack-enter n w s))
            (ground (arith, visited-enter n w s, stack-enter n w s));
      marked = λ w o. ground (arith, visited-enter n w s, stack-enter n w s, inv.marked w);
    }

    leave-finished :
        (t : Marks)
        → Passed (enter n s) t
        → Acc (Succ g) n
        → (w : NodeId) → is_visited (leave n t) w ≡ true
        → on_stack (leave n t) w ≡ false
        → Acc (Succ g) w
    leave-finished t p acc w v o = elim (Bool-cases (n == w)) [
      | inl same ↦ subst (λ x. Acc (Succ g) x) ((==_iff n w).0 same) acc
      | inr other ↦
          p.inv.finished w (sym (visited-leave n w t) ∙ v) (ground (arith, stack-leave n w t))
    ]

    leave-Passed : (t : Marks) → Passed (enter n s) t → Acc (Succ g) n → Passed s (leave n t)
    leave-Passed t p acc = record {
      inv = record {
        finished = leave-finished t p acc;
        marked = λ w o. ground (arith, stack-leave n w t, visited-leave n w t, p.inv.marked w);
      };
      spreads = λ w h. ground (arith, visited-leave n w t, p.spreads w, visited-enter n w s);
      same_stack = λ w.
          ground
            (arith, stack-leave n w t, p.same_stack w, stack-enter n w s, ==_iff n w, inv.marked w);
    }

    leave-Good :
        (ids : List EdgeId) (r : Option (Bool × Marks))
        → (TargetsDone ids → Acc (Succ g) n)
        → Good (enter n s) (TargetsDone ids) r
        → Good s (Acc (Succ g) n) (unless_found r (λ t. some (false, leave n t)))
    unfolding unless_found
    leave-Good ids none f h = absurd h
    leave-Good ids (some (true, t)) f h = h
    leave-Good ids (some (false, t)) f h = (leave-Passed t h.0 (f h.1), f h.1)

  done-node : (n : NodeId) → TargetsDone (edges_of g n) → Acc (Succ g) n
  done-node n h =
      Acc.intro n λ w e. subst (λ x. Acc (Succ g) x) e.ends (h e.id e.edge e.member e.found)

  enter-LeadsTo : (n : NodeId) (s : Marks) → LeadsTo s n → LeadsTo (enter n s) n
  enter-LeadsTo n s path w o = elim (Bool-cases (n == w)) [
    | inl same ↦ subst (λ x. Walk g x n) ((==_iff n w).0 same) here
    | inr other ↦ path w (ground (arith, stack-enter n w s))
  ]

  module _ (nodes : List NodeId)
      (targets_in : (id : EdgeId) (e : ResourceEdge)
        → lookup id g.edges ≡ some e
        → Member e.target nodes) where
    -- What the loop asks of the recursive call.
    abbrev pub VisitSpec : ℕ → (NodeId → Marks → Option (Bool × Marks)) → Type 0
    VisitSpec fuel visit =
        (n : NodeId) (s : Marks)
        → Member n nodes
        → is_visited s n ≡ false
        → unvisited s nodes ≤ fuel
        → Inv s
        → LeadsTo s n
        → Good s (Acc (Succ g) n) (visit n s)

    module _ (fuel : ℕ) (visit : NodeId → Marks → Option (Bool × Marks))
        (spec : VisitSpec fuel visit) (u : NodeId) where
      scan_edges-Good :
          (ids : List EdgeId) (s : Marks)
          → ((id : EdgeId) → Member id ids → Member id (edges_of g u))
          → unvisited s nodes ≤ fuel
          → Inv s
          → LeadsTo s u
          → Good s (TargetsDone ids) (scan_edges visit g ids s)
      unfolding scan_edges
      scan_edges-Good [] s sub room inv path = (Passed-refl inv, λ id e m f. absurd m)
      scan_edges-Good (id ∷ ids) s sub room inv path = elim (Option-cases (lookup id g.edges)) [
        | inl absent ↦
            rw (absent, scan_edges)
              (Good-after (scan_edges visit g ids s) (Passed-refl inv)
                (TargetsDone-cons id ids (λ e found. ground (arith, absent, found)))
                (scan_edges-Good ids s (λ j m. sub j (inr m)) room inv path))
        | inr (e, found) ↦
            let step : EdgeBetween g u e.target = record {
              id = id;
              edge = e;
              member = sub id (inl refl);
              found = found;
              ends = refl;
            } in
            elim (Bool-cases (on_stack s e.target)) [
              | inl back ↦
                  rw (found, scan_edges)
                    (rw (back, scan_edges) (u, (e.target, step, path e.target back)))
              | inr off ↦ elim (Bool-cases (is_visited s e.target)) [
                | inl seen ↦
                    rw (found, scan_edges)
                      (rw (off, scan_edges)
                        (rw (seen, scan_edges)
                          (Good-after (scan_edges visit g ids s) (Passed-refl inv)
                            (TargetsDone-cons id ids
                              (done-at id e found (inv.finished e.target seen off)))
                            (scan_edges-Good ids s (λ j m. sub j (inr m)) room inv path))))
                | inr fresh ↦
                    rw (found, scan_edges)
                      (rw (off, scan_edges)
                        (rw (fresh, scan_edges)
                          (Good-unless_found s _ _ (visit e.target s) _
                            (spec e.target s (targets_in id e found) fresh room inv
                              (λ w h. next (path w h) step))
                            (λ t p acc.
                              Good-after (scan_edges visit g ids t) (Passed-refl p.inv)
                                (TargetsDone-cons id ids (done-at id e found acc))
                                (scan_edges-Good ids t (λ j m. sub j (inr m))
                                  (le_trans (unvisited_mono s t nodes p.spreads) room) p.inv
                                  (λ w h. path w (sym (p.same_stack w) ∙ h)))))))
              ]
            ]
      ]

    -- With fuel for every node that is not visited, `dfsHasCycle` returns, and what it returns is
    -- right.
    pub dfs-Good : (fuel : ℕ) → VisitSpec fuel (dfs_has_cycle fuel g)
    unfolding dfs_has_cycle
    dfs-Good zero n s m fresh room inv path =
        absurd (omega (arith, unvisited-enter n s nodes m fresh))
    dfs-Good (suc fuel) n s m fresh room inv path =
        leave-Good n s fresh inv (edges_of g n)
          (scan_edges (dfs_has_cycle fuel g) g (edges_of g n) (enter n s)) (done-node n)
          (scan_edges-Good fuel (dfs_has_cycle fuel g) (dfs-Good fuel) n (edges_of g n) (enter n s)
            (λ id h. h) (omega (arith, unvisited-enter n s nodes m fresh)) (Inv-enter n s fresh inv)
            (enter-LeadsTo n s path))
