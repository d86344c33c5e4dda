-- ===== src/Graph/Cycles/Visited.antt =====
-- What `dfsHasCycle` has marked, and how many nodes are left.
use function_kubecore_schema.Base.{
  ℕ, suc, ◌≤◌, ◌≡◌, refl, true, false, not, List, arith, string_eq, ◌==◌, ==_iff, if◌then◌else◌,
  Member, count, count_mono, count_strict, lookup-insert,
}
use function_kubecore_schema.Graph.Types.{NodeId}
use function_kubecore_schema.Graph.Cycles.HasCycle.{Marks, is_visited, on_stack, enter, leave}

pub visited-enter :
    (n w : NodeId) (s : Marks)
    → is_visited (enter n s) w ≡ (if n == w then true else is_visited s w)
unfolding enter
visited-enter n w s = ground (arith, lookup-insert n w true s.visited)

pub stack-enter :
    (n w : NodeId) (s : Marks) → on_stack (enter n s) w ≡ (if n == w then true else on_stack s w)
unfolding enter
stack-enter n w s = ground (arith, lookup-insert n w true s.recursion_stack)

pub stack-leave :
    (n w : NodeId) (s : Marks) → on_stack (leave n s) w ≡ (if n == w then false else on_stack s w)
unfolding leave
stack-leave n w s = ground (arith, lookup-insert n w false s.recursion_stack)

pub visited-leave : (n w : NodeId) (s : Marks) → is_visited (leave n s) w ≡ is_visited s w
unfolding leave
visited-leave n w s = refl

-- The nodes of `nodes` that are not visited.
abbrev pub unvisited : Marks → List NodeId → ℕ
unvisited s nodes = count (λ n. not (is_visited s n)) nodes

abbrev pub Spreads : Marks → Marks → Type 0
Spreads s t = (w : NodeId) → is_visited s w ≡ true → is_visited t w ≡ true

pub unvisited_mono :
    (s t : Marks) (nodes : List NodeId) → Spreads s t → unvisited t nodes ≤ unvisited s nodes
unvisited_mono s t nodes h =
    count_mono (λ n. not (is_visited t n)) (λ n. not (is_visited s n)) (λ a. ground (arith, h a))
      nodes

pub unvisited-enter :
    (n : NodeId) (s : Marks) (nodes : List NodeId)
    → Member n nodes
    → is_visited s n ≡ false
    → suc (unvisited (enter n s) nodes) ≤ unvisited s nodes
unvisited-enter n s nodes m fresh =
    count_strict (λ a. not (is_visited (enter n s) a)) (λ a. not (is_visited s a))
      (λ a. ground (arith, visited-enter n a s)) n nodes m
      (ground (arith, visited-enter n n s, ==_iff n n)) (ground arith)
