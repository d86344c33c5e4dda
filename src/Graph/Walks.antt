-- ===== src/Graph/Walks.antt =====
-- Edges, walks and cycles of a resource graph, as its adjacency lists and its edges give them.
use mathlib.Core.WellFounded.{Acc}
use function_kubecore_schema.Base.{
  ◌≡◌, refl, sym, subst, ◌⊎◌, inl, inr, none, arith, some, List, [], string_eq, lookup, get_or,
  Member,
}
use function_kubecore_schema.Graph.Types.{NodeId, EdgeId, ResourceEdge, ResourceGraph}

-- graph.AdjacencyList[n], nil where the node has no entry
unfoldable pub edges_of : ResourceGraph → NodeId → List EdgeId
edges_of g n = get_or n g.adjacency_list []

pub edges_of-absent :
    (g : ResourceGraph) (n : NodeId) → lookup n g.adjacency_list ≡ none → edges_of g n ≡ []
unfolding edges_of
edges_of-absent g n h = ground (arith, h)

-- `id` is listed for `u` and names an edge of the graph with the target `v`.
pub record EdgeBetween (g : ResourceGraph) (u v : NodeId) : Type 0 where
  pub id : EdgeId
  pub edge : ResourceEdge
  pub member : Member id (edges_of g u)
  pub found : lookup id g.edges ≡ some edge
  pub ends : edge.target ≡ v

pub data Walk (g : ResourceGraph) (u : NodeId) : NodeId → Type 0 where
  here : Walk g u u
  next : {v w : NodeId} → Walk g u v → EdgeBetween g v w → Walk g u w

-- A closed walk through `n` with one edge or more.
abbrev pub CycleAt : ResourceGraph → NodeId → Type 0
CycleAt g n = (m : NodeId) × EdgeBetween g n m × Walk g m n

abbrev pub Cyclic : ResourceGraph → Type 0
Cyclic g = (n : NodeId) × CycleAt g n

-- `u` comes after `v` in a walk.
abbrev pub Succ : ResourceGraph → NodeId → NodeId → Type 0
Succ g v u = EdgeBetween g u v

module _ (g : ResourceGraph) where
  first_step :
      {u w : NodeId} → Walk g u w → (u ≡ w) ⊎ ((v : NodeId) × EdgeBetween g u v × Walk g v w)
  first_step here = inl refl
  first_step (next {v} {w} p e) = elim (first_step p) [
    | inl same ↦ inr (w, subst (λ x. EdgeBetween g x w) (sym same) e, here)
    | inr (k, d, q) ↦ inr (k, d, next q e)
  ]

  -- No cycle goes through a node from which every walk ends.
  pub Acc-acyclic : (n : NodeId) → Acc (Succ g) n → ¬ CycleAt g n
  Acc-acyclic n (Acc.intro _ below) (m, e, w) = elim (first_step w) [
    | inl same ↦ Acc-acyclic m (below m e) (subst (λ x. CycleAt g x) (sym same) (m, e, w))
    | inr (k, d, q) ↦ Acc-acyclic m (below m e) (k, d, next q e)
  ]
