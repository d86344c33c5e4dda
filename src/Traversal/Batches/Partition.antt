-- ===== src/Traversal/Batches/Partition.antt =====
-- What `OptimizeBatches` of batch_optimizer.go does with the resources.
use function_kubecore_schema.Base.{
  ℕ, suc, ◌+◌, ◌≤◌, ◌≡◌, refl, sym, ap, ◌∙◌, subst, String, Bool, true, Option, none, some, List,
  [], ◌∷◌, ◌++◌, string_eq, int_eq, ◌==◌, Bool-cases, inl, inr, arith, length, All, All-append, ℤ,
  collect, count, count-append, Dict, lookup, insert, get_or, append_assoc, append-nil,
}
use function_kubecore_schema.Graph.Types.{Resource}
use function_kubecore_schema.Graph.Builder.Build.{◌>>=◌}
use function_kubecore_schema.Graph.Builder.MergedNodes.{Gives}
use function_kubecore_schema.Traversal.Batches.{
  BatchConfig, ResourceBatch, Batching, append_batches, make_depth_batch, group_by_depth,
  batch_groups,
}
use function_kubecore_schema.Traversal.Batches.Split.{Cut}

-- The resources of batches, one batch after the other.
abbrev pub batched : List ResourceBatch → List Resource
batched bs = collect (λ (b : ResourceBatch). b.resources) bs

batched-push :
    (bs : List ResourceBatch) (b : ResourceBatch)
    → batched (bs ++ b ∷ []) ≡ batched bs ++ b.resources
batched-push [] b = append-nil b.resources
batched-push (x ∷ bs) b =
    ap (λ t. x.resources ++ t) (batched-push bs b)
    ∙ sym (append_assoc x.resources (batched bs) b.resources)

abbrev pub Sized : ℕ → List ResourceBatch → Type 0
Sized n bs = All (λ (b : ResourceBatch). length b.resources ≤ n) bs

module _ (make : ℕ → List Resource → ResourceBatch)
    (whole : (n : ℕ) (c : List Resource) → (make n c).resources ≡ c) where
  pub append_batches-batched :
      (batch_type : String) (cs : List (List Resource)) (b : Batching)
      → batched (append_batches make batch_type cs b).0 ≡ batched b.0 ++ collect (λ c. c) cs
  unfolding append_batches
  append_batches-batched batch_type [] b = sym (append-nil (batched b.0))
  append_batches-batched batch_type (c ∷ cs) (bs, types) =
      append_batches-batched batch_type cs _
      ∙ (ap (λ t. t ++ collect (λ c. c) cs)
            (batched-push bs (make (length bs) c) ∙ ap (λ t. batched bs ++ t) (whole (length bs) c))
          ∙ append_assoc (batched bs) c (collect (λ c. c) cs))

  pub append_batches-Sized :
      (n : ℕ) (batch_type : String) (cs : List (List Resource)) (b : Batching)
      → All (λ (c : List Resource). (1 ≤ length c) × (length c ≤ n)) cs
      → Sized n b.0
      → Sized n (append_batches make batch_type cs b).0
  unfolding append_batches
  append_batches-Sized n batch_type [] b h s = s
  append_batches-Sized n batch_type (c ∷ cs) (bs, types) ((_, le), h) s =
      append_batches-Sized n batch_type cs _ h
        (All-append _ _ _ s (subst (λ rs. length rs ≤ n) (sym (whole (length bs) c)) le, tt))

-- Each resource comes as often in the batches as in the list, and no batch has more than `n`.
abbrev pub Covers : ℕ → List Resource → Batching → Type 0
Covers n rs b = ((p : Resource → Bool) → count p (batched b.0) ≡ count p rs) × Sized n b.0

-- The resources of groups by depth.
abbrev pub grouped : Dict ℤ (List Resource) → List Resource
grouped [] = []
grouped ((depth, rs) ∷ m) = rs ++ grouped m

pub count-everything : (rs : List Resource) → count (λ r. true) rs ≡ length rs
count-everything [] = refl
count-everything (r ∷ rs) = ap suc (count-everything rs)

module _ (depth_of : Resource → ℤ) where
  grouped-insert :
      (p : Resource → Bool) (d : ℤ) (r : Resource) (m : Dict ℤ (List Resource))
      → count p (grouped (insert d (get_or d m [] ++ r ∷ []) m))
        ≡ count p (r ∷ []) + count p (grouped m)
  unfolding insert lookup
  grouped-insert p d r [] = ground arith
  grouped-insert p d r ((j, w) ∷ m) = elim (Bool-cases (j == d)) [
    | inl same ↦
        let inside : insert d (get_or d ((j, w) ∷ m) [] ++ r ∷ []) ((j, w) ∷ m)
            ≡ (j, w ++ r ∷ []) ∷ m =
          ground (arith, same) in
        (omega (
          arith,
          ap (λ t. count p (grouped t)) inside,
          count-append p (w ++ r ∷ []) (grouped m),
          count-append p w (r ∷ []),
          count-append p w (grouped m),
        ))
    | inr other ↦
        let outside : insert d (get_or d ((j, w) ∷ m) [] ++ r ∷ []) ((j, w) ∷ m)
            ≡ (j, w) ∷ insert d (get_or d m [] ++ r ∷ []) m =
          ground (arith, other) in
        (omega (
          arith,
          ap (λ t. count p (grouped t)) outside,
          count-append p w (grouped (insert d (get_or d m [] ++ r ∷ []) m)),
          count-append p w (grouped m),
          grouped-insert p d r m,
        ))
  ]

  pub grouped-count :
      (p : Resource → Bool) (rs : List Resource) (m : Dict ℤ (List Resource))
      → count p (grouped (group_by_depth depth_of rs m)) ≡ count p rs + count p (grouped m)
  unfolding group_by_depth
  grouped-count p [] m = omega arith
  grouped-count p (r ∷ rs) m = ground (
    arith,
    grouped-count p rs (insert (depth_of r) (get_or (depth_of r) m [] ++ r ∷ []) m),
    grouped-insert p (depth_of r) r m,
  )

  -- The batches behind `b` hold the groups.
  abbrev pub Grown : ℕ → List Resource → Batching → Batching → Type 0
  Grown n rs b b' =
      ((p : Resource → Bool) → count p (batched b'.0) ≡ count p (batched b.0) + count p rs)
      × Sized n b'.0

  grow :
      (n : ℕ) (rs : List Resource) (m : Dict ℤ (List Resource)) (b b' : Batching)
      (o : Option Batching)
      → ((p : Resource → Bool) → count p (batched b'.0) ≡ count p (batched b.0) + count p rs)
      → Gives (Grown n (grouped m) b') o
      → Gives (Grown n (rs ++ grouped m) b) o
  grow n rs m b b' none h g = g
  grow n rs m b b' (some end) h (g, z) =
      (λ p. omega (arith, h p, g p, count-append p rs (grouped m)), z)

  pub groups-bind :
      (fuel n : ℕ) (config : BatchConfig) (depth : ℤ) (rs : List Resource)
      (m : Dict ℤ (List Resource)) (b : Batching) (s : Option (List (List Resource)))
      → Gives (Cut n rs) s
      → Sized n b.0
      → ((b' : Batching)
          → Sized n b'.0
          → Gives (Grown n (grouped m) b') (batch_groups depth_of fuel config m b'))
      → Gives (Grown n (rs ++ grouped m) b) (
          s >>= λ cs.
          batch_groups depth_of fuel config m
            (append_batches (make_depth_batch depth_of depth) "depth" cs b))
  groups-bind fuel n config depth rs m b none h z k = absurd h
  groups-bind fuel n config depth rs m b (some cs) (all, sizes) z k =
      let make = make_depth_batch depth_of depth in
      let b' = append_batches make "depth" cs b in
      let holds = append_batches-batched make (λ i c. refl) "depth" cs b in
      let small = append_batches-Sized make (λ i c. refl) n "depth" cs b sizes z in
      grow n rs m b b' (batch_groups depth_of fuel config m b')
        (λ p.
          ap (count p) holds
          ∙ omega (arith, count-append p (batched b.0) (collect (λ c. c) cs), ap (count p) all))
        (k b' small)
