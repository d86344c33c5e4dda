-- ===== src/Traversal/Batches/Optimize.antt =====
-- `OptimizeBatches` of batch_optimizer.go: that it ends, and what its batches hold.
use function_kubecore_schema.Base.{
  ℕ, suc, ◌≤◌, ◌≡◌, refl, sym, ap, ◌∙◌, subst, Bool, true, false, Option, none, some, List, [], ◌∷◌,
  Bool-cases, inl, inr, arith, length, length-append, ℤ, pos, ltb_ℤ, append-nil, count, Dict,
  String,
}
use function_kubecore_schema.Graph.Types.{Resource}
use function_kubecore_schema.Graph.Builder.Build.{◌>>=◌}
use function_kubecore_schema.Graph.Builder.MergedNodes.{Gives}
use function_kubecore_schema.Traversal.Batches.{
  BatchConfig, ResourceBatch, BatchOptimizationStats, Batching, slices, append_batches, size_batch,
  make_size_batch, batch_by_size, group_by_depth, batch_groups, batch_by_depth, make_batches,
  optimize_batches,
}
use function_kubecore_schema.Traversal.Batches.Split.{Cut, chunks-Cut, chunks-endless}
use function_kubecore_schema.Traversal.Batches.Partition.{
  batched, Sized, grouped, Covers, Grown, groups-bind, grouped-count, count-everything,
  append_batches-batched, append_batches-Sized,
}

module _ (depth_of : Resource → ℤ) (n fuel : ℕ) where
  slices-Cut :
      (config : BatchConfig) (rs : List Resource)
      → config.batch_size ≡ pos (suc n)
      → length rs ≤ fuel
      → Gives (Cut (suc n) rs) (slices fuel config.batch_size rs)
  unfolding slices
  slices-Cut config rs size h = rw size (chunks-Cut fuel n rs h)

  batch_groups-Grown :
      (config : BatchConfig) (m : Dict ℤ (List Resource)) (b : Batching)
      → config.batch_size ≡ pos (suc n)
      → length (grouped m) ≤ fuel
      → Sized (suc n) b.0
      → Gives (Grown depth_of (suc n) (grouped m) b) (batch_groups depth_of fuel config m b)
  unfolding batch_groups
  batch_groups-Grown config [] b size h z = (λ p. omega arith, z)
  batch_groups-Grown config ((depth, rs) ∷ m) b size h z =
      groups-bind depth_of fuel (suc n) config depth rs m b (slices fuel config.batch_size rs)
        (slices-Cut config rs size (omega (arith, h, length-append rs (grouped m)))) z
        (λ b' z'.
          batch_groups-Grown config m b' size (omega (arith, h, length-append rs (grouped m))) z')

  Grown-Covers :
      (rs : List Resource) (types : Dict String ℕ) (o : Option Batching)
      → Gives (Grown depth_of (suc n) (grouped (group_by_depth depth_of rs [])) ([], types)) o
      → Gives (Covers (suc n) rs) o
  Grown-Covers rs types none g = g
  Grown-Covers rs types (some b) (g, z) =
      (λ p. omega (arith, g p, grouped-count depth_of p rs []), z)

  batch_by_depth-Covers :
      (config : BatchConfig) (rs : List Resource) (types : Dict String ℕ)
      → config.batch_size ≡ pos (suc n)
      → length rs ≤ fuel
      → Gives (Covers (suc n) rs) (batch_by_depth depth_of fuel config rs types)
  unfolding batch_by_depth
  batch_by_depth-Covers config rs types size h =
      let m = group_by_depth depth_of rs [] in
      let total = grouped-count depth_of (λ r. true) rs [] in
      Grown-Covers rs types _ (
        batch_groups-Grown config m ([], types) size
          (omega (arith, h, total, count-everything (grouped m), count-everything rs)) tt)

  Cut-Covers :
      (rs : List Resource) (types : Dict String ℕ) (s : Option (List (List Resource)))
      → Gives (Cut (suc n) rs) s
      → Gives (Covers (suc n) rs) (
          s >>= λ cs.
          some
            (append_batches (λ k. make_size_batch depth_of (size_batch k)) "size" cs ([], types)))
  Cut-Covers rs types none h = absurd h
  Cut-Covers rs types (some cs) (all, sizes) =
      let make : ℕ → List Resource → ResourceBatch = λ k. make_size_batch depth_of (size_batch k) in
      (
        λ p. ap (count p) (append_batches-batched make (λ i c. refl) "size" cs ([], types) ∙ all),
        append_batches-Sized make (λ i c. refl) (suc n) "size" cs ([], types) sizes tt,
      )

  make_batches-Covers :
      (config : BatchConfig) (rs : List Resource) (types : Dict String ℕ)
      → config.enabled ≡ true
      → config.batch_size ≡ pos (suc n)
      → length rs ≤ fuel
      → Gives (Covers (suc n) rs) (make_batches depth_of fuel config rs types)
  unfolding make_batches batch_by_size batch_by_depth batch_groups
  make_batches-Covers config rs types on size h =
      elim (Bool-cases (ltb_ℤ config.batch_size (pos (length rs)))) [
        | inl big ↦
            rw (on, big)
              (elim (Bool-cases config.same_depth_batching) [
                | inl deep ↦ rw deep (batch_by_depth-Covers config rs types size h)
                | inr flat ↦ rw flat (Cut-Covers rs types _ (slices-Cut config rs size h))
              ])
        | inr small ↦
            let fits : ltb_ℤ (pos (suc n)) (pos (length rs)) ≡ false =
              subst (λ z. ltb_ℤ z (pos (length rs)) ≡ false) size small in
            rw (on, small) (λ p. ap (count p) (append-nil rs), (ground (arith, fits), tt))
      ]

-- What `OptimizeBatches` returns for resources, with batches of at most `n`.
abbrev pub Partitioned : ℕ → List Resource → List ResourceBatch → Type 0
Partitioned n rs bs = ((p : Resource → Bool) → count p (batched bs) ≡ count p rs) × Sized n bs

with_stats :
    (n : ℕ) (rs : List Resource) (o : Option Batching)
    (f : Batching → List ResourceBatch × BatchOptimizationStats)
    → ((b : Batching) → (f b).0 ≡ b.0)
    → Gives (Covers n rs) o
    → Gives (λ r. Partitioned n rs r.0) (o >>= λ b. some (f b))
with_stats n rs none f same h = absurd h
with_stats n rs (some b) f same h = subst (Partitioned n rs) (sym (same b)) h

-- `OptimizeBatches` with batching enabled and a positive batch size returns, by size and by depth:
-- as many rounds as there are resources are enough for each loop. Every resource comes in the batches
-- as often as in the list, by whatever test it is told apart, and no batch is larger than the size.
pub optimize_batches-Partitioned :
    (depth_of : Resource → ℤ) (n fuel : ℕ) (config : BatchConfig) (rs : List Resource)
    (stats : BatchOptimizationStats)
    → config.enabled ≡ true
    → config.batch_size ≡ pos (suc n)
    → length rs ≤ fuel
    → Gives (λ r. Partitioned (suc n) rs r.0) (optimize_batches depth_of fuel config rs stats)
unfolding optimize_batches
optimize_batches-Partitioned depth_of n fuel config rs stats on size h =
    with_stats (suc n) rs (make_batches depth_of fuel config rs stats.batch_types) _ (λ b. refl)
      (make_batches-Covers depth_of n fuel config rs stats.batch_types on size h)

-- With batching enabled by size and a batch size of zero, `OptimizeBatches` of one resource or more
-- never returns: no number of rounds is enough for its loop.
pub optimize_batches-endless :
    (depth_of : Resource → ℤ) (fuel : ℕ) (config : BatchConfig) (r : Resource) (rs : List Resource)
    (stats : BatchOptimizationStats)
    → config.enabled ≡ true
    → config.same_depth_batching ≡ false
    → config.batch_size ≡ pos 0
    → optimize_batches depth_of fuel config (r ∷ rs) stats ≡ none
unfolding optimize_batches make_batches batch_by_size slices
optimize_batches-endless depth_of fuel config r rs stats on flat size =
    let some_left : ltb_ℤ (pos 0) (pos (length (r ∷ rs))) ≡ true = ground arith in
    let big : ltb_ℤ config.batch_size (pos (length (r ∷ rs))) ≡ true =
      subst (λ z. ltb_ℤ z (pos (length (r ∷ rs))) ≡ true) (sym size) some_left in
    rw (on, big, flat) (rw size (rw (chunks-endless fuel r rs) refl))
