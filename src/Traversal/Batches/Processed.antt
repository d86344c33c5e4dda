-- ===== src/Traversal/Batches/Processed.antt =====
-- The accounts of `ProcessBatch` of batch_optimizer.go.
use function_kubecore_schema.Base.{
  All, is_some, ℕ, suc, ◌+◌, ◌≡◌, ◌≢◌, refl, ap, ◌∙◌, ◌↔◌, ◌⊎◌, subst, Bool, true, false, ◌&&◌,
  Option, none, some, List, [], ◌∷◌, ◌++◌, if◌then◌else◌, Bool-cases, inl, inr, arith, length,
  nat_beq, nat_beq_iff, length-append,
}
use function_kubecore_schema.Graph.Types.{Resource}
use function_kubecore_schema.Graph.Builder.Build.{◌>>=◌}
use function_kubecore_schema.Graph.Builder.MergedNodes.{Gives, Gives-bind}
use function_kubecore_schema.Traversal.Batches.{ResourceBatch}
use function_kubecore_schema.Traversal.Batches.Process.{
  ResourceProcessingResult, BatchProcessor, BatchProcessingStats, BatchResult, count_result,
  count_results, all_present, take_result, process_each, error_result, new_batch_result, settle,
  process_batch, is_empty, is_nil, option_list,
}

-- `n` resources were processed, each with success or without.
abbrev pub Counted : ℕ → BatchProcessingStats → Type 0
Counted n s = (s.resources_processed ≡ n) × (s.resources_succeeded + s.resources_failed ≡ n)

count_result-Counted :
    (b : Bool) (n : ℕ) (s : BatchProcessingStats) → Counted n s → Counted (suc n) (count_result b s)
unfolding count_result
count_result-Counted true n s h = (ap suc h.0, omega (arith, h.1))
count_result-Counted false n s h = (ap suc h.0, omega (arith, h.1))

module _ {E : Type 0} where
  -- An account of `n` resources: a result for each, and errors if it failed.
  abbrev Account : ℕ → BatchResult E → Type 0
  Account n b =
      (length b.results ≡ n) × (Counted n b.statistics × ((b.success ≡ true) ⊎ (b.errors ≢ [])))

  settled :
      (errors : List E) (success : Bool)
      → (success ≡ true) ⊎ (errors ≢ [])
      → ((if is_empty errors then success else false) ≡ true) ↔ (errors ≡ [])
  settled [] success (inl ok) = (λ _. refl, λ _. ok)
  settled [] success (inr some_error) = absurd (some_error refl)
  settled (e ∷ errors) success ok = (λ h. cc, λ h. cc)

  push-some : (xs : List E) (e : E) → (xs ++ e ∷ []) ≢ []
  push-some [] e h = cc
  push-some (x ∷ xs) e h = cc

  -- An error, or a result that is not nil.
  abbrev pub Replies : Option (ResourceProcessingResult E) × Option E → Type 0
  Replies out = (is_nil out.1 ≡ false) ⊎ (is_some out.0 ≡ true)

  take_result-Account :
      (r : Resource) (out : Option (ResourceProcessingResult E) × Option E) (n : ℕ)
      (b : BatchResult E)
      → Replies out
      → Account n b
      → Gives (Account (suc n)) (take_result r out b)
  take_result-Account r (none, none) n b replies a = elim replies [ inl h ↦ cc | inr h ↦ cc ]
  take_result-Account r (some result, none) n b replies (len, (counts, ok)) = (
    omega (arith, length-append b.results (result ∷ []), len),
    (count_result-Counted result.success n b.statistics counts, ok),
  )
  take_result-Account r (result, some e) n b replies (len, (counts, ok)) = (
    omega (arith, length-append b.results (error_result r e ∷ []), len),
    (count_result-Counted false n b.statistics counts, inr (push-some b.errors e)),
  )

  process_each-Account :
      (processor : BatchProcessor E) (rs : List Resource) (n : ℕ) (b : BatchResult E)
      → All (λ r. Replies (processor.process_resource r)) rs
      → Account n b
      → Gives (Account (n + length rs)) (process_each processor rs b)
  unfolding process_each
  process_each-Account processor [] n b replies a = subst (λ k. Account k b) (omega arith) a
  process_each-Account processor (r ∷ rs) n b (reply, replies) a =
      subst (λ k. Gives (Account k) (process_each processor (r ∷ rs) b)) (omega arith)
        (Gives-bind (Account (suc n)) (Account (suc n + length rs)) _ (process_each processor rs)
          (take_result-Account r (processor.process_resource r) n b reply a)
          (λ b' a'. process_each-Account processor rs (suc n) b' replies a'))

  all_present-length :
      (rs : List (Option (ResourceProcessingResult E)))
      → All (λ o. is_some o ≡ true) rs
      → Gives (λ whole. length whole ≡ length rs) (all_present rs)
  unfolding all_present
  all_present-length [] h = refl
  all_present-length (none ∷ rs) h = absurd (ground (arith, h.0))
  all_present-length (some r ∷ rs) h =
      Gives-bind (λ whole. length whole ≡ length rs) (λ whole. length whole ≡ suc (length rs))
        (all_present rs) _ (all_present-length rs h.1) (λ whole same. ap suc same)

  -- The results stand from the start; the batch counts as a success until its errors are looked at.
  count_results-Account :
      (results : List (ResourceProcessingResult E)) (n : ℕ) (b : BatchResult E)
      → Counted n b.statistics
      → b.success ≡ true
      → ((count_results results b).results ≡ b.results)
        × (Counted (n + length results) (count_results results b).statistics
            × ((count_results results b).success ≡ true))
  unfolding count_results
  count_results-Account [] n b c ok =
      (refl, (subst (λ k. Counted k b.statistics) (omega arith) c, ok))
  count_results-Account (r ∷ rs) n b c ok =
      let b' : BatchResult E = record b {
        errors = if r.success then b.errors else b.errors ++ option_list r.error;
        statistics = count_result r.success b.statistics;
      } in
      let (same, (counts, fine)) =
        count_results-Account rs (suc n) b' (count_result-Counted r.success n b.statistics c) ok in
      (same, (subst (λ k. Counted k (count_results rs b').statistics) (omega arith) counts, fine))

  -- What `ProcessBatch` reports of `n` resources.
  abbrev pub Accounted : ℕ → BatchResult E → Type 0
  Accounted n b =
      (length b.results ≡ n) × (Counted n b.statistics × ((b.success ≡ true) ↔ (b.errors ≡ [])))

  settle-Accounted : (n : ℕ) (b : BatchResult E) → Account n b → Accounted n (settle b)
  settle-Accounted n b (len, (counts, ok)) = (len, (counts, settled b.errors b.success ok))

  whole-Account :
      (batch : ResourceBatch) (results : List (Option (ResourceProcessingResult E)))
      → length results ≡ length batch.resources
      → All (λ o. is_some o ≡ true) results
      → Gives (Account (length batch.resources)) (
          all_present results >>= λ whole.
          some (count_results whole (record (new_batch_result batch.id) { results = whole })))
  whole-Account batch results same all =
      Gives-bind (λ whole. length whole ≡ length results) (Account (length batch.resources))
        (all_present results) _ (all_present-length results all)
        (λ whole len.
          let start : BatchResult E = record (new_batch_result batch.id) { results = whole } in
          let (kept, (counts, fine)) = count_results-Account whole 0 start (refl, refl) refl in
          (
            ap length kept ∙ (len ∙ same),
            (
              subst (λ k. Counted k (count_results whole start).statistics)
                  (omega (arith, len, same)) counts,
              inl fine,
            ),
          ))

  -- Where the processor returns no nil result without an error, `ProcessBatch` returns. It has a result
  -- for each resource of the batch, counts every one of them as processed and either as succeeded or as
  -- failed, and reports success exactly if it lists no error, whether the processor took the batch as a
  -- whole or its resources one by one.
  pub process_batch-Accounted :
      (processor : BatchProcessor E) (batch : ResourceBatch)
      → All (λ r. Replies (processor.process_resource r)) batch.resources
      → (is_nil (processor.process_batch batch.resources).1 ≡ false)
        ⊎ All (λ o. is_some o ≡ true) (processor.process_batch batch.resources).0
      → Gives (Accounted (length batch.resources)) (process_batch processor batch)
  unfolding process_batch
  process_batch-Accounted processor batch replies whole_replies =
      let out = processor.process_batch batch.resources in
      let n = length batch.resources in
      elim (Bool-cases (is_nil out.1 && nat_beq (length out.0) n)) [
        | inl whole ↦
            let same = (nat_beq_iff (length out.0) n).0 (ground (arith, whole)) in
            let all : All (λ o. is_some o ≡ true) out.0 = elim whole_replies [
              | inl failed ↦ absurd (ground (arith, whole, failed))
              | inr all ↦ all
            ] in
            rw whole (
              Gives-bind (Account n) (Accounted n) _ _ (whole-Account batch out.0 same all)
                (λ b a. settle-Accounted n b a))
        | inr each ↦ rw each (
            Gives-bind (Account n) (Accounted n)
              (process_each processor batch.resources (new_batch_result batch.id)) _
              (subst
                (λ k.
                  Gives (Account k)
                    (process_each processor batch.resources (new_batch_result batch.id)))
                (omega arith)
                (process_each-Account processor batch.resources 0 (new_batch_result batch.id)
                  replies (refl, ((refl, refl), inl refl))))
              (λ b a. settle-Accounted n b a))
      ]
