-- ===== src/Traversal/Tracker/Indexed.antt =====
-- The index of UIDs of a `ResourceTracker` leads back to the entries.
use function_kubecore_schema.Base.{
  ℕ, ◌≡◌, refl, sym, subst, ◌⊎◌, inl, inr, String, none, some, [], ◌∷◌, arith, string_eq, ◌==◌,
  ==_iff, ==_refl, Bool-cases, Option-cases, ℤ, Dict, Entries, Entries-insert, Entries-lookup,
  lookup, insert, lookup-insert,
}
use function_kubecore_schema.Traversal.Tracker.{
  ProcessedResourceInfo, ResourceTracker, process_again, new_info, enter_info, put_info,
  mark_processed, mark_own, same_uid, mark_processed_with_uid, update_info,
}
use function_kubecore_schema.Traversal.Tracker.Inv.{TrackerInv}

module _ {V : Type 0} where
  -- An entry without a UID, or the one that its UID leads to.
  abbrev pub Led : Dict String String → String → ProcessedResourceInfo V → Type 0
  Led ix k i = (i.uid ≡ "") ⊎ (lookup i.uid ix ≡ some k)

  abbrev pub Indexed : ResourceTracker V → Type 0
  Indexed rt = Entries (Led rt.uid_index) rt.processed_resources

  -- The resource that another one is taken for has an entry.
  pub same_uid-found :
      (rt : ResourceTracker V) (k u l : String) (i : ProcessedResourceInfo V)
      → same_uid k u rt ≡ some (l, i)
      → lookup l rt.processed_resources ≡ some i
  unfolding same_uid
  same_uid-found rt k u l i h = elim (Option-cases (lookup u rt.uid_index)) [
    | inl absent ↦ ground (arith, h, absent)
    | inr (m, indexed) ↦ elim (Option-cases (lookup m rt.processed_resources)) [
      | inl gone ↦ ground (arith, h, indexed, gone)
      | inr (j, found) ↦ ground (arith, h, indexed, found)
    ]
  ]

  module _ (ix : Dict String String) (u k : String)
      (free : (l : String) → lookup u ix ≡ some l → l ≡ k) where
    -- A UID enters the index where it leads nowhere yet, or to the same resource.
    Led-index : (l : String) (i : ProcessedResourceInfo V) → Led ix l i → Led (insert u k ix) l i
    Led-index l i (inl no_uid) = inl no_uid
    Led-index l i (inr leads) = elim (Bool-cases (u == i.uid)) [
      | inl same ↦
          let leads' = subst (λ v. lookup v ix ≡ some l) (sym ((==_iff u i.uid).0 same)) leads in
          inr (ground (arith, same, free l leads', lookup-insert u i.uid k ix))
      | inr other ↦ inr (ground (arith, other, leads, lookup-insert u i.uid k ix))
    ]

    Entries-index :
        (m : Dict String (ProcessedResourceInfo V))
        → Entries (Led ix) m
        → Entries (Led (insert u k ix)) m
    Entries-index [] h = tt
    Entries-index ((l, i) ∷ m) (h, rest) = (Led-index l i h, Entries-index m rest)

  module _ (rt : ResourceTracker V) (h : Indexed rt) where
    -- A new version of an entry with the same UID.
    put_info-Indexed :
        (k : String) (i j : ProcessedResourceInfo V)
        → lookup k rt.processed_resources ≡ some i
        → j.uid ≡ i.uid
        → Indexed (put_info k j rt)
    put_info-Indexed k i j found same =
        let led = Entries-lookup (Led rt.uid_index) k rt.processed_resources i h found in
        Entries-insert (Led rt.uid_index) k j rt.processed_resources
          (subst (λ v. (v ≡ "") ⊎ (lookup v rt.uid_index ≡ some k)) (sym same) led) h

    pub mark_processed-Indexed :
        (now : ℕ) (k : String) (d : ℤ) → Indexed (mark_processed now k d rt)
    unfolding mark_processed enter_info
    mark_processed-Indexed now k d = elim (Option-cases (lookup k rt.processed_resources)) [
      | inl new ↦
          rw (new, mark_processed)
            (Entries-insert (Led rt.uid_index) k (new_info now k "" d) rt.processed_resources
              (inl refl) h)
      | inr (i, found) ↦
          rw (found, mark_processed) (put_info-Indexed k i (process_again now i) found refl)
    ]

    pub update_info-Indexed :
        (k : String) (f : ProcessedResourceInfo V → ProcessedResourceInfo V)
        → ((i : ProcessedResourceInfo V) → (f i).uid ≡ i.uid)
        → Indexed (update_info k f rt)
    update_info-Indexed k f keeps = elim (Option-cases (lookup k rt.processed_resources)) [
      | inl absent ↦ rw (absent, update_info) h
      | inr (i, found) ↦ rw (found, update_info) (put_info-Indexed k i (f i) found (keeps i))
    ]

    -- The entry of a resource whose UID enters the index with it.
    own-Indexed :
        (u k : String) (j : ProcessedResourceInfo V)
        → ((l : String) → lookup u rt.uid_index ≡ some l → l ≡ k)
        → j.uid ≡ u
        → Entries (Led (insert u k rt.uid_index)) (insert k j rt.processed_resources)
    own-Indexed u k j free same =
        Entries-insert (Led (insert u k rt.uid_index)) k j rt.processed_resources
          (inr (ground (arith, same, ==_refl u, lookup-insert u j.uid k rt.uid_index)))
          (Entries-index rt.uid_index u k free rt.processed_resources h)

    mark_own-Indexed :
        (now : ℕ) (k u : String) (d : ℤ)
        → ((l : String) → lookup u rt.uid_index ≡ some l → l ≡ k)
        → Indexed (mark_own now k u d rt)
    unfolding mark_own enter_info
    mark_own-Indexed now k u d free = elim (Option-cases (lookup k rt.processed_resources)) [
      | inl new ↦ rw (new, mark_own) (own-Indexed u k (new_info now k u d) free refl)
      | inr (i, found) ↦
          rw (found, mark_own)
            (own-Indexed u k (record (process_again now i) { uid = u }) free refl)
    ]

    module _ (inv : TrackerInv rt) where
      same_uid-free :
          (k u l : String) → same_uid k u rt ≡ none → lookup u rt.uid_index ≡ some l → l ≡ k
      unfolding same_uid
      same_uid-free k u l h leads = ground (arith, h, leads, inv.uids u l leads, ==_iff l k)

      pub mark_uid-Indexed :
          (now : ℕ) (k u : String) (d : ℤ) → Indexed (mark_processed_with_uid now k u d rt)
      unfolding mark_processed_with_uid
      mark_uid-Indexed now k u d = elim (Option-cases (same_uid k u rt)) [
        | inl own ↦
            rw (own, mark_processed_with_uid)
              (mark_own-Indexed now k u d (λ l. same_uid-free k u l own))
        | inr ((l, i), other) ↦
            rw (other, mark_processed_with_uid)
              (put_info-Indexed l i (process_again now i) (same_uid-found rt k u l i other) refl)
      ]
