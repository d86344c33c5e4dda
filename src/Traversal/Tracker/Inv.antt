-- ===== src/Traversal/Tracker/Inv.antt =====
-- The indexes of a `ResourceTracker` agree with its entries.
use function_kubecore_schema.Base.{
  ℕ, ◌≤◌, ◌≡◌, refl, sym, ap, ◌∙◌, subst, ◌↔◌, ◌⊎◌, inl, inr, String, true, false, none, some, List,
  [], ◌∷◌, ◌++◌, arith, string_eq, int_eq, ◌==◌, ==_iff, ==_refl, Bool-cases, Member-push,
  iff_trans, iff_sym, iff_left, length, length-append, Member, ℤ, Dict, Entries, Entries-insert,
  lookup, insert, has, get_or, lookup-insert, length-insert, Unique, Unique-insert, has-insert,
}
use function_kubecore_schema.Traversal.Tracker.{
  ProcessedResourceInfo, ResourceTracker, new_resource_tracker, enter_info, put_info,
}

get_or-insert_same :
    (ix : Dict ℤ (List String)) (d : ℤ) (v : List String) → get_or d (insert d v ix) [] ≡ v
get_or-insert_same ix d v =
    let here : lookup d (insert d v ix) ≡ some v = lookup-insert d d v ix ∙ rw (==_refl d) refl in
    ap (λ o. elim o [ none ↦ [] | some w ↦ w ]) here

get_or-insert_other :
    (ix : Dict ℤ (List String)) (d e : ℤ) (v : List String)
    → (d == e) ≡ false
    → get_or e (insert d v ix) [] ≡ get_or e ix []
get_or-insert_other ix d e v other =
    let there : lookup e (insert d v ix) ≡ lookup e ix = lookup-insert d e v ix ∙ rw other refl in
    ap (λ o. elim o [ none ↦ [] | some w ↦ w ]) there

-- The resources at a depth, after one is appended at a depth.
listed_push :
    (ix : Dict ℤ (List String)) (a b : String) (d e : ℤ)
    → Member a (get_or e (insert d (get_or d ix [] ++ (b ∷ [])) ix) [])
      ↔ (Member a (get_or e ix []) ⊎ ((a ≡ b) × (e ≡ d)))
listed_push ix a b d e = elim (Bool-cases (d == e)) [
  | inl same ↦
      let q = (==_iff d e).0 same in
      let listed = Member-push a b (get_or d ix []) in
      let base : Member a (get_or d (insert d (get_or d ix [] ++ (b ∷ [])) ix) [])
          ↔ (Member a (get_or d ix []) ⊎ ((a ≡ b) × (d ≡ d))) =
        subst (λ t. Member a t ↔ (Member a (get_or d ix []) ⊎ ((a ≡ b) × (d ≡ d))))
          (sym (get_or-insert_same ix d (get_or d ix [] ++ (b ∷ []))))
          (
            λ h. elim (listed.0 h) [ inl m ↦ inl m | inr p ↦ inr (p, refl) ],
            λ h. elim h [ inl m ↦ listed.1 (inl m) | inr p ↦ listed.1 (inr p.0) ],
          ) in
      subst
        (λ x.
          Member a (get_or x (insert d (get_or d ix [] ++ (b ∷ [])) ix) [])
          ↔ (Member a (get_or x ix []) ⊎ ((a ≡ b) × (x ≡ d))))
        q base
  | inr other ↦
      subst (λ t. Member a t ↔ (Member a (get_or e ix []) ⊎ ((a ≡ b) × (e ≡ d))))
        (sym (get_or-insert_other ix d e (get_or d ix [] ++ (b ∷ [])) other))
        (
          λ h. inl h,
          λ h. elim h [ inl m ↦ m | inr p ↦ absurd (ground (arith, other, ==_iff d e, p.1)) ],
        )
]

module _ {V : Type 0} where
  -- A resource that was discovered at a depth.
  abbrev pub FoundAt : String → ℤ → Dict String (ProcessedResourceInfo V) → Type 0
  FoundAt k d m = (i : ProcessedResourceInfo V) × (lookup k m ≡ some i) × (i.depth ≡ d)

  -- An entry under its identifier that was processed at least once.
  abbrev pub Counted : String → ProcessedResourceInfo V → Type 0
  Counted k i = (i.resource_id ≡ k) × (1 ≤ i.processing_count)

  pub record TrackerInv (rt : ResourceTracker V) : Type 0 where
    pub unique : Unique rt.processed_resources
    pub counted : Entries Counted rt.processed_resources
    pub order : (k : String) → Member k rt.processing_order ↔ (has k rt.processed_resources ≡ true)
    pub order_length : length rt.processing_order ≡ length rt.processed_resources
    pub depths :
        (k : String) (d : ℤ)
        → Member k (get_or d rt.depth_index []) ↔ FoundAt k d rt.processed_resources
    pub uids : (u k : String) → lookup u rt.uid_index ≡ some k → has k rt.processed_resources ≡ true

  pub TrackerInv-new : (now : ℕ) → TrackerInv (new_resource_tracker now)
  unfolding new_resource_tracker lookup
  TrackerInv-new now = record {
    unique = tt;
    counted = tt;
    order = λ k. (λ h. absurd h, λ h. cc);
    order_length = refl;
    depths = λ k d. (λ h. absurd h, λ h. cc);
    uids = λ u k h. cc;
  }

  module _ (m : Dict String (ProcessedResourceInfo V)) (k : String)
      (j : ProcessedResourceInfo V) where
    has-put :
        (i : ProcessedResourceInfo V) (l : String)
        → lookup k m ≡ some i
        → has l (insert k j m) ≡ has l m
    has-put i l found = elim (Bool-cases (k == l)) [
      | inl same ↦
          let found' : lookup l m ≡ some i =
            subst (λ x. lookup x m ≡ some i) ((==_iff k l).0 same) found in
          rw (lookup-insert, same, found') refl
      | inr other ↦ rw (lookup-insert, other) refl
    ]

    FoundAt-put :
        (i : ProcessedResourceInfo V) (l : String) (d : ℤ)
        → lookup k m ≡ some i
        → j.depth ≡ i.depth
        → FoundAt l d m ↔ FoundAt l d (insert k j m)
    FoundAt-put i l d found depth = elim (Bool-cases (k == l)) [
      | inl same ↦
          let found' : lookup l m ≡ some i =
            subst (λ x. lookup x m ≡ some i) ((==_iff k l).0 same) found in
          let here : lookup l (insert k j m) ≡ some j = rw (lookup-insert, same) refl in
          (λ (x, at, deep). (j, here, cc), λ (x, at, deep). (i, found', cc))
      | inr other ↦
          let there : lookup l (insert k j m) ≡ lookup l m = rw (lookup-insert, other) refl in
          (λ (x, at, deep). (x, there ∙ at, deep), λ (x, at, deep). (x, sym there ∙ at, deep))
    ]

    has-enter : (l : String) → (has l (insert k j m) ≡ true) ↔ ((has l m ≡ true) ⊎ (l ≡ k))
    has-enter l = elim (Bool-cases (k == l)) [
      | inl same ↦ (λ h. inr (sym ((==_iff k l).0 same)), λ h. rw (lookup-insert, same) refl)
      | inr other ↦
          let there : lookup l (insert k j m) ≡ lookup l m = rw (lookup-insert, other) refl in
          (λ h. inl (rw (sym there) h), λ h. ground (arith, h, other, there, ==_iff k l))
    ]

    FoundAt-enter :
        (l : String) (d : ℤ)
        → lookup k m ≡ none
        → FoundAt l d (insert k j m) ↔ (FoundAt l d m ⊎ ((l ≡ k) × (d ≡ j.depth)))
    FoundAt-enter l d new = elim (Bool-cases (k == l)) [
      | inl same ↦
          let new' : lookup l m ≡ none = subst (λ x. lookup x m ≡ none) ((==_iff k l).0 same) new in
          let here : lookup l (insert k j m) ≡ some j = rw (lookup-insert, same) refl in
          (
            λ (x, at, deep). inr (sym ((==_iff k l).0 same), cc),
            λ h. elim h [ inl (x, at, deep) ↦ absurd (cc) | inr (p, q) ↦ (j, here, sym q) ],
          )
      | inr other ↦
          let there : lookup l (insert k j m) ≡ lookup l m = rw (lookup-insert, other) refl in
          (
            λ (x, at, deep). inl (x, sym there ∙ at, deep),
            λ h. elim h [
              | inl (x, at, deep) ↦ (x, there ∙ at, deep)
              | inr (p, q) ↦ absurd (ground (arith, other, ==_iff k l, p))
            ],
          )
    ]

  module _ (rt : ResourceTracker V) (inv : TrackerInv rt) where
    pub put_info-Inv :
        (k : String) (i j : ProcessedResourceInfo V)
        → lookup k rt.processed_resources ≡ some i
        → Counted k j
        → j.depth ≡ i.depth
        → TrackerInv (put_info k j rt)
    put_info-Inv k i j found counted depth = record {
      unique = Unique-insert k j rt.processed_resources inv.unique;
      counted = Entries-insert Counted k j rt.processed_resources counted inv.counted;
      order = λ l. rw (has-put rt.processed_resources k j i l found) (inv.order l);
      order_length = inv.order_length ∙ sym (rw (length-insert, found) refl);
      depths = λ l d.
          iff_trans (inv.depths l d) (FoundAt-put rt.processed_resources k j i l d found depth);
      uids = λ u l h. has-insert k l j rt.processed_resources (inv.uids u l h);
    }

    pub enter_info-Inv :
        (k : String) (d : ℤ) (j : ProcessedResourceInfo V)
        → lookup k rt.processed_resources ≡ none
        → Counted k j
        → j.depth ≡ d
        → TrackerInv (enter_info k d j rt)
    unfolding enter_info
    enter_info-Inv k d j new counted depth = record {
      unique = Unique-insert k j rt.processed_resources inv.unique;
      counted = Entries-insert Counted k j rt.processed_resources counted inv.counted;
      order = λ l.
          iff_trans (Member-push l k rt.processing_order)
            (iff_trans (iff_left (inv.order l)) (iff_sym (has-enter rt.processed_resources k j l)));
      order_length = rw (length-append, length-insert, new, inv.order_length) (omega arith);
      depths = λ l e. iff_trans (listed_push rt.depth_index l k d e) (
          iff_trans (iff_left (inv.depths l e)) (
            iff_sym (
              subst
                (λ x.
                  FoundAt l e (insert k j rt.processed_resources)
                  ↔ (FoundAt l e rt.processed_resources ⊎ ((l ≡ k) × (e ≡ x))))
                depth (FoundAt-enter rt.processed_resources k j l e new))));
      uids = λ u l h. has-insert k l j rt.processed_resources (inv.uids u l h);
    }

    pub index_uid-Inv :
        (u k : String)
        → has k rt.processed_resources ≡ true
        → TrackerInv (record rt { uid_index = insert u k rt.uid_index })
    index_uid-Inv u k known = record {
      unique = inv.unique;
      counted = inv.counted;
      order = inv.order;
      order_length = inv.order_length;
      depths = inv.depths;
      uids = λ v l h. elim (Bool-cases (u == v)) [
        | inl same ↦
            let h' : some k ≡ some l = sym (rw (lookup-insert, same) refl) ∙ h in
            ground (arith, h', known)
        | inr other ↦ inv.uids v l (sym (rw (lookup-insert, other) refl) ∙ h)
      ];
    }
