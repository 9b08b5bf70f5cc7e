-- ===== src/Direct/ArcConsistency.antt =====
-- AC3 (`binaryFiltering` of src/constraints/direct/csp_handler.cxx) ends with all arcs consistent.
use mathlib.Core.Path.{subst}
use planner.Prelude.{
  ℕ, suc, ◌+◌, ◌*◌, ◌<◌, ◌≡◌, refl, sym, inl, inr, ◌⊎◌, Bool, true, false, not, List, [], ◌∷◌, ◌==◌,
  ==_iff, arith, length, All, get_elem?, some, bool_eq, bool_eq_iff, Bool-cases,
}
use planner.Prelude.Outcome.{ok}
use planner.Direct.Domain.{FilteringOutput, failure, pruned, unpruned}
use planner.Direct.DomainMap.{DomainMap, write, Valid, total}
use planner.Direct.Handler.{
  Binary, filtered, other, Arc, same_arc, is_failure, insert_related, initialize_worklist,
  binary_filtering,
}
use planner.Direct.Arc.{supported}
use planner.Direct.Worklist.{initialize_worklist-All, length-initialize_worklist}
use planner.Direct.Requeue.{
  queued, queued-insert_related, insert_related-other, initialize_worklist_all,
}
use planner.Direct.Loop.{
  Covered, Covered-filtered, All-get_elem?, kept, Ready, Keeps, Ended, binary_filtering-Ends,
}
use planner.Direct.Consistency.{
  Consistent, Proper, distinct, self-Consistent, opposite-Consistent, other-Consistent,
}

module _ (address : ℕ → ℕ) (bs : List Binary) (proper : All Proper bs) where
  -- Every arc is consistent or still in the worklist.
  abbrev Arcs : List Arc → DomainMap → Type 0
  Arcs ws m =
      (j : ℕ) (t : Bool) (c : Binary)
      → get_elem? bs j ≡ some c
      → (queued (j, t) ws ≡ true) ⊎ Consistent c t m

  same_constraint :
      (i j : ℕ) (b c : Binary)
      → get_elem? bs i ≡ some b
      → get_elem? bs j ≡ some c
      → (j == i) ≡ true
      → b ≡ c
  same_constraint i j b c at at' e =
      let same : j ≡ i = (==_iff j i).0 e in
      let at'' : get_elem? bs i ≡ some c = rw (← same) at' in cc

  not_same : (t side : Bool) → bool_eq t side ≡ false → not side ≡ t
  not_same true true h = cc
  not_same true false h = refl
  not_same false true h = refl
  not_same false false h = cc

  module _ (i : ℕ) (side : Bool) (b : Binary) (ws : List Arc) (m : DomainMap)
      (at : get_elem? bs i ≡ some b) (cover : Covered m b) where
    Proper-here : Proper b
    Proper-here = All-get_elem? Proper bs i proper at

    -- The other arc of the constraint.
    same_Consistent :
        (t : Bool)
        → (filtered b side == other b t) ≡ true
        → Consistent b t m
        → Consistent b t (write m (filtered b side) (kept b side m))
    same_Consistent t e h = elim (Bool-cases (bool_eq t side)) [
      | inl f ↦
          let same : t ≡ side = (bool_eq_iff t side).0 f in
          let e' : (filtered b side == other b side) ≡ true =
            subst (λ x. (filtered b side == other b x) ≡ true) same e in
          let no = distinct b side Proper-here in absurd (ground arith)
      | inr f ↦
          subst (λ x. Consistent b x m → Consistent b x (write m (filtered b side) (kept b side m)))
            (not_same t side f) (opposite-Consistent b side m cover Proper-here) h
    ]

    -- An arc that was consistent.
    after-Consistent :
        (j : ℕ) (t : Bool) (c : Binary)
        → get_elem? bs j ≡ some c
        → Consistent c t m
        → (queued (j, t) (insert_related address bs 0 i (filtered b side) ws) ≡ true)
          ⊎ Consistent c t (write m (filtered b side) (kept b side m))
    after-Consistent j t c at' h = elim (Bool-cases (filtered b side == other c t)) [
      | inr e ↦ inr (
          other-Consistent c t m (filtered b side) (supported b side m)
            (Covered-filtered m b side cover) e h)
      | inl e ↦ elim (Bool-cases (j == i)) [
        | inr f ↦ inl (
            insert_related-other address bs j 0 j i (filtered b side) c t ws at' (omega arith) f
              (All-get_elem? Proper bs j proper at')
              (sym ((==_iff (filtered b side) (other c t)).0 e)))
        | inl f ↦ inr (
            subst
              (λ x.
                (filtered b side == other x t) ≡ true
                → Consistent x t m
                → Consistent x t (write m (filtered b side) (kept b side m)))
              (same_constraint i j b c at at' f) (same_Consistent t) e h)
      ]
    ]

    -- An arc of the worklist.
    after_queued :
        (j : ℕ) (t : Bool) (c : Binary)
        → get_elem? bs j ≡ some c
        → queued (j, t) ((i, side) ∷ ws) ≡ true
        → (queued (j, t) (insert_related address bs 0 i (filtered b side) ws) ≡ true)
          ⊎ Consistent c t (write m (filtered b side) (kept b side m))
    after_queued j t c at' h = elim (Bool-cases (same_arc (j, t) (i, side))) [
      | inr e ↦ inl (queued-insert_related address (j, t) bs 0 i (filtered b side) ws (rw e at h))
      | inl e ↦
          let here : (j == i) ≡ true = ground arith in
          let same : side ≡ t = sym ((bool_eq_iff t side).0 (ground arith)) in
          inr (
            subst (λ x. Consistent x t (write m (filtered b side) (kept b side m)))
              (same_constraint i j b c at at' here)
              (subst (λ x. Consistent b x (write m (filtered b side) (kept b side m))) same
                (self-Consistent b side m cover Proper-here)))
    ]

  still :
      (i : ℕ) (side : Bool) (b : Binary) (ws : List Arc) (m : DomainMap)
      → get_elem? bs i ≡ some b
      → Arcs ((i, side) ∷ ws) m
      → Consistent b side m
      → Arcs ws m
  still i side b ws m at p h j t c at' = elim (p j t c at') [
    | inr con ↦ inr con
    | inl q ↦ elim (Bool-cases (same_arc (j, t) (i, side))) [
      | inr e ↦ inl (rw e at q)
      | inl e ↦
          let here : (j == i) ≡ true = ground arith in
          let same : side ≡ t = sym ((bool_eq_iff t side).0 (ground arith)) in
          inr (
            subst (λ x. Consistent x t m) (same_constraint i j b c at at' here)
              (subst (λ x. Consistent b x m) same h))
    ]
  ]

  keeping : Keeps address bs Arcs
  keeping = record {
    unchanged = λ i side b ws m at cover p every. still i side b ws m at p every;
    changed = λ i side b ws m at cover p j t c at'. elim (p j t c at') [
      | inl q ↦ after_queued i side b ws m at cover j t c at' q
      | inr con ↦ after-Consistent i side b ws m at cover j t c at' con
    ];
  }

  all_Consistent :
      (o : FilteringOutput) (m : DomainMap) (ws : List Arc)
      → Ended address bs Arcs o m ws
      → is_failure o ≡ false
      → (j : ℕ) (t : Bool) (c : Binary) → get_elem? bs j ≡ some c
      → Consistent c t m
  all_Consistent failure m ws h f j t c at = cc
  all_Consistent pruned m ws (e, r, p) f j t c at = elim (p j t c at) [ inl q ↦ cc | inr con ↦ con ]
  all_Consistent unpruned m ws (e, r, p) f j t c at = elim (p j t c at) [
    | inl q ↦ cc
    | inr con ↦ con
  ]

-- Both arcs of a constraint are consistent.
abbrev pub ArcConsistent : DomainMap → Binary → Type 0
ArcConsistent m c = Consistent c false m × Consistent c true m

All-of_get_elem? :
    (P : Binary → Type 0) (bs : List Binary)
    → ((j : ℕ) (c : Binary) → get_elem? bs j ≡ some c → P c)
    → All P bs
All-of_get_elem? P [] h = tt
All-of_get_elem? P (b ∷ bs) h = (h 0 b refl, All-of_get_elem? P bs (λ j c e. h (suc j) c e))

-- The AC3 loop ends, with all arcs consistent: from domains in ascending order that are not empty, with one
-- for every variable of a scope, and constraints on two different variables each, the loop from the
-- initial worklist, with more fuel than the number of values times one more than the number of
-- constraints plus twice the number of constraints, returns; and unless the output is a failure, every
-- value that is left in the domain of either variable of a constraint is related to some value that is left
-- in the domain of the other.
pub binary_filtering-Consistent :
    (address : ℕ → ℕ) (bs : List Binary) (m : DomainMap) (fuel : ℕ)
    → Valid m
    → All (Covered m) bs
    → All Proper bs
    → total m * suc (length bs) + 2 * length bs < fuel
    → (r : FilteringOutput × DomainMap × List Arc) × (binary_filtering address fuel bs unpruned
          (initialize_worklist address bs 0 [])
          m
        ≡ ok r)
      × ((is_failure r.0 ≡ true) ⊎ All (ArcConsistent r.1) bs)
binary_filtering-Consistent address bs m fuel valid covered proper enough =
    let worklist = initialize_worklist address bs 0 [] in
    let ready : Ready bs worklist m = record {
      valid = valid;
      covered = covered;
      arcs = initialize_worklist-All address bs 0 (length bs) [] (omega arith) tt;
    } in
    let (r, e, h) =
      binary_filtering-Ends address bs (Arcs address bs proper) (keeping address bs proper) fuel
        unpruned worklist m refl ready
        (λ j t c at. inl (initialize_worklist_all address bs j 0 j c t [] at (omega arith)))
        (omega (arith, length-initialize_worklist address bs 0 [])) in
    (
      r,
      e,
      elim (Bool-cases (is_failure r.0)) [
        | inl f ↦ inl f
        | inr f ↦ inr (
            All-of_get_elem? (ArcConsistent r.1) bs (λ j c at. (
              all_Consistent address bs proper r.0 r.1 r.2 h f j false c at,
              all_Consistent address bs proper r.0 r.1 r.2 h f j true c at,
            )))
      ],
    )
