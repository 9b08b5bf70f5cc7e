-- ===== src/Direct/Reduction.antt =====
-- The specialised filters of src/constraints/direct/builtin.cxx against those that the base
-- classes of src/constraints/direct/constraint.cxx would run with the `isSatisfied` of the class.
use planner.Prelude.{
  ◌≡◌, refl, sym, ap, ◌⊎◌, inl, inr, Bool, true, false, not, [], ◌∷◌, arith, all, any,
}
use planner.Prelude.Int.{ℤ, eq_ℤ}
use planner.Prelude.Outcome.{Result, ok}
use planner.Direct.Domain.{
  FilteringOutput, failure, pruned, unpruned, Domain, Ascending, last_from, is_empty,
}
use planner.Direct.Constraint.{
  BinaryClass, lt, leq, eq, neq, related, arc_reduce, reduce, filter_neq, erase_value,
}
use planner.Direct.Branches.{
  classify, Agrees, classify-all, filter_lt_lem, filter_leq_lem, filter_gt_lem, filter_geq_lem,
  supported_lt, supported_leq, supported_gt, supported_geq, eq_ℤ_sym, member_sym, filter_eq_lem,
  erase_value_lem, arc_reduce-classify, agree,
}

-- A filter that returns, with a result that agrees with the reference.
abbrev pub Filters : Result (FilteringOutput × Domain) → FilteringOutput × Domain → Type 0
Filters filtered reference = (r : FilteringOutput × Domain) × (filtered ≡ ok r) × Agrees r reference

all_everywhere : (p : ℤ → Bool) (d : Domain) → ((x : ℤ) → p x ≡ true) → all p d ≡ true
all_everywhere p [] h = refl
all_everywhere p (x ∷ xs) h = rw (h x) (all_everywhere p xs h)

module _ (c : BinaryClass) (side : Bool) (x : ℤ) (xs : Domain) (other : Domain) where
  -- A filter that keeps what satisfies p, where p says which values have a support.
  by_support :
      (p : ℤ → Bool) (filtered : Result (FilteringOutput × Domain))
      → filtered ≡ ok (classify p (x ∷ xs))
      → ((a : ℤ) → any (related c side a) other ≡ p a)
      → Filters filtered (arc_reduce (related c side) (x ∷ xs) other)
  by_support p filtered e h = (
    classify p (x ∷ xs),
    e,
    agree _ _ (sym (arc_reduce-classify (related c side) (x ∷ xs) other p h)),
  )

module _ (side : Bool) (x : ℤ) (xs : Domain) (z : ℤ) where
  related_neq : (a b : ℤ) → related neq side a b ≡ not (eq_ℤ a b)
  related_neq a b = elim side as (λ s. related neq s a b ≡ not (eq_ℤ a b)) [
    | true ↦ ap not (eq_ℤ_sym b a)
    | false ↦ refl
  ]

  neq-arc_reduce :
      (zs : Domain)
      → Ascending (x ∷ xs)
      → Ascending (z ∷ zs)
      → Filters (filter_neq (x ∷ xs) (z ∷ zs)) (arc_reduce (related neq side) (x ∷ xs) (z ∷ zs))
  unfolding filter_neq
  neq-arc_reduce [] h k =
      let one : (a : ℤ) → any (related neq side a) (z ∷ []) ≡ not (eq_ℤ a z) =
        λ a. ground (arith, related_neq a z) in
      (
        erase_value z (x ∷ xs),
        ground arith,
        rw (arc_reduce-classify (related neq side) (x ∷ xs) (z ∷ []) (λ a. not (eq_ℤ a z)) one)
            (erase_value_lem z (x ∷ xs) refl h),
      )
  neq-arc_reduce (w ∷ ws) h k =
      let p : ℤ → Bool = λ a. any (related neq side a) (z ∷ (w ∷ ws)) in
      let every : (a : ℤ) → p a ≡ true =
        λ a. ground (arith, related_neq a z, related_neq a w, k.0.0) in
      by_support neq side x xs (z ∷ (w ∷ ws)) p _
        (ground (arith, classify-all p (x ∷ xs) refl (all_everywhere p (x ∷ xs) every))) (λ a. refl)

pub reduce-Agrees :
    (c : BinaryClass) (side : Bool) (domain other : Domain)
    → Ascending domain
    → Ascending other
    → is_empty domain ≡ false
    → is_empty other ≡ false
    → Filters (reduce c side domain other) (arc_reduce (related c side) domain other)
unfolding reduce
reduce-Agrees c side [] other h k e f = cc
reduce-Agrees c side (x ∷ xs) [] h k e f = cc
reduce-Agrees lt false (x ∷ xs) (z ∷ zs) h k e f =
    by_support lt false x xs (z ∷ zs) _ _ (filter_lt_lem x xs z (last_from z zs) h)
      (supported_lt z zs k)
reduce-Agrees lt true (x ∷ xs) (z ∷ zs) h k e f =
    by_support lt true x xs (z ∷ zs) _ _ (filter_gt_lem x xs z (last_from z zs) h)
      (supported_gt z zs k)
reduce-Agrees leq false (x ∷ xs) (z ∷ zs) h k e f =
    by_support leq false x xs (z ∷ zs) _ _ (filter_leq_lem x xs z (last_from z zs) h)
      (supported_leq z zs k)
reduce-Agrees leq true (x ∷ xs) (z ∷ zs) h k e f =
    by_support leq true x xs (z ∷ zs) _ _ (filter_geq_lem x xs z (last_from z zs) h)
      (supported_geq z zs k)
reduce-Agrees eq false (x ∷ xs) (z ∷ zs) h k e f =
    by_support eq false x xs (z ∷ zs) _ _ (filter_eq_lem (x ∷ xs) (z ∷ zs) refl k)
      (λ a. sym (member_sym a (z ∷ zs)))
reduce-Agrees eq true (x ∷ xs) (z ∷ zs) h k e f =
    by_support eq true x xs (z ∷ zs) _ _ (filter_eq_lem (x ∷ xs) (z ∷ zs) refl k) (λ a. refl)
reduce-Agrees neq side (x ∷ xs) (z ∷ zs) h k e f = neq-arc_reduce side x xs z zs h k
reduce-Agrees (BinaryClass.tested p) side (x ∷ xs) (z ∷ zs) h k e f = (_, refl, agree _ _ refl)

-- The output of the reference, and, unless that is a failure, its domain.
abbrev pub SameFiltering : Result (FilteringOutput × Domain) → FilteringOutput × Domain → Type 0
SameFiltering filtered reference =
    (r : FilteringOutput × Domain) × (filtered ≡ ok r)
    × (r.0 ≡ reference.0)
    × ((r.0 ≡ failure) ⊎ (r.1 ≡ reference.1))

pub same_filtering :
    (filtered : Result (FilteringOutput × Domain)) (reference : FilteringOutput × Domain)
    → Filters filtered reference
    → SameFiltering filtered reference
same_filtering filtered reference ((failure, d), e, a) = ((failure, d), e, a.0, inl refl)
same_filtering filtered reference ((pruned, d), e, a) = ((pruned, d), e, a.0, inr (a.1 (λ h. cc)))
same_filtering filtered reference ((unpruned, d), e, a) =
    ((unpruned, d), e, a.0, inr (a.1 (λ h. cc)))

-- On domains in ascending order that are not empty, the specialised filter of a class of binary
-- constraints, for either variable of its scope, returns, with the output of the loop of
-- `BinaryDirectConstraint::filter` over all pairs of values, and, unless the output is a failure, with
-- the same domain.
pub reduce-arc_reduce :
    (c : BinaryClass) (side : Bool) (domain other : Domain)
    → Ascending domain
    → Ascending other
    → is_empty domain ≡ false
    → is_empty other ≡ false
    → SameFiltering (reduce c side domain other) (arc_reduce (related c side) domain other)
reduce-arc_reduce c side domain other h k e f =
    same_filtering _ _ (reduce-Agrees c side domain other h k e f)
