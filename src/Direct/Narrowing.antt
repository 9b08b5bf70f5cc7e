-- ===== src/Direct/Narrowing.antt =====
-- The filters of the unary constraints of src/constraints/direct/builtin.cxx against the loop of
-- `UnaryDirectConstraint::filter` (src/constraints/direct/constraint.cxx).
use planner.Prelude.{
  ◌≡◌, refl, sym, ap, ◌∙◌, inl, inr, Bool, true, false, [], ◌∷◌, ◌==◌, arith, length, all,
  Bool-cases,
}
use planner.Prelude.Int.{ℤ, eq_ℤ, eq_ℤ_iff}
use planner.Direct.Domain.{
  FilteringOutput, Domain, Ascending, member, filter, is_empty, filter-eq_self, filter-eq-nil,
  length-filter-lt,
}
use planner.Direct.Order.{none_above}
use planner.Direct.Branches.{
  classify, Agrees, filter_lt_lem, filter_leq_lem, filter_gt_lem, filter_geq_lem, erase_value_lem,
}
use planner.Direct.Reduction.{Filters, SameFiltering, same_filtering}
use planner.Direct.Constraint.{
  UnaryClass, eqx, neqx, ltx, leqx, gtx, geqx, accepts, node_reduce, narrow, filter_eqx,
}

Agrees-trans : (r s t : FilteringOutput × Domain) → Agrees r s → Agrees s t → Agrees r t
Agrees-trans r s t h k = (h.0 ∙ k.0, λ ne. h.1 ne ∙ k.1 (λ e. ne (h.0 ∙ e)))

classify-node_reduce :
    (p : ℤ → Bool) (d : Domain) → is_empty d ≡ false → Agrees (classify p d) (node_reduce p d)
unfolding node_reduce
classify-node_reduce p d filled = elim (Bool-cases (is_empty (filter p d))) [
  | inl e ↦ rw e (refl, λ ne. absurd (ne refl))
  | inr e ↦ elim (Bool-cases (all p d)) [
    | inl k ↦
        let same = filter-eq_self p d k in
        let equal : (length d == length d) ≡ true = ground arith in
        rw (same, filled, equal, k) (refl, λ _. refl)
    | inr k ↦
        let less : (length (filter p d) == length d) ≡ false =
          ground (arith, length-filter-lt p d k) in
        rw (e, less, k) (refl, λ _. refl)
  ]
]

filter-eq_value :
    (c : ℤ) (d : Domain) → Ascending d → member c d ≡ true → filter (λ y. eq_ℤ y c) d ≡ c ∷ []
filter-eq_value c [] h m = cc
filter-eq_value c (x ∷ xs) (a, b) m = elim (Bool-cases (eq_ℤ x c)) [
  | inl e ↦
      let same : x ≡ c = (eq_ℤ_iff x c).0 e in
      let none : filter (λ y. eq_ℤ y c) xs ≡ [] =
        filter-eq-nil _ xs (none_above (λ y. eq_ℤ y c) x xs (λ z l. ground (arith, same)) a) in
      rw (e, none) (ap (λ t. t ∷ []) same)
  | inr e ↦ rw e (filter-eq_value c xs b (ground arith))
]

-- A value is all of an ascending domain exactly if the domain has one value.
all-eq_value :
    (c : ℤ) (d : Domain) → Ascending d → member c d ≡ true → all (λ y. eq_ℤ y c) d ≡ (length d == 1)
all-eq_value c [] h m = cc
all-eq_value c (x ∷ []) h m = ground arith
all-eq_value c (x ∷ (y ∷ ys)) ((a, _), _) m = ground arith

eqx-node_reduce :
    (c : ℤ) (d : Domain)
    → Ascending d
    → is_empty d ≡ false
    → Agrees (filter_eqx c d) (node_reduce (accepts (eqx c)) d)
unfolding filter_eqx node_reduce
eqx-node_reduce c d h filled = elim (Bool-cases (member c d)) [
  | inr e ↦ rw (e, filter-eq-nil (λ y. eq_ℤ y c) d e) (refl, λ ne. absurd (ne refl))
  | inl e ↦
      let kept = filter-eq_value c d h e in
      let single = all-eq_value c d h e in
      elim (Bool-cases (all (λ y. eq_ℤ y c) d)) [
        | inl k ↦
            let one : (length d == 1) ≡ true = sym single ∙ k in
            rw (e, one, k) (rw kept refl, λ _. sym (filter-eq_self (λ y. eq_ℤ y c) d k))
        | inr k ↦
            let more : (length d == 1) ≡ false = sym single ∙ k in
            rw (e, more, k, kept) (refl, λ _. refl)
      ]
]

pub narrow-Agrees :
    (c : UnaryClass) (domain : Domain)
    → Ascending domain
    → is_empty domain ≡ false
    → Filters (narrow c domain) (node_reduce (accepts c) domain)
unfolding narrow
narrow-Agrees c [] h e = cc
narrow-Agrees (eqx c) (x ∷ xs) h e = (_, refl, eqx-node_reduce c (x ∷ xs) h refl)
narrow-Agrees (neqx c) (x ∷ xs) h e = (
  _,
  refl,
  Agrees-trans _ _ _ (erase_value_lem c (x ∷ xs) refl h)
      (classify-node_reduce (accepts (neqx c)) (x ∷ xs) refl),
)
narrow-Agrees (ltx c) (x ∷ xs) h e =
    (_, filter_lt_lem x xs c c h, classify-node_reduce (accepts (ltx c)) (x ∷ xs) refl)
narrow-Agrees (leqx c) (x ∷ xs) h e =
    (_, filter_leq_lem x xs c c h, classify-node_reduce (accepts (leqx c)) (x ∷ xs) refl)
narrow-Agrees (gtx c) (x ∷ xs) h e =
    (_, filter_gt_lem x xs c c h, classify-node_reduce (accepts (gtx c)) (x ∷ xs) refl)
narrow-Agrees (geqx c) (x ∷ xs) h e =
    (_, filter_geq_lem x xs c c h, classify-node_reduce (accepts (geqx c)) (x ∷ xs) refl)
narrow-Agrees (UnaryClass.tested p) (x ∷ xs) h e = (_, refl, (refl, λ _. refl))

-- On a domain in ascending order that is not empty, the specialised filter of a class of unary
-- constraints returns, with the output of the loop of `UnaryDirectConstraint::filter`, and, unless the
-- output is a failure, with the same domain.
pub narrow-node_reduce :
    (c : UnaryClass) (domain : Domain)
    → Ascending domain
    → is_empty domain ≡ false
    → SameFiltering (narrow c domain) (node_reduce (accepts c) domain)
narrow-node_reduce c domain h e = same_filtering _ _ (narrow-Agrees c domain h e)
