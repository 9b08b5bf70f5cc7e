-- ===== src/Direct/Branches.antt =====
-- The branches of the specialised filters of src/constraints/direct/builtin.cxx, and what the loops of
-- src/constraints/direct/constraint.cxx do in each of them.
use mathlib.Core.Path.{fun_ext}
use planner.Prelude.{
  ◌≡◌, ◌≢◌, refl, sym, ap, ◌∙◌, inl, inr, Bool, true, false, not, [], ◌∷◌, ◌==◌, arith, length, all,
  any, if◌then◌else◌, Bool-cases,
}
use planner.Prelude.Int.{ℤ, eq_ℤ, ltb_ℤ, leb_ℤ}
use planner.Prelude.Outcome.{ok}
use planner.Direct.Domain.{
  FilteringOutput, failure, pruned, unpruned, Domain, Ascending, last_from, member, filter,
  is_empty, filter-eq_self, filter-eq-nil, filter-ne-nil, length-filter-lt,
}
use planner.Direct.Order.{
  Down, Up, all-Down, any-Down, all-Up, any-Up, before-filter, from-filter, before-head_if_equal,
  skip_equal-from, found-member, erase-filter,
}
use planner.Direct.Constraint.{
  arc_reduce, filter_lt, filter_leq, filter_gt, filter_geq, filter_eq, erase_value, found,
}

-- What `arc_reduce` does with the values that have a support.
abbrev labelled : Domain → Domain → FilteringOutput × Domain
labelled kept d =
    if is_empty kept
    then (failure, d)
    else if not (length kept == length d)
    then (pruned, kept)
    else (unpruned, d)

abbrev pub classify : (ℤ → Bool) → Domain → FilteringOutput × Domain
classify p d = labelled (filter p d) d

-- The same output, and, unless it is a failure, the same domain.
abbrev pub Agrees : FilteringOutput × Domain → FilteringOutput × Domain → Type 0
Agrees r s = (r.0 ≡ s.0) × (r.0 ≢ failure → r.1 ≡ s.1)

module _ (p : ℤ → Bool) (d : Domain) where
  pub classify-all : is_empty d ≡ false → all p d ≡ true → classify p d ≡ (unpruned, d)
  classify-all e h = let k = filter-eq_self p d h in rw (k, e) (ground arith)

  pub classify-none : any p d ≡ false → classify p d ≡ (failure, d)
  classify-none h = rw (filter-eq-nil p d h)

  pub classify-some : all p d ≡ false → any p d ≡ true → classify p d ≡ (pruned, filter p d)
  classify-some h k =
      let e : (length (filter p d) == length d) ≡ false = ground (arith, length-filter-lt p d h) in
      rw (filter-ne-nil p d k, e)

classify-congr : (p q : ℤ → Bool) (d : Domain) → ((x : ℤ) → p x ≡ q x) → classify p d ≡ classify q d
classify-congr p q d h = ap (λ (t : ℤ → Bool). classify t d) (fun_ext h)

-- The three branches of the specialised filters.
module _ (p : ℤ → Bool) (d : Domain) where
  branches :
      (e n : Bool) (cut : Domain)
      → is_empty d ≡ false
      → all p d ≡ e
      → any p d ≡ not n
      → cut ≡ filter p d
      → (if e then ok (unpruned, d) else if n then ok (failure, d) else ok (pruned, cut))
        ≡ ok (classify p d)
  branches true n cut filled every some at = ap ok (sym (classify-all p d filled every))
  branches false true cut filled every some at = ap ok (sym (classify-none p d some))
  branches false false cut filled every some at = rw at (ap ok (sym (classify-some p d every some)))

module _ (x : ℤ) (xs : Domain) (lo hi : ℤ) (h : Ascending (x ∷ xs)) where
  pub filter_lt_lem : filter_lt (x ∷ xs) lo hi ≡ ok (classify (λ a. ltb_ℤ a hi) (x ∷ xs))
  unfolding filter_lt
  filter_lt_lem =
      let down : Down (λ a. ltb_ℤ a hi) = λ a b l k. ground arith in
      branches (λ a. ltb_ℤ a hi) (x ∷ xs) _ _ _ refl (all-Down _ x xs down h)
        (any-Down _ x xs down h ∙ ground arith) (before-filter hi (x ∷ xs) h)

  pub filter_leq_lem : filter_leq (x ∷ xs) lo hi ≡ ok (classify (λ a. leb_ℤ a hi) (x ∷ xs))
  unfolding filter_leq
  filter_leq_lem =
      let down : Down (λ a. leb_ℤ a hi) = λ a b l k. ground arith in
      branches (λ a. leb_ℤ a hi) (x ∷ xs) _ _ _ refl (all-Down _ x xs down h)
        (any-Down _ x xs down h ∙ ground arith) (before-head_if_equal hi (x ∷ xs) h)

  pub filter_gt_lem : filter_gt (x ∷ xs) lo hi ≡ ok (classify (λ a. ltb_ℤ lo a) (x ∷ xs))
  unfolding filter_gt
  filter_gt_lem =
      let up : Up (λ a. ltb_ℤ lo a) = λ a b l k. ground arith in
      branches (λ a. ltb_ℤ lo a) (x ∷ xs) _ _ _ refl (all-Up _ x xs up h)
        (any-Up _ x xs up h ∙ ground arith) (skip_equal-from lo (x ∷ xs) h)

  pub filter_geq_lem : filter_geq (x ∷ xs) lo hi ≡ ok (classify (λ a. leb_ℤ lo a) (x ∷ xs))
  unfolding filter_geq
  filter_geq_lem =
      let up : Up (λ a. leb_ℤ lo a) = λ a b l k. ground arith in
      branches (λ a. leb_ℤ lo a) (x ∷ xs) _ _ _ refl (all-Up _ x xs up h)
        (any-Up _ x xs up h ∙ ground arith) (from-filter lo (x ∷ xs) h)

-- The values with a support in the other domain, read off its bounds.
module _ (z : ℤ) (zs : Domain) (k : Ascending (z ∷ zs)) (x : ℤ) where
  pub supported_lt : any (λ y. ltb_ℤ x y) (z ∷ zs) ≡ ltb_ℤ x (last_from z zs)
  supported_lt = any-Up (λ y. ltb_ℤ x y) z zs (λ a b l e. ground arith) k

  pub supported_leq : any (λ y. leb_ℤ x y) (z ∷ zs) ≡ leb_ℤ x (last_from z zs)
  supported_leq = any-Up (λ y. leb_ℤ x y) z zs (λ a b l e. ground arith) k

  pub supported_gt : any (λ y. ltb_ℤ y x) (z ∷ zs) ≡ ltb_ℤ z x
  supported_gt = any-Down (λ y. ltb_ℤ y x) z zs (λ a b l e. ground arith) k

  pub supported_geq : any (λ y. leb_ℤ y x) (z ∷ zs) ≡ leb_ℤ z x
  supported_geq = any-Down (λ y. leb_ℤ y x) z zs (λ a b l e. ground arith) k

pub eq_ℤ_sym : (a b : ℤ) → eq_ℤ a b ≡ eq_ℤ b a
eq_ℤ_sym a b = ground arith

pub member_sym : (x : ℤ) (d : Domain) → member x d ≡ any (λ y. eq_ℤ x y) d
member_sym x [] = refl
member_sym x (y ∷ ys) = rw (eq_ℤ_sym y x, member_sym x ys)

same_branches :
    (n d : Domain)
    → is_empty d ≡ false
    → (if length n == length d
        then ok (unpruned, d)
        else if length n == 0
        then ok (failure, d)
        else ok (pruned, n))
      ≡ ok (labelled n d)
same_branches n [] filled = cc
same_branches [] (x ∷ xs) filled = ground arith
same_branches (y ∷ ys) (x ∷ xs) filled = ground arith

all-ne : (z : ℤ) (d : Domain) → all (λ x. not (eq_ℤ x z)) d ≡ not (member z d)
all-ne z [] = refl
all-ne z (x ∷ xs) = ground (arith, all-ne z xs)

pub filter_eq_lem :
    (d other : Domain)
    → is_empty d ≡ false
    → Ascending other
    → filter_eq d other ≡ ok (classify (λ x. member x other) d)
unfolding filter_eq
filter_eq_lem d other filled k =
    let same : filter (λ x. found x other) d ≡ filter (λ x. member x other) d =
      ap (λ (t : ℤ → Bool). filter t d) (fun_ext (λ x. found-member x other k)) in
    rw same (same_branches (filter (λ x. member x other) d) d filled)

pub erase_value_lem :
    (z : ℤ) (d : Domain)
    → is_empty d ≡ false
    → Ascending d
    → Agrees (erase_value z d) (classify (λ x. not (eq_ℤ x z)) d)
unfolding erase_value
erase_value_lem z d filled h =
    let p : ℤ → Bool = λ x. not (eq_ℤ x z) in
    elim (Bool-cases (member z d)) [
      | inr e ↦
          let every : all p d ≡ true = all-ne z d ∙ ap not e in
          rw (e, classify-all p d filled every) (refl, λ _. refl)
      | inl e ↦
          let some : all p d ≡ false = all-ne z d ∙ ap not e in
          let less : (length (filter p d) == length d) ≡ false =
            ground (arith, length-filter-lt p d some) in
          rw (e, erase-filter z d h)
            (elim (Bool-cases (is_empty (filter p d))) [
              | inl k ↦ rw k (refl, λ ne. absurd (ne refl))
              | inr k ↦ rw (k, less) (refl, λ _. refl)
            ])
    ]

pub arc_reduce-classify :
    (holds : ℤ → ℤ → Bool) (d other : Domain) (p : ℤ → Bool)
    → ((x : ℤ) → any (holds x) other ≡ p x)
    → arc_reduce holds d other ≡ classify p d
unfolding arc_reduce
arc_reduce-classify holds d other p h = classify-congr (λ x. any (holds x) other) p d h

pub agree : (r s : FilteringOutput × Domain) → r ≡ s → Agrees r s
agree r s e = (
  ap (λ (t : FilteringOutput × Domain). t.0) e,
  λ _. ap (λ (t : FilteringOutput × Domain). t.1) e,
)
