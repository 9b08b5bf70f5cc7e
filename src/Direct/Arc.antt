-- ===== src/Direct/Arc.antt =====
-- What filtering one arc does to the domains (src/constraints/direct/csp_handler.cxx calls it in
-- `binaryFiltering`).
use mathlib.Core.Path.{subst}
use planner.Prelude.{
  ◌<◌, ◌≡◌, refl, sym, ap, ◌∙◌, inl, inr, Bool, true, false, length, all, any, Bool-cases,
}
use planner.Prelude.Int.{ℤ}
use planner.Prelude.Outcome.{ok}
use planner.Direct.Domain.{
  FilteringOutput, failure, pruned, unpruned, Domain, filter, is_empty, filter-ne-nil,
  length-filter-lt,
}
use planner.Direct.DomainMap.{
  DomainMap, has, read, write, Valid, read-Ascending, read-filled, write-read,
}
use planner.Direct.Constraint.{related}
use planner.Direct.Branches.{
  classify, Agrees, classify-all, classify-none, classify-some, arc_reduce-classify,
}
use planner.Direct.Reduction.{reduce-Agrees}
use planner.Direct.Handler.{Binary, filtered, other, arc_filter}

-- The output tells how many values have a support, and the new domain has those that do.
abbrev Shape : (ℤ → Bool) → Domain → FilteringOutput → Domain → Type 0
Shape p d failure e = any p d ≡ false
Shape p d pruned e =
    (e ≡ filter p d) × (length (filter p d) < length d) × (is_empty (filter p d) ≡ false)
Shape p d unpruned e = (e ≡ d) × (all p d ≡ true)

module _ (p : ℤ → Bool) (d : Domain) where
  same-Shape :
      (o : FilteringOutput) (e : Domain) (r : FilteringOutput × Domain)
      → Agrees (o, e) r
      → Shape p d r.0 r.1
      → Shape p d o e
  same-Shape failure e r (h, k) s =
      let s' : Shape p d failure r.1 = subst (λ t. Shape p d t r.1) (sym h) s in s'
  same-Shape pruned e r (h, k) s =
      let s' : Shape p d pruned r.1 = subst (λ t. Shape p d t r.1) (sym h) s in
      subst (Shape p d pruned) (sym (k (cc))) s'
  same-Shape unpruned e r (h, k) s =
      let s' : Shape p d unpruned r.1 = subst (λ t. Shape p d t r.1) (sym h) s in
      subst (Shape p d unpruned) (sym (k (cc))) s'

  classify-Shape : is_empty d ≡ false → Shape p d (classify p d).0 (classify p d).1
  classify-Shape filled = elim (Bool-cases (any p d)) [
    | inr none ↦ rw (classify-none p d none) none
    | inl some ↦ elim (Bool-cases (all p d)) [
      | inl every ↦ rw (classify-all p d filled every) (refl, every)
      | inr not_all ↦
          rw (classify-some p d not_all some)
            (refl, length-filter-lt p d not_all, filter-ne-nil p d some)
    ]
  ]

-- The values of the filtered variable that have a support.
abbrev pub supported : Binary → Bool → DomainMap → ℤ → Bool
supported b side m x = any (related b.class side x) (read m (other b side))

abbrev pub ArcOutcome : Binary → Bool → DomainMap → FilteringOutput → DomainMap → Type 0
ArcOutcome b side m failure m' = any (supported b side m) (read m (filtered b side)) ≡ false
ArcOutcome b side m pruned m' =
    let kept = filter (supported b side m) (read m (filtered b side)) in
    (m' ≡ write m (filtered b side) kept)
    × (length kept < length (read m (filtered b side)))
    × (is_empty kept ≡ false)
ArcOutcome b side m unpruned m' =
    (m' ≡ m) × (all (supported b side m) (read m (filtered b side)) ≡ true)

module _ (b : Binary) (side : Bool) (m : DomainMap) where
  outcome_of :
      (o : FilteringOutput) (e : Domain)
      → Shape (supported b side m) (read m (filtered b side)) o e
      → ArcOutcome b side m o (write m (filtered b side) e)
  outcome_of failure e h = h
  outcome_of pruned e (k, h, l) = (ap (write m (filtered b side)) k, h, l)
  outcome_of unpruned e (k, h) =
      (ap (write m (filtered b side)) k ∙ write-read m (filtered b side), h)

  pub arc_filter-ArcOutcome :
      Valid m
      → has m (filtered b side) ≡ true
      → has m (other b side) ≡ true
      → (r : FilteringOutput × DomainMap) × (arc_filter b side m ≡ ok r)
        × ArcOutcome b side m r.0 r.1
  unfolding arc_filter
  arc_filter-ArcOutcome v h k =
      let d = read m (filtered b side) in
      let z = read m (other b side) in
      let filled = read-filled m (filtered b side) v h in
      let (r, e, a) =
        reduce-Agrees b.class side d z (read-Ascending m (filtered b side) v)
          (read-Ascending m (other b side) v) filled (read-filled m (other b side) v k) in
      let same = arc_reduce-classify (related b.class side) d z (supported b side m) (λ x. refl) in
      let agrees : Agrees r (classify (supported b side m) d) = rw (← same) a in
      (
        (r.0, write m (filtered b side) r.1),
        rw e refl,
        outcome_of r.0 r.1 (
            same-Shape (supported b side m) d r.0 r.1 (classify (supported b side m) d) agrees
              (classify-Shape (supported b side m) d filled)),
      )
