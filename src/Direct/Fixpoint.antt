-- ===== src/Direct/Fixpoint.antt =====
-- The loop at the end of `DirectCSPHandler::filter` (src/constraints/direct/csp_handler.cxx), which means
-- to filter again until nothing changes.
use planner.Prelude.{
  ℕ, zero, suc, ◌≡◌, refl, sym, ap, inl, inr, false, ◌&&◌, List, [], ◌∷◌, get_elem?, Bool-cases,
}
use planner.Prelude.Outcome.{Result, ok, >>=-eq-ok, or_throw, undefined, ok_injective}
use planner.Direct.Domain.{FilteringOutput, failure, pruned, unpruned}
use planner.Direct.DomainMap.{DomainMap}
use planner.Direct.Handler.{
  Handler, Binary, Arc, filtered, arc_filter, is_failure, is_pruned, after_arc, binary_filtering,
  keep_pruning,
}

module _ (address : ℕ → ℕ) where
  after_arc-nil :
      (next : FilteringOutput
        → List Arc
        → DomainMap
        → Result (FilteringOutput × DomainMap × List Arc))
      → ((o : FilteringOutput) (ws : List Arc) (m : DomainMap)
            (r : FilteringOutput × DomainMap × List Arc)
          → next o ws m ≡ ok r
          → is_failure r.0 ≡ false
          → r.2 ≡ [])
      → (bs : List Binary) (result : FilteringOutput) (i v : ℕ) (ws : List Arc)
        (x : FilteringOutput × DomainMap) (r : FilteringOutput × DomainMap × List Arc)
      → after_arc address next bs result i v ws x ≡ ok r
      → is_failure r.0 ≡ false
      → r.2 ≡ []
  after_arc-nil next rest bs result i v ws (failure, m) r e h =
      let same : failure ≡ r.0 =
        ap (λ (t : FilteringOutput × DomainMap × List Arc). t.0) (ok_injective e) in
      cc
  after_arc-nil next rest bs result i v ws (pruned, m) r e h = rest _ _ m r e h
  after_arc-nil next rest bs result i v ws (unpruned, m) r e h = rest _ _ m r e h

  -- `binaryFiltering` that does not fail leaves no arc.
  binary_filtering-nil :
      (fuel : ℕ) (bs : List Binary) (result : FilteringOutput) (ws : List Arc) (m : DomainMap)
      (r : FilteringOutput × DomainMap × List Arc)
      → binary_filtering address fuel bs result ws m ≡ ok r
      → is_failure r.0 ≡ false
      → r.2 ≡ []
  unfolding binary_filtering
  binary_filtering-nil zero bs result ws m r e h = cc
  binary_filtering-nil (suc fuel) bs result [] m r e h =
      sym (ap (λ (t : FilteringOutput × DomainMap × List Arc). t.2) (ok_injective e))
  binary_filtering-nil (suc fuel) bs result ((i, side) ∷ ws) m r e h =
      let (b, eb, e') = >>=-eq-ok (or_throw (get_elem? bs i) undefined) _ e in
      let (x, ex, e'') = >>=-eq-ok (arc_filter b side m) _ e' in
      after_arc-nil (binary_filtering address fuel bs)
        (λ o ws' m' r' q k. binary_filtering-nil fuel bs o ws' m' r' q k) bs result i
        (filtered b side) ws x r e'' h

  module _ (n fuel : ℕ) (h : Handler) (m : DomainMap) where
    keep_pruning-nil :
        (b g : FilteringOutput) → keep_pruning address (suc (suc n)) (suc fuel) h b g [] m ≡ ok m
    unfolding keep_pruning binary_filtering
    keep_pruning-nil b g = elim (Bool-cases (is_pruned b && is_pruned g)) [
      | inl e ↦ rw (e, keep_pruning) refl
      | inr e ↦ rw (e, keep_pruning) refl
    ]

  -- The loop at the end of `filter` never prunes anything: on fuel for two rounds, after AC3 filtering
  -- that has not failed,
  -- whatever domains m the global filtering has left, with whatever output g, the loop leaves m as it is.
  pub keep_pruning-binary_filtering :
      (fuel : ℕ) (h : Handler) (ws : List Arc) (m0 m : DomainMap)
      (r : FilteringOutput × DomainMap × List Arc) (g : FilteringOutput) (n inner : ℕ)
      → binary_filtering address fuel h.binary_constraints unpruned ws m0 ≡ ok r
      → is_failure r.0 ≡ false
      → keep_pruning address (suc (suc n)) (suc inner) h r.0 g r.2 m ≡ ok m
  keep_pruning-binary_filtering fuel h ws m0 m r g n inner e f =
      rw (binary_filtering-nil fuel h.binary_constraints unpruned ws m0 r e f)
        (keep_pruning-nil n inner h m r.0 g)
