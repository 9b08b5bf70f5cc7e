-- ===== src/Direct/Sound.antt =====
-- No solution is lost by the AC3 loop of src/constraints/direct/csp_handler.cxx.
use planner.Prelude.{
  ℕ, ◌<◌, ◌≡◌, refl, sym, ◌∙◌, inl, inr, Bool, true, false, List, [], ◌∷◌, ◌==◌, ==_iff, arith, All,
  any, Bool-cases,
}
use planner.Prelude.Int.{ℤ, eq_ℤ_iff}
use planner.Prelude.Outcome.{ok}
use planner.Direct.Domain.{
  FilteringOutput, failure, pruned, unpruned, Domain, member, member-filter,
}
use planner.Direct.DomainMap.{
  DomainMap, has, read, write, Valid, read-write_self, read-write_ne, has-write,
}
use planner.Direct.Constraint.{is_satisfied, related}
use planner.Direct.Handler.{Binary, filtered, other, Arc, is_failure, binary_filtering}
use planner.Direct.Arc.{supported}
use planner.Direct.Loop.{
  Covered, Covered-filtered, Covered-other, All-get_elem?, kept, Ready, Keeps, Failed, Ended,
  rounds, binary_filtering-Ends,
}

pub any-member :
    (p : ℤ → Bool) (y : ℤ) (d : Domain) → member y d ≡ true → p y ≡ true → any p d ≡ true
any-member p y [] h k = cc
any-member p y (x ∷ xs) h k = ground (arith, eq_ℤ_iff x y, any-member p y xs)

module _ (a : ℕ → ℤ) where
  -- Each variable has a value of its domain.
  abbrev pub Within : DomainMap → Type 0
  Within m = (v : ℕ) → has m v ≡ true → member (a v) (read m v) ≡ true

  abbrev pub Satisfies : Binary → Type 0
  Satisfies b = is_satisfied b.class (a b.first) (a b.second) ≡ true

  related-Satisfies :
      (b : Binary) (side : Bool)
      → Satisfies b
      → related b.class side (a (filtered b side)) (a (other b side)) ≡ true
  related-Satisfies b true h = h
  related-Satisfies b false h = h

  value_supported :
      (b : Binary) (side : Bool) (m : DomainMap)
      → Within m
      → Covered m b
      → Satisfies b
      → supported b side m (a (filtered b side)) ≡ true
  value_supported b side m w c s =
      any-member (related b.class side (a (filtered b side))) (a (other b side))
        (read m (other b side)) (w (other b side) (Covered-other m b side c))
        (related-Satisfies b side s)

  -- A domain may be replaced by one that still has the value.
  pub Within-write :
      (m : DomainMap) (v : ℕ) (e : Domain)
      → Within m
      → has m v ≡ true
      → member (a v) e ≡ true
      → (u : ℕ) → has m u ≡ true
      → member (a u) (read (write m v e) u) ≡ true
  Within-write m v e w h k u l = elim (Bool-cases (v == u)) [
    | inl same ↦ let eq : v ≡ u = (==_iff v u).0 same in rw (← eq) (rw (read-write_self m v e h) k)
    | inr differs ↦ rw (read-write_ne m v u e differs) (w u l)
  ]

  -- The variables are those of m0, and the values are still there.
  pub record Holds (m0 m : DomainMap) : Type 0 where
    pub within : Within m
    pub keys : (v : ℕ) → has m v ≡ has m0 v

  pub Holds-write :
      (m0 m : DomainMap) (v : ℕ) (e : Domain)
      → Holds m0 m
      → has m v ≡ true
      → member (a v) e ≡ true
      → Holds m0 (write m v e)
  Holds-write m0 m v e h k l = record {
    within = λ u q. Within-write m v e h.within k l u (sym (has-write m v u e) ∙ q);
    keys = λ u. has-write m v u e ∙ h.keys u;
  }

  module _ (address : ℕ → ℕ) (bs : List Binary) (sat : All Satisfies bs) (m0 : DomainMap) where
    keeping : Keeps address bs (λ ws m. Holds m0 m)
    keeping = record {
      unchanged = λ i side b ws m at cover p every. p;
      changed = λ i side b ws m at cover p.
          Holds-write m0 m (filtered b side) (kept b side m) p (Covered-filtered m b side cover) (
            member-filter (supported b side m) (a (filtered b side)) (read m (filtered b side))
              (p.within (filtered b side) (Covered-filtered m b side cover))
              (value_supported b side m p.within cover (All-get_elem? Satisfies bs i sat at)));
    }

    not_Failed : Failed address bs (λ ws m. Holds m0 m) → ⊥
    not_Failed f =
        let b = f.constraint in
        let side = f.side in
        let m = f.domains in
        let some : any (supported b side m) (read m (filtered b side)) ≡ true =
          any-member (supported b side m) (a (filtered b side)) (read m (filtered b side))
            (f.holds.within (filtered b side) (Covered-filtered m b side f.cover))
            (value_supported b side m f.holds.within f.cover
              (All-get_elem? Satisfies bs f.position sat f.at)) in
        let none = f.stuck in cc

    ended :
        (o : FilteringOutput) (m : DomainMap) (ws : List Arc)
        → Ended address bs (λ ws' m'. Holds m0 m') o m ws
        → (is_failure o ≡ false) × Valid m × Holds m0 m × (ws ≡ [])
    ended failure m ws h = absurd (not_Failed h)
    ended pruned m ws (e, r, p) = (refl, r.valid, p, e)
    ended unpruned m ws (e, r, p) = (refl, r.valid, p, e)

    pub binary_filtering-Holds :
        (fuel : ℕ) (ws : List Arc) (m : DomainMap)
        → Ready bs ws m
        → Holds m0 m
        → rounds address bs (λ ws' m'. Holds m0 m') ws m < fuel
        → (r : FilteringOutput × DomainMap × List Arc) × (binary_filtering address fuel bs unpruned
              ws m
            ≡ ok r)
          × (is_failure r.0 ≡ false)
          × Valid r.1
          × Holds m0 r.1
          × (r.2 ≡ [])
    binary_filtering-Holds fuel ws m ready p l =
        let (r, e, h) =
          binary_filtering-Ends address bs (λ ws' m'. Holds m0 m') keeping fuel unpruned ws m refl
            ready p l in
        let (safe, valid, holds, nil) = ended r.0 r.1 r.2 h in (r, e, safe, valid, holds, nil)
