-- ===== src/Direct/Stages.antt =====
-- The stages of `DirectCSPHandler::filter` (src/constraints/direct/csp_handler.cxx) on domains that hold a
-- solution: each returns without a failure and keeps the values of the solution.
use planner.Prelude.{
  ℕ, ◌≤◌, ◌≡◌, ◌≢◌, refl, ap, ◌∙◌, inl, inr, Bool, true, false, List, [], ◌∷◌, arith, All, all,
  Bool-cases,
}
use planner.Prelude.Int.{ℤ}
use planner.Prelude.Outcome.{Result, ok}
use planner.Direct.Domain.{
  FilteringOutput, failure, pruned, unpruned, Domain, Ascending, member, filter, is_empty,
  member-filter, filter-Ascending, length-filter-le,
}
use planner.Direct.DomainMap.{
  DomainMap, has, read, write, Valid, total, find-has, total-write, write-Valid, read-Ascending,
}
use planner.Direct.Constraint.{accepts, node_reduce, narrow}
use planner.Direct.Narrowing.{narrow-Agrees}
use planner.Direct.Handler.{
  Unary, NAry, unary_filtering, global_filtering, load_domains, is_failure, combine,
}
use planner.Direct.Loop.{All-map}
use planner.Direct.Sound.{Within, Holds, Holds-write}

member-not_empty : (y : ℤ) (d : Domain) → member y d ≡ true → is_empty d ≡ false
member-not_empty y [] h = cc
member-not_empty y (x ∷ xs) h = refl

pub All-keys :
    (m0 m : DomainMap) (vs : List ℕ)
    → ((v : ℕ) → has m v ≡ has m0 v)
    → All (λ v. has m0 v ≡ true) vs
    → All (λ v. has m v ≡ true) vs
All-keys m0 m vs k h = All-map (λ v. has m0 v ≡ true) (λ v. has m v ≡ true) vs (λ v e. k v ∙ e) h

module _ (a : ℕ → ℤ) where
  abbrev pub Accepted : Unary → Type 0
  Accepted u = accepts u.class (a u.variable) ≡ true

  accepted_output :
      (p : ℤ → Bool) (d : Domain)
      → is_empty (filter p d) ≡ false
      → is_failure (node_reduce p d).0 ≡ false
  unfolding node_reduce
  accepted_output p d h = elim (Bool-cases (all p d)) [
    | inl e ↦ rw (h, e) refl
    | inr e ↦ rw (h, e) refl
  ]

  -- The filtering of an accepted value: it does not fail, and keeps the values that are accepted.
  narrow-Accepted :
      (u : Unary) (d : Domain)
      → Ascending d
      → member (a u.variable) d ≡ true
      → Accepted u
      → (r : FilteringOutput × Domain) × (narrow u.class d ≡ ok r)
        × (is_failure r.0 ≡ false)
        × (r.1 ≡ filter (accepts u.class) d)
  unfolding node_reduce
  narrow-Accepted u d h k s =
      let p = accepts u.class in
      let some =
        member-not_empty (a u.variable) (filter p d) (member-filter p (a u.variable) d k s) in
      let (r, e, (same, kept_if)) =
        narrow-Agrees u.class d h (member-not_empty (a u.variable) d k) in
      let safe : is_failure r.0 ≡ false = ap is_failure same ∙ accepted_output p d some in
      (r, e, safe, then_eq r.0 safe kept_if)
    where
      then_eq : {X : Type 0} (o : FilteringOutput) → is_failure o ≡ false → (o ≢ failure → X) → X
      then_eq failure h k = cc
      then_eq pruned h k = k (λ e. cc)
      then_eq unpruned h k = k (λ e. cc)

  -- What the loops keep.
  pub record Good (m0 m : DomainMap) : Type 0 where
    pub valid : Valid m
    pub holds : Holds a m0 m
    pub fewer : total m ≤ total m0

  abbrev pub Filtered : DomainMap → Result (FilteringOutput × DomainMap) → Type 0
  Filtered m0 result =
      (r : FilteringOutput × DomainMap) × (result ≡ ok r) × (is_failure r.0 ≡ false) × Good m0 r.1

  narrow-Good :
      (m0 m : DomainMap) (u : Unary)
      → Good m0 m
      → has m0 u.variable ≡ true
      → Accepted u
      → Good m0 (write m u.variable (filter (accepts u.class) (read m u.variable)))
  narrow-Good m0 m u g h s =
      let v = u.variable in
      let p = accepts u.class in
      let here : has m v ≡ true = g.holds.keys v ∙ h in
      let stays = member-filter p (a v) (read m v) (g.holds.within v here) s in
      record {
        valid =
            write-Valid m v (filter p (read m v)) g.valid
              (filter-Ascending p (read m v) (read-Ascending m v g.valid))
              (member-not_empty (a v) (filter p (read m v)) stays);
        holds = Holds-write a m0 m v (filter p (read m v)) g.holds here stays;
        fewer = omega (
          arith,
          total-write m v (filter p (read m v)) here,
          length-filter-le p (read m v),
          g.fewer,
        );
      }

  combine-safe :
      (output o : FilteringOutput)
      → is_failure output ≡ false
      → is_failure (combine output o) ≡ false
  combine-safe output failure h = h
  combine-safe output pruned h = refl
  combine-safe output unpruned h = h

  pub unary_filtering-Filtered :
      (us : List Unary) (output : FilteringOutput) (m0 m : DomainMap)
      → is_failure output ≡ false
      → All Accepted us
      → All (λ (u : Unary). has m0 u.variable ≡ true) us
      → Good m0 m
      → Filtered m0 (unary_filtering us output m)
  unfolding unary_filtering
  unary_filtering-Filtered [] output m0 m f s h g = ((output, m), refl, f, g)
  unary_filtering-Filtered (u ∷ us) output m0 m f (s, ss) (h, hs) g =
      let here : has m u.variable ≡ true = g.holds.keys u.variable ∙ h in
      let d = read m u.variable in
      let (r, e, safe, same) =
        narrow-Accepted u d (read-Ascending m u.variable g.valid) (g.holds.within u.variable here)
          s in
      let good : Good m0 (write m u.variable r.1) = rw same (narrow-Good m0 m u g h s) in
      rw (find-has m u.variable here, e, safe)
        (unary_filtering-Filtered us (combine output r.0) m0 (write m u.variable r.1)
          (combine-safe output r.0 f) ss hs good)

  -- What is asked of a constraint with a filter of its own: it returns on loaded domains, and loses no
  -- value of the solution.
  abbrev pub Preserved : NAry → Type 0
  Preserved n =
      (m : DomainMap)
      → Valid m
      → Within a m
      → All (λ v. has m v ≡ true) n.scope
      → (r : FilteringOutput × DomainMap) × (n.filter_loaded m ≡ ok r)
        × (is_failure r.0 ≡ false)
        × Valid r.1
        × Within a r.1
        × ((v : ℕ) → has r.1 v ≡ has m v)

  pub global_filtering-Holds :
      (ns : List NAry) (output : FilteringOutput) (m0 m : DomainMap)
      → is_failure output ≡ false
      → All Preserved ns
      → All (λ (n : NAry). All (λ v. has m0 v ≡ true) n.scope) ns
      → Valid m
      → Holds a m0 m
      → (r : FilteringOutput × DomainMap) × (global_filtering ns output m ≡ ok r)
        × (is_failure r.0 ≡ false)
        × Holds a m0 r.1
  unfolding global_filtering
  global_filtering-Holds [] output m0 m f s h v g = ((output, m), refl, f, g)
  global_filtering-Holds (n ∷ ns) output m0 m f (s, ss) (h, hs) v g =
      let (r, e, safe, valid, within, keys) = s m v g.within (All-keys m0 m n.scope g.keys h) in
      let holds : Holds a m0 r.1 = record { within = within; keys = λ u. keys u ∙ g.keys u } in
      rw (e, safe)
        (global_filtering-Holds ns (combine output r.0) m0 r.1 (combine-safe output r.0 f) ss hs
          valid holds)

all-All : (p : ℕ → Bool) (vs : List ℕ) → All (λ v. p v ≡ true) vs → all p vs ≡ true
all-All p [] h = refl
all-All p (v ∷ vs) (e, h) = rw (e, all-All p vs h) refl

pub load_domains-ok :
    (m : DomainMap) (scopes : List (List ℕ))
    → All (λ scope. All (λ v. has m v ≡ true) scope) scopes
    → load_domains scopes m ≡ ok tt
unfolding load_domains
load_domains-ok m [] h = refl
load_domains-ok m (scope ∷ scopes) (h, hs) =
    rw (all-All (has m) scope h) (load_domains-ok m scopes hs)
