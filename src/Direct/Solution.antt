-- ===== src/Direct/Solution.antt =====
-- `DirectCSPHandler::filter` (src/constraints/direct/csp_handler.cxx) returns, and loses no solution.
use planner.Prelude.{
  ℕ, zero, suc, ◌+◌, ◌*◌, ◌≤◌, ◌<◌, ◌≡◌, refl, ◌∙◌, inl, inr, true, false, ◌||◌, List, [], ◌∷◌,
  ◌==◌, arith, length, All, map, Bool-cases, if◌then◌else◌,
}
use planner.Prelude.Int.{ℤ}
use planner.Prelude.Outcome.{Result, ok}
use planner.Direct.Domain.{FilteringOutput, pruned, unpruned}
use planner.Direct.DomainMap.{DomainMap, has, Valid, total}
use planner.Direct.Handler
use planner.Direct.Handler.{
  Unary, Binary, NAry, DirectConstraint, unary, binary, n_ary, Handler, index_constraints_by_arity,
  unary_filtering, global_filtering, load_domains, initialize_worklist, is_failure, is_pruned,
  scope_of, binary_filtering, keep_pruning, no_constraints, Arc,
}
use planner.Direct.Loop.{Covered, Ready, All-map}
use planner.Direct.Worklist.{initialize_worklist-All, length-initialize_worklist}
use planner.Direct.Sound.{Within, Satisfies, Holds, binary_filtering-Holds}
use planner.Direct.Fixpoint.{keep_pruning-binary_filtering}
use planner.Direct.Stages.{
  Accepted, Good, Preserved, unary_filtering-Filtered, global_filtering-Holds, load_domains-ok,
  All-keys,
}

-- The variables of the scope have domains.
abbrev pub Known : DomainMap → DirectConstraint → Type 0
Known m (unary u) = has m u.variable ≡ true
Known m (binary b) = Covered m b
Known m (n_ary n) = All (λ v. has m v ≡ true) n.scope

-- An assignment satisfies a constraint; for one with a filter of its own: that filter keeps it.
abbrev pub Solved : (ℕ → ℤ) → DirectConstraint → Type 0
Solved a (unary u) = Accepted a u
Solved a (binary b) = Satisfies a b
Solved a (n_ary n) = Preserved a n

-- A predicate of all constraints, by arity.
module _ (P : DirectConstraint → Type 0) where
  ByArity : Handler → Type 0
  ByArity h =
      All (λ u. P (unary u)) h.unary_constraints
      × All (λ b. P (binary b)) h.binary_constraints
      × All (λ n. P (n_ary n)) h.n_ary_constraints

  by_arity : (cs : List DirectConstraint) → All P cs → ByArity (index_constraints_by_arity cs)
  unfolding index_constraints_by_arity ByArity
  by_arity [] h = (tt, tt, tt)
  by_arity (unary u ∷ cs) (h, hs) = let (us, bs, ns) = by_arity cs hs in ((h, us), bs, ns)
  by_arity (binary b ∷ cs) (h, hs) = let (us, bs, ns) = by_arity cs hs in (us, (h, bs), ns)
  by_arity (n_ary n ∷ cs) (h, hs) = let (us, bs, ns) = by_arity cs hs in (us, bs, (h, ns))

-- What the handler needs to run: enough fuel for the rounds of the AC3 loop.
abbrev pub Enough : ℕ → Handler → DomainMap → Type 0
Enough fuel h m =
    total m * suc (length h.binary_constraints) + 2 * length h.binary_constraints + 1 < fuel

-- The result of the handler: no failure, and the solution is still there.
abbrev pub Kept : (ℕ → ℤ) → DomainMap → Result (FilteringOutput × DomainMap) → Type 0
Kept a m0 result =
    (r : FilteringOutput × DomainMap) × (result ≡ ok r) × (is_failure r.0 ≡ false) × Holds a m0 r.1

All-scopes :
    (m0 m : DomainMap) (bs : List Binary)
    → ((v : ℕ) → has m v ≡ has m0 v)
    → All (Covered m0) bs
    → All (λ scope. All (λ v. has m v ≡ true) scope) (map scope_of bs)
All-scopes m0 m [] k h = tt
All-scopes m0 m (b ∷ bs) k ((e, f), hs) =
    ((k b.first ∙ e, (k b.second ∙ f, tt)), All-scopes m0 m bs k hs)

All-n_ary_scopes :
    (m0 m : DomainMap) (ns : List NAry)
    → ((v : ℕ) → has m v ≡ has m0 v)
    → All (λ (n : NAry). All (λ v. has m0 v ≡ true) n.scope) ns
    → All (λ scope. All (λ v. has m v ≡ true) scope) (map (λ (n : NAry). n.scope) ns)
All-n_ary_scopes m0 m [] k h = tt
All-n_ary_scopes m0 m (n ∷ ns) k (h, hs) =
    (All-keys m0 m n.scope k h, All-n_ary_scopes m0 m ns k hs)

Covered-keys :
    (m0 m : DomainMap) (bs : List Binary)
    → ((v : ℕ) → has m v ≡ has m0 v)
    → All (Covered m0) bs
    → All (Covered m) bs
Covered-keys m0 m bs k h =
    All-map (Covered m0) (Covered m) bs (λ b e. (k b.first ∙ e.0, k b.second ∙ e.1)) h

rounds_bound :
    (t t' n len fuel : ℕ)
    → t' ≤ t
    → len ≤ 2 * n
    → t * suc n + 2 * n + 1 < fuel
    → t' * suc n + len < fuel
rounds_bound t t' n len fuel h k l = grind arith

output_safe :
    (b g u : FilteringOutput)
    → is_failure u ≡ false
    → is_failure (if is_pruned b || is_pruned g then pruned else u) ≡ false
output_safe b g u h = elim (Bool-cases (is_pruned b || is_pruned g)) [
  | inl e ↦ rw e refl
  | inr e ↦ rw e h
]

module _ (a : ℕ → ℤ) (address : ℕ → ℕ) (h : Handler) (m0 : DomainMap) where
  filter-Kept :
      (k : ℕ)
      → Valid m0
      → Within a m0
      → ByArity (Known m0) h
      → ByArity (Solved a) h
      → Enough (suc (suc k)) h m0
      → Kept a m0 (Handler.filter address (suc (suc k)) h m0)
  unfolding Handler.filter ByArity
  filter-Kept k valid within (ku, kb, kn) (su, sb, sn) enough =
      let start : Good a m0 m0 = record {
        valid = valid;
        holds = record { within = within; keys = λ v. refl };
        fewer = omega arith;
      } in
      let fuel = suc (suc k) in
      let bs = h.binary_constraints in
      let (u, eu, fu, gu) =
        unary_filtering-Filtered a h.unary_constraints unpruned m0 m0 refl su ku start in
      let worklist = initialize_worklist address bs 0 [] in
      let ready : Ready bs worklist u.1 = record {
        valid = gu.valid;
        covered = Covered-keys m0 u.1 bs gu.holds.keys kb;
        arcs = initialize_worklist-All address bs 0 (length bs) [] (omega arith) tt;
      } in
      let (b, eb, fb, vb, hb, nb) =
        binary_filtering-Holds a address bs sb m0 fuel worklist u.1 ready gu.holds (
          rounds_bound (total m0) (total u.1) (length bs) (length worklist) fuel gu.fewer
            (omega (arith, length-initialize_worklist address bs 0 [])) enough) in
      let (g, eg, fg, hg) =
        global_filtering-Holds a h.n_ary_constraints unpruned m0 b.1 refl sn kn vb hb in
      let stop =
        keep_pruning-binary_filtering address fuel h worklist u.1 g.1 b g.0 k (suc k) eb fb in
      elim (Bool-cases (no_constraints h.constraints)) [
        | inl none ↦ rw none ((unpruned, m0), refl, refl, start.holds)
        | inr some ↦ elim (Bool-cases (length h.unary_constraints == length h.constraints)) [
          | inl all_unary ↦ rw (some, eu, fu, all_unary) (u, refl, fu, gu.holds)
          | inr mixed ↦
              rw
                (
                  some,
                  eu,
                  fu,
                  mixed,
                  load_domains-ok u.1 (map scope_of bs) (All-scopes m0 u.1 bs gu.holds.keys kb),
                  load_domains-ok u.1 (map (λ (n : NAry). n.scope) h.n_ary_constraints)
                      (All-n_ary_scopes m0 u.1 h.n_ary_constraints gu.holds.keys kn),
                  eb,
                  fb,
                  eg,
                  fg,
                  stop,
                )
                (_, refl, output_safe b.0 g.0 u.0 fu, hg)
        ]
      ]

-- Filtering returns and loses no solution: if the domains of the map are in ascending order and not empty,
-- there is one for every variable of a constraint, an assignment takes its values from the domains and
-- satisfies all constraints, those with a filter of their own keep it, and the fuel is larger than the
-- bound of `Enough`, then `filter` returns with an output that is not a failure, and the domains that it
-- leaves are those of the same variables and still have the values of the assignment.
pub filter-Holds :
    (a : ℕ → ℤ) (address : ℕ → ℕ) (constraints : List DirectConstraint) (m : DomainMap) (fuel : ℕ)
    → Valid m
    → Within a m
    → All (Known m) constraints
    → All (Solved a) constraints
    → Enough fuel (index_constraints_by_arity constraints) m
    → Kept a m (Handler.filter address fuel (index_constraints_by_arity constraints) m)
filter-Holds a address cs m zero valid within known solved enough = absurd (omega arith)
filter-Holds a address cs m (suc zero) valid within known solved enough = absurd (omega arith)
filter-Holds a address cs m (suc (suc k)) valid within known solved enough =
    filter-Kept a address (index_constraints_by_arity cs) m k valid within
      (by_arity (Known m) cs known) (by_arity (Solved a) cs solved) enough
