-- ===== src/Applicability/Execution.antt =====
-- src/actions/checker.cxx: the plan checker and the executions of a plan.
use planner.Prelude.{
  ℕ, ◌≡◌, ◌↔◌, refl, sym, ap, ◌∙◌, Bool, true, List, [], ◌∷◌, inl, inr, Bool-cases,
}
use planner.Prelude.Int.{ℤ}
use planner.Prelude.Outcome.{Result, ok, >>=-eq-ok}
use planner.Atom.{Atom}
use planner.Info.{ProblemInfo}
use planner.State.{State, derive, accumulate}
use planner.Language.Syntax.{Formula}
use planner.Applicability.{
  GroundAction, check_formula_holds, is_applicable, check_plan, compute_effects,
  check_atoms_within_bounds,
}
use planner.Applicability.Agreement.{skip_tautology}

module _ (info : ProblemInfo) (hash_of : List Bool → List ℤ → ℕ) (constraints : Formula) where
  -- What it means for an action to lead from s to t: its precondition holds in s, its effects are the
  -- atoms, which lie within their bounds, t is s with the atoms, and the state constraints hold in t.
  pub record Step (s : State) (action : GroundAction) (t : State) : Type 0 where
    pub atoms : List Atom
    pub holds : check_formula_holds info s action.precondition ≡ ok true
    pub effects : compute_effects info s action.effects ≡ ok atoms
    pub inside : check_atoms_within_bounds info atoms ≡ ok true
    pub result : t ≡ accumulate hash_of s atoms
    pub respects : check_formula_holds info t constraints ≡ ok true

  -- The executions of a plan
  pub data Run : List GroundAction → State → State → Type 0 where
    done : {s : State} → Run [] s s
    then_run :
        {action : GroundAction} {plan : List GroundAction} {s t u : State}
        → Step s action t
        → Run plan t u
        → Run (action ∷ plan) s u

  is_applicable-Step :
      (s : State) (action : GroundAction)
      → is_applicable info hash_of constraints s action ≡ ok true
      → (atoms : List Atom) × (compute_effects info s action.effects ≡ ok atoms)
        × Step s action (accumulate hash_of s atoms)
  unfolding is_applicable derive
  is_applicable-Step s action h =
      let (v, e, h1) = >>=-eq-ok (check_formula_holds info s action.precondition) _ h in
      elim (Bool-cases v) [
        | inr t ↦ absurd (cc (rw t at h1))
        | inl t ↦
            let (atoms, k, h2) = >>=-eq-ok (compute_effects info s action.effects) _ (rw t at h1) in
            let (w, m, h3) = >>=-eq-ok (check_atoms_within_bounds info atoms) _ h2 in
            elim (Bool-cases w) [
              | inr p ↦ absurd (cc (rw p at h3))
              | inl p ↦ (
                atoms,
                k,
                record {
                  atoms = atoms;
                  holds = e ∙ ap ok t;
                  effects = k;
                  inside = m ∙ ap ok p;
                  result = refl;
                  respects =
                      sym (skip_tautology info (accumulate hash_of s atoms) constraints)
                      ∙ (rw p at h3);
                },
              )
            ]
      ]

  Step-is_applicable :
      (s t : State) (action : GroundAction)
      → Step s action t
      → is_applicable info hash_of constraints s action ≡ ok true
  unfolding is_applicable derive
  Step-is_applicable s t action step =
      rw (step.holds, step.effects, step.inside)
        (skip_tautology info (accumulate hash_of s step.atoms) constraints
          ∙ ap (λ (u : State). check_formula_holds info u constraints) (sym step.result)
          ∙ step.respects)

  module _ (goal_satisfied : State → Result Bool) where
    check_plan-Run :
        (plan : List GroundAction) (s : State)
        → check_plan info hash_of constraints goal_satisfied plan s ≡ ok true
        → (t : State) × Run plan s t × (goal_satisfied t ≡ ok true)
    unfolding check_plan
    check_plan-Run [] s h = (s, done, h)
    check_plan-Run (action ∷ plan) s h =
        let (v, e, h1) = >>=-eq-ok (is_applicable info hash_of constraints s action) _ h in
        elim (Bool-cases v) [
          | inr t ↦ absurd (cc (rw t at h1))
          | inl t ↦
              let (atoms, k, step) = is_applicable-Step s action (e ∙ ap ok t) in
              let (u, run, goal) =
                check_plan-Run plan (accumulate hash_of s atoms) (rw (t, k) at h1) in
              (u, then_run step run, goal)
        ]

    Run-check_plan :
        (plan : List GroundAction) (s t : State)
        → Run plan s t
        → goal_satisfied t ≡ ok true
        → check_plan info hash_of constraints goal_satisfied plan s ≡ ok true
    unfolding check_plan
    Run-check_plan _ s t done goal = goal
    Run-check_plan _ _ _ (then_run {action} {plan} {s} {t} {u} step run) goal =
        rw (Step-is_applicable s t action step, step.effects, ← step.result)
          (Run-check_plan plan t u run goal)

    -- The plan checker answers true exactly for the plans that can be executed from the given state,
    -- each action leading to a state that satisfies the state constraints, and end in a state where the
    -- goal is satisfied.
    pub check_plan_iff :
        (plan : List GroundAction) (s : State)
        → (check_plan info hash_of constraints goal_satisfied plan s ≡ ok true)
          ↔ ((t : State) × Run plan s t × (goal_satisfied t ≡ ok true))
    check_plan_iff plan s =
        (check_plan-Run plan s, λ (t, run, goal). Run-check_plan plan s t run goal)
