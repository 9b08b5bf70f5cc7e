-- ===== src/Applicability/Agreement.antt =====
-- src/applicability/action_managers.cxx: `isApplicable` and `NaiveActionManager::applicable`.
use planner.Prelude.{
  ℕ, ◌≡◌, refl, sym, ap, ◌∙◌, Bool, true, not, List, if◌then◌else◌, inl, inr, Bool-cases,
}
use planner.Prelude.Int.{ℤ}
use planner.Prelude.Outcome.{ok, ◌>>=◌, Result-cases, ok_injective}
use planner.Info.{ProblemInfo}
use planner.State.{State, derive}
use planner.Binding.{empty_binding}
use planner.Language.Syntax.{
  Formula, Formulas, tautology, conjunction, atom_conjunction, no_formulas, and_formula,
  is_tautology, contradiction, atomic, disjunction, negation, existential, universal,
}
use planner.Language.Interpret.{
  of_state, interpret_formula, interpret_conjuncts, interpret_sentence,
}
use planner.Language.Bind.FormulaValue.{
  IsQuantifierFree, AreQuantifierFree, keeps_binding, interpret-atom_conjunction,
}
use planner.Applicability.{
  GroundAction, process_state_constraints, check_constraints, check_formula_holds, is_applicable,
  manager_applicable, is_empty, compute_effects, check_atoms_within_bounds,
}

module _ (info : ProblemInfo) (s : State) where
  conjuncts_check :
      (fs : Formulas)
      → AreQuantifierFree fs
      → (interpret_conjuncts info (of_state s) fs empty_binding >>= λ r. ok r.0)
        ≡ check_constraints info fs s
  unfolding interpret_formula check_constraints interpret_sentence IsQuantifierFree
  conjuncts_check no_formulas q = refl
  conjuncts_check (and_formula f fs) (q, qs) =
      elim (Result-cases (interpret_formula info (of_state s) f empty_binding)) [
        | inl ((v, c), e) ↦
            let same = keeps_binding info (of_state s) empty_binding f v c q e in
            elim (Bool-cases v) [
              | inl t ↦ rw (e, t, same) (conjuncts_check fs qs)
              | inr t ↦ rw (e, t) refl
            ]
        | inr (x, e) ↦ rw e refl
      ]

  constraints_check :
      (f : Formula) (fs : Formulas)
      → IsQuantifierFree f
      → process_state_constraints info f ≡ ok fs
      → check_formula_holds info s f ≡ check_constraints info fs s
  unfolding process_state_constraints interpret_sentence IsQuantifierFree interpret_formula
      check_constraints
  constraints_check tautology fs q h =
      ap (λ (k : Formulas). check_constraints info k s) (ok_injective h)
  constraints_check (conjunction gs) fs q h =
      conjuncts_check gs q ∙ ap (λ (k : Formulas). check_constraints info k s) (ok_injective h)
  constraints_check (atom_conjunction gs atoms) fs (q, e, n) h = rw e (
      ap (λ m. m >>= λ r. ok r.0)
        (interpret-atom_conjunction info (of_state s) empty_binding gs (rw (← e) n))
      ∙ conjuncts_check gs q
      ∙ ap (λ (k : Formulas). check_constraints info k s) (ok_injective h))
  constraints_check contradiction fs q h = absurd (cc h)
  constraints_check (atomic _ _) fs q h = absurd (cc h)
  constraints_check (disjunction _) fs q h = absurd (cc h)
  constraints_check (negation _) fs q h = absurd (cc h)
  constraints_check (existential _ _) fs q h = absurd (cc h)
  constraints_check (universal _ _) fs q h = absurd (cc h)

  pub skip_tautology :
      (f : Formula)
      → (if not (is_tautology f) then check_formula_holds info s f else ok true)
        ≡ check_formula_holds info s f
  unfolding interpret_sentence interpret_formula
  skip_tautology tautology = refl
  skip_tautology _ = refl

  skip_empty :
      (fs : Formulas)
      → (if not (is_empty info fs) then check_constraints info fs s else ok true)
        ≡ check_constraints info fs s
  unfolding check_constraints
  skip_empty no_formulas = refl
  skip_empty (and_formula _ _) = refl

-- The action manager and the applicability manager agree on every state and action, in the exceptions
-- thrown as well, if the manager accepts the state constraints and they have no quantifiers: checking
-- the conjuncts one by one, and only where there are any, is evaluating the whole formula.
pub manager_applicable-is_applicable :
    (info : ProblemInfo) (hash_of : List Bool → List ℤ → ℕ) (f : Formula) (fs : Formulas)
    (s : State) (action : GroundAction)
    → IsQuantifierFree f
    → process_state_constraints info f ≡ ok fs
    → manager_applicable info hash_of fs s action ≡ is_applicable info hash_of f s action
unfolding manager_applicable is_applicable
manager_applicable-is_applicable info hash_of f fs s action q h =
    elim (Result-cases (check_formula_holds info s action.precondition)) [
      | inr (x, e) ↦ rw e refl
      | inl (v, e) ↦ elim (Bool-cases v) [
        | inr t ↦ rw (e, t) refl
        | inl t ↦ elim (Result-cases (compute_effects info s action.effects)) [
          | inr (x, k) ↦ rw (e, t, k) refl
          | inl (atoms, k) ↦ elim (Result-cases (check_atoms_within_bounds info atoms)) [
            | inr (x, m) ↦ rw (e, t, k, m) refl
            | inl (w, m) ↦ elim (Bool-cases w) [
              | inr p ↦ rw (e, t, k, m, p) refl
              | inl p ↦
                  rw (e, t, k, m, p)
                    (skip_empty info (derive hash_of s atoms) fs
                      ∙ sym (constraints_check info (derive hash_of s atoms) f fs q h)
                      ∙ sym (skip_tautology info (derive hash_of s atoms) f))
            ]
          ]
        ]
      ]
    ]
