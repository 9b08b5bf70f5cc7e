-- ===== src/Applicability.antt =====
-- src/applicability/action_managers.hxx and action_managers.cxx: when a ground action is applicable,
-- and what it does.
pub mod Agreement
pub mod Execution
pub mod Iteration
use planner.Prelude.{ℕ, Bool, true, false, not, List, [], ◌∷◌, if◌then◌else◌}
use planner.Prelude.Int.{ℤ}
use planner.Prelude.Outcome.{Result, ok, err, runtime_error, ◌>>=◌}
use planner.Atom.{Atom}
use planner.Info.{ProblemInfo, check_value_is_valid}
use planner.State.{State, derive, accumulate}
use planner.Language.Syntax.{
  Formula, Formulas, tautology, conjunction, atom_conjunction, no_formulas, and_formula,
  is_tautology,
}
use planner.Language.Interpret.{of_state, interpret_sentence}
use planner.Effect.{Effect, apply, applicable}

-- `GroundAction`
pub record GroundAction : Type 0 where
  pub id : ℕ
  pub precondition : Formula
  pub effects : List Effect

module _ (info : ProblemInfo) where
  -- `checkFormulaHolds`
  abbrev pub check_formula_holds : State → Formula → Result Bool
  check_formula_holds s f = interpret_sentence info (of_state s) f

  -- `computeEffects`: the atoms of the effects whose condition holds, in the order of the effects
  unfoldable pub compute_effects : State → List Effect → Result (List Atom)
  compute_effects s [] = ok []
  compute_effects s (e ∷ effects) = do
    holds ← applicable info s e
    if holds
        then (do a ← apply info s e; atoms ← compute_effects s effects; ok (a ∷ atoms))
        else compute_effects s effects

  -- `checkAtomsWithinBounds`
  unfoldable pub check_atoms_within_bounds : List Atom → Result Bool
  check_atoms_within_bounds [] = ok true
  check_atoms_within_bounds (a ∷ atoms) = do
    valid ← check_value_is_valid info a
    if not valid then ok false else check_atoms_within_bounds atoms

  -- `_process_state_constraints`; an `AtomConjunction` is a `Conjunction`.
  unfoldable pub process_state_constraints : Formula → Result Formulas
  process_state_constraints tautology = ok no_formulas
  process_state_constraints (conjunction fs) = ok fs
  process_state_constraints (atom_conjunction fs _) = ok fs
  process_state_constraints _ = err runtime_error

  -- `NaiveActionManager::check_constraints`
  unfoldable pub check_constraints : Formulas → State → Result Bool
  check_constraints no_formulas s = ok true
  check_constraints (and_formula f fs) s = do
    holds ← check_formula_holds s f
    if not holds then ok false else check_constraints fs s

  -- `NaiveActionManager::_state_constraints.empty()`
  abbrev pub is_empty : Formulas → Bool
  is_empty no_formulas = true
  is_empty (and_formula _ _) = false

  module _ (hash_of : List Bool → List ℤ → ℕ) where
    -- `NaiveApplicabilityManager::isApplicable`
    unfoldable pub is_applicable : Formula → State → GroundAction → Result Bool
    is_applicable constraints s action = do
      holds ← check_formula_holds s action.precondition
      if not holds then ok false else (do
        atoms ← compute_effects s action.effects
        inside ← check_atoms_within_bounds atoms
        if not inside
            then ok false
            else if not (is_tautology constraints)
            then check_formula_holds (derive hash_of s atoms) constraints
            else ok true)

    -- `NaiveActionManager::applicable`, with the list of state constraints of the manager
    unfoldable pub manager_applicable : Formulas → State → GroundAction → Result Bool
    manager_applicable constraints s action = do
      holds ← check_formula_holds s action.precondition
      if not holds then ok false else (do
        atoms ← compute_effects s action.effects
        inside ← check_atoms_within_bounds atoms
        if not inside
            then ok false
            else if not (is_empty constraints)
            then check_constraints constraints (derive hash_of s atoms)
            else ok true)

    -- The loop of `Checker::check_correctness` (src/actions/checker.cxx) over the actions of the plan:
    -- the state that the plan leads to, or false where an action is not applicable.
    unfoldable pub check_plan :
        Formula → (State → Result Bool) → List GroundAction → State → Result Bool
    check_plan constraints goal_satisfied [] s = goal_satisfied s
    check_plan constraints goal_satisfied (action ∷ plan) s = do
      holds ← is_applicable constraints s action
      if not holds then ok false else (do
        atoms ← compute_effects s action.effects
        check_plan constraints goal_satisfied plan (accumulate hash_of s atoms))
