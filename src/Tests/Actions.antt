-- ===== src/Tests/Actions.antt =====
-- The theorems on formulas, actions and plans at concrete inputs.
use planner.Prelude.{
  all, List, All, ℕ, ◌≡◌, ◌==◌, ◌↔◌, refl, Bool, true, false, [], ◌∷◌, arith, any,
}
use planner.Prelude.Int.{ℤ, pos, ◌+ℤ◌}
use planner.Prelude.Outcome.{Result, ok}
use planner.Info.{check_value_is_valid}
use planner.State.{State, create, create_indexer, derive, get_value}
use planner.Binding.{Binding, complete, value}
use planner.Language.Syntax.{
  Term, Formula, Formulas, bound_variable, int_constant, arithmetic, addition, conjunction,
  no_formulas, and_formula, leq, eq, atomic, cons, nil,
}
use planner.Language.Builtin.{apply_operation, satisfied}
use planner.Language.Interpret.{
  of_state, interpret_term, interpret_subterms, interpret_variable, interpret_formula,
  interpret_sentence,
}
use planner.Language.Bind.{
  bind_term, bind_subterms, bind_formula, bind_atomic, join_conjuncts, fold_operation,
}
use planner.Effect.{apply, applicable}
use planner.Language.Bind.TermValue.{interpret_term-bind_term}
use planner.Language.Bind.FormulaValue.{IsQuantifierFree}
use planner.Language.Bind.FormulaTruth.{interpret_formula-bind_formula}
use planner.Applicability.{
  process_state_constraints, is_applicable, manager_applicable, check_plan, compute_effects,
  check_atoms_within_bounds,
}
use planner.Applicability.Agreement.{manager_applicable-is_applicable}
use planner.Applicability.Execution.{Run, check_plan_iff}
use planner.Applicability.Iteration.{
  applicable_set, applicable_set-filter, applicable_set-whitelist,
}
use planner.Whitelist.{empty_intersection, compute_whitelist, candidates_loop}
use planner.Whitelist.Intersection.{mem, empty_intersection-any}
use planner.Whitelist.Candidates.{IsActions, mem-compute_whitelist}
use planner.Tests.{info, atom, hash, switch, counter, compare, state_constraints, count_up, turn_on}

abbrev start : State
start = create hash (create_indexer info) (atom 0 0 ∷ atom 1 1 ∷ [])

abbrev goal : State → Result Bool
goal s = interpret_sentence info (of_state s) (compare eq switch 1)

check_plan_iff_example :
    (check_plan info hash state_constraints goal (count_up ∷ turn_on ∷ []) start ≡ ok true) ↔ (
      (t : State) × Run info hash state_constraints (count_up ∷ turn_on ∷ []) start t
      × (goal t ≡ ok true))
check_plan_iff_example =
    check_plan_iff info hash state_constraints goal (count_up ∷ turn_on ∷ []) start

-- The plan counts up to 2 and turns the switch on.
plan_accepted :
    check_plan info hash state_constraints goal (count_up ∷ turn_on ∷ []) start ≡ ok true
unfolding check_plan create create_indexer is_applicable interpret_sentence interpret_subterms
    satisfied get_value compute_effects applicable apply interpret_variable apply_operation ◌+ℤ◌
    check_atoms_within_bounds check_value_is_valid derive
plan_accepted = refl

abbrev constraint_list : Formulas
constraint_list =
    and_formula (compare leq counter 2) (and_formula (compare leq switch 1) no_formulas)

manager_applicable-is_applicable_example :
    manager_applicable info hash constraint_list start count_up
    ≡ is_applicable info hash state_constraints start count_up
unfolding IsQuantifierFree process_state_constraints
manager_applicable-is_applicable_example =
    manager_applicable-is_applicable info hash state_constraints constraint_list start count_up
      (tt, (tt, tt)) refl

-- A parameter x, bound to 1.
abbrev parameter : Term
parameter = bound_variable (record { id = 0; type = 1 })

abbrev bound : Binding
bound = complete (pos 1 ∷ [])

interpret_term-bind_term_example :
    interpret_term info (of_state start) (arithmetic addition (int_constant (pos 1)) counter) bound
    ≡ ok (pos 2)
unfolding interpret_term bind_term create create_indexer get_value value apply_operation ◌+ℤ◌
    fold_operation
interpret_term-bind_term_example =
    interpret_term-bind_term info (of_state start) bound bound refl refl (λ v x h. h)
      (arithmetic addition parameter counter) (arithmetic addition (int_constant (pos 1)) counter)
      (pos 2) refl refl

abbrev lifted : Formula
lifted = conjunction (
    and_formula (compare leq parameter 1)
      (and_formula (atomic leq (cons parameter (cons counter nil))) no_formulas))

abbrev grounded : Formula
grounded =
    conjunction
      (and_formula (atomic leq (cons (int_constant (pos 1)) (cons counter nil))) no_formulas)

interpret_formula-bind_formula_example :
    interpret_formula info (of_state start) grounded bound ≡ ok (true, bound)
unfolding interpret_formula bind_formula IsQuantifierFree create create_indexer get_value
    interpret_subterms value satisfied bind_subterms bind_atomic join_conjuncts
interpret_formula-bind_formula_example =
    interpret_formula-bind_formula info (of_state start) bound bound refl refl (λ v x h. h) lifted
      grounded true bound (tt, (tt, tt)) refl refl

abbrev is_even : ℕ → Result Bool
is_even n = ok (any (λ m. n == m) (0 ∷ 2 ∷ 4 ∷ []))

applicable_set-filter_example : applicable_set false is_even (0 ∷ 1 ∷ 2 ∷ 3 ∷ []) ≡ ok (0 ∷ 2 ∷ [])
applicable_set-filter_example = applicable_set-filter is_even (0 ∷ 1 ∷ 2 ∷ 3 ∷ [])

applicable_set-whitelist_example :
    applicable_set true is_even (0 ∷ 1 ∷ 2 ∷ []) ≡ ok (0 ∷ 1 ∷ 2 ∷ [])
applicable_set-whitelist_example = applicable_set-whitelist is_even (0 ∷ 1 ∷ 2 ∷ [])

empty_intersection-any_example : empty_intersection (1 ∷ 3 ∷ []) (2 ∷ 3 ∷ []) ≡ false
empty_intersection-any_example =
    empty_intersection-any (1 ∷ 3 ∷ []) (2 ∷ 3 ∷ []) (omega arith, (omega arith, tt))
      (omega arith, (omega arith, tt))

-- The sets of the atoms X0=0, X0=1, X1=0, X1=1 and X1=2.
abbrev app_index : List (List ℕ)
app_index = (0 ∷ 2 ∷ []) ∷ (0 ∷ 1 ∷ []) ∷ (1 ∷ []) ∷ (0 ∷ 1 ∷ 2 ∷ []) ∷ (0 ∷ []) ∷ []

abbrev atom_index_inv : List (List (ℤ × ℕ))
atom_index_inv = ((pos 0, 0) ∷ (pos 1, 1) ∷ []) ∷ ((pos 0, 2) ∷ (pos 1, 3) ∷ (pos 2, 4) ∷ []) ∷ []

app_index-IsActions : All (IsActions 3) app_index
app_index-IsActions = (
  ((omega arith, (omega arith, tt)), (omega arith, (omega arith, tt))),
  (
    ((omega arith, (omega arith, tt)), (omega arith, (omega arith, tt))),
    (
      ((omega arith, tt), (omega arith, tt)),
      (
        (
          (omega arith, (omega arith, (omega arith, tt))),
          (omega arith, (omega arith, (omega arith, tt))),
        ),
        (((omega arith, tt), (omega arith, tt)), tt),
      ),
    ),
  ),
)

mem-compute_whitelist_example :
    (whitelist : List ℕ) × (compute_whitelist atom_index_inv app_index 3 start ≡ ok whitelist)
    × ((a : ℕ) → mem a whitelist ≡ all (mem a) ((0 ∷ 2 ∷ []) ∷ (0 ∷ 1 ∷ 2 ∷ []) ∷ []))
unfolding create create_indexer get_value candidates_loop
mem-compute_whitelist_example =
    mem-compute_whitelist atom_index_inv app_index 3 start app_index-IsActions
      ((0 ∷ 2 ∷ []) ∷ (0 ∷ 1 ∷ 2 ∷ []) ∷ []) (omega arith) refl
