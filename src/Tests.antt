-- ===== src/Tests.antt =====
-- A small problem, on which the theorems are applied: a switch, which is a predicate, and a counter
-- from 0 to 2. One action counts up, and the other turns the switch on once the counter is at 2.
mod States
mod Bindings
mod Actions
mod Trees
mod Products
mod Effects
mod Constraints
mod RelaxedPlans
mod Indexes
use planner.Prelude.{ℕ, ◌+◌, Bool, true, false, List, [], ◌∷◌, length}
use planner.Prelude.Int.{ℤ, pos}
use planner.Prelude.Outcome.{Result, ok, err, runtime_error}
use planner.Atom.{Atom}
use planner.Info.{ProblemInfo, SymbolData}
use planner.Language.Syntax.{
  Term, constant, int_constant, state_variable, arithmetic, addition, nil, cons, Symbol, eq, lt,
  leq, Formula, tautology, atomic, conjunction, no_formulas, and_formula,
}
use planner.Effect.{Effect}
use planner.Applicability.{GroundAction}

abbrev pub fluent : Bool → ℕ → SymbolData
fluent predicate codomain = record {
  is_predicate = predicate;
  codomain_type = codomain;
  is_static = false;
  has_unbounded_arity = false;
  function = λ _. err runtime_error;
}

abbrev pub info : ProblemInfo
info = record {
  predicative_variables = true ∷ false ∷ [];
  variable_types = 0 ∷ 1 ∷ [];
  variable_data = (0, []) ∷ (1, []) ∷ [];
  variable_data_to_id = ((0, []), 0) ∷ ((1, []), 1) ∷ [];
  type_objects = (pos 0 ∷ pos 1 ∷ []) ∷ (pos 0 ∷ pos 1 ∷ pos 2 ∷ []) ∷ [];
  is_type_bounded = false ∷ true ∷ [];
  type_bounds = (pos 0, pos 0) ∷ (pos 0, pos 2) ∷ [];
  function_data = fluent true 0 ∷ fluent false 1 ∷ [];
}

abbrev pub atom : ℕ → ℕ → Atom
atom v x = record { variable = v; value = pos x }

abbrev pub hash : List Bool → List ℤ → ℕ
hash bools ints = length bools + length ints

abbrev pub switch : Term
switch = state_variable 0 0 nil

abbrev pub counter : Term
counter = state_variable 1 1 nil

abbrev pub compare : Symbol → Term → ℕ → Formula
compare symbol t x = atomic symbol (cons t (cons (int_constant (pos x)) nil))

-- The counter is at most 2, and the switch is off or on.
abbrev pub state_constraints : Formula
state_constraints =
    conjunction
      (and_formula (compare leq counter 2) (and_formula (compare leq switch 1) no_formulas))

abbrev pub count_up : GroundAction
count_up = record {
  id = 0;
  precondition = compare lt counter 2;
  effects =
      record {
        lhs = counter;
        rhs = arithmetic addition counter (int_constant (pos 1));
        condition = tautology;
      }
      ∷ [];
}

abbrev pub turn_on : GroundAction
turn_on = record {
  id = 1;
  precondition = compare eq counter 2;
  effects = record { lhs = switch; rhs = constant (pos 1); condition = tautology } ∷ [];
}
