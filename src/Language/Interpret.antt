-- ===== src/Language/Interpret.antt =====
-- src/languages/fstrips/terms.cxx, formulae.cxx and operations/interpretation.cxx: the value of a
-- term, and the truth of a formula, under an assignment and a binding. The binding is passed by
-- reference: a quantifier writes its variables into it, so it comes back with the result.
use planner.Prelude.{
  ℕ, Bool, true, false, not, Option, none, some, List, [], ◌∷◌, ◌==◌, if◌then◌else◌,
}
use planner.Prelude.Int.{ℤ, eq_ℤ}
use planner.Prelude.Outcome.{Result, ok, err, runtime_error, out_of_range, or_throw, ◌>>=◌}
use planner.Info.{ProblemInfo, get_symbol_data, get_type_objects, resolve_state_variable}
use planner.State.{State, get_value}
use planner.Binding.{Binding, empty_binding, binds, value, set_binding}
use planner.Language.Syntax.{
  Variable, Term, Terms, constant, int_constant, state_variable, bound_variable, arithmetic,
  user_defined_static, fluent_headed, nil, cons, Formula, Formulas, tautology, contradiction,
  atomic, conjunction, disjunction, atom_conjunction, negation, existential, universal, no_formulas,
  and_formula,
}
use planner.Language.Builtin.{apply_operation, satisfied}

-- Terms and formulas are interpreted in a state, or in a partial assignment of variables.
pub data Assignment : Type 0 where
  of_state : State → Assignment
  partial : List (ℕ × ℤ) → Assignment

abbrev find : ℕ → List (ℕ × ℤ) → Option ℤ
find v [] = none
find v ((w, x) ∷ rest) = if w == v then some x else find v rest

-- `state.getValue(v)`, and `assignment.at(v)`, which throws
abbrev pub fetch : Assignment → ℕ → Result ℤ
fetch (of_state s) v = ok (get_value s v)
fetch (partial m) v = or_throw (find v m) out_of_range

module _ (info : ProblemInfo) (a : Assignment) where
  unfoldable mutual
    -- `Term::interpret`
    pub interpret_term : Term → Binding → Result ℤ
    interpret_term (constant x) b = ok x
    interpret_term (int_constant x) b = ok x
    interpret_term (state_variable v _ _) b = fetch a v
    interpret_term (bound_variable x) b =
        if not (binds b x.id) then err runtime_error else value b x.id
    interpret_term (arithmetic op l r) b = do
      x ← interpret_term l b
      y ← interpret_term r b
      apply_operation op x y
    interpret_term (user_defined_static symbol ts) b = do
      xs ← interpret_subterms ts b
      symbol_data ← get_symbol_data info symbol
      symbol_data.function xs
    interpret_term (fluent_headed symbol ts) b = do
      xs ← interpret_subterms ts b
      v ← resolve_state_variable info symbol xs
      fetch a v

    -- `NestedTerm::interpret_subterms`
    pub interpret_subterms : Terms → Binding → Result (List ℤ)
    interpret_subterms nil b = ok []
    interpret_subterms (cons t ts) b = do
      x ← interpret_term t b
      xs ← interpret_subterms ts b
      ok (x ∷ xs)

  -- `interpret_variable`: the state variable that a term resolves to
  unfoldable pub interpret_variable : Term → Binding → Result ℕ
  unfolding interpret_term
  interpret_variable (state_variable v _ _) b = ok v
  interpret_variable (fluent_headed symbol ts) b = do
    xs ← interpret_subterms ts b
    resolve_state_variable info symbol xs
  interpret_variable _ b = err runtime_error

  -- The loops of `interpret_rec` over the objects of a variable's type: `stop` is the truth value that
  -- ends the loop, true for an existential and false for a universal formula.
  unfoldable pub quantifier_loop :
      Bool → (Binding → Result (Bool × Binding)) → ℕ → List ℤ → Binding → Result (Bool × Binding)
  quantifier_loop stop body v [] b = ok (not stop, b)
  quantifier_loop stop body v (x ∷ objects) b = do
    bound ← set_binding b v x
    (holds, b') ← body bound
    if (if stop then holds else not holds)
        then ok (stop, b')
        else quantifier_loop stop body v objects b'

  -- `interpret_rec`, from the variables that are not bound yet
  unfoldable pub interpret_rec :
      Bool → (Binding → Result (Bool × Binding)) → List Variable → Binding → Result (Bool × Binding)
  unfolding quantifier_loop
  interpret_rec stop body [] b = body b
  interpret_rec stop body (x ∷ variables) b = do
    objects ← get_type_objects info x.type
    quantifier_loop stop (interpret_rec stop body variables) x.id objects b

  -- `AtomConjunction::interpret` in a state
  unfoldable pub atoms_hold : List (ℕ × ℤ) → Result Bool
  atoms_hold [] = ok true
  atoms_hold ((v, x) ∷ atoms) = do
    y ← fetch a v
    if not (eq_ℤ y x) then ok false else atoms_hold atoms

  unfoldable mutual
    -- `Formula::interpret`
    pub interpret_formula : Formula → Binding → Result (Bool × Binding)
    interpret_formula tautology b = ok (true, b)
    interpret_formula contradiction b = ok (false, b)
    interpret_formula (atomic symbol ts) b = do
      xs ← interpret_subterms ts b
      holds ← satisfied symbol xs
      ok (holds, b)
    interpret_formula (conjunction fs) b = interpret_conjuncts fs b
    interpret_formula (disjunction fs) b = interpret_disjuncts fs b
    interpret_formula (atom_conjunction fs atoms) b = elim a [
      | of_state s ↦ do holds ← atoms_hold atoms; ok (holds, b)
      | partial m ↦ interpret_conjuncts fs b
    ]
    interpret_formula (negation f) b = do (holds, b') ← interpret_formula f b; ok (not holds, b')
    interpret_formula (existential variables f) b =
        interpret_rec true (interpret_formula f) variables b
    interpret_formula (universal variables f) b =
        interpret_rec false (interpret_formula f) variables b

    pub interpret_conjuncts : Formulas → Binding → Result (Bool × Binding)
    interpret_conjuncts no_formulas b = ok (true, b)
    interpret_conjuncts (and_formula f fs) b = do
      (holds, b') ← interpret_formula f b
      if not holds then ok (false, b') else interpret_conjuncts fs b'

    pub interpret_disjuncts : Formulas → Binding → Result (Bool × Binding)
    interpret_disjuncts no_formulas b = ok (false, b)
    interpret_disjuncts (and_formula f fs) b = do
      (holds, b') ← interpret_formula f b
      if holds then ok (true, b') else interpret_disjuncts fs b'

  -- `Formula::interpret` with no binding given: a fresh one
  unfoldable pub interpret_sentence : Formula → Result Bool
  unfolding interpret_formula
  interpret_sentence f = do (holds, _) ← interpret_formula f empty_binding; ok holds
