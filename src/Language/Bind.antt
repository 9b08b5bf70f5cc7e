-- ===== src/Language/Bind.antt =====
-- src/languages/fstrips/operations/binding.cxx: the partial evaluation of terms and formulas under a
-- binding, which grounds an action schema. Visitors become clauses; a class with no `Visit` makes
-- `Accept` throw a runtime error.
pub mod TermValue
pub mod Returns
pub mod FormulaValue
pub mod BoundParts
pub mod FormulaTruth
use planner.Prelude.{
  ℕ, Bool, true, false, ◌&&◌, Option, none, some, List, [], ◌∷◌, ◌++◌, ◌==◌, length, any,
  if◌then◌else◌,
}
use planner.Prelude.Int.{ℤ}
use planner.Prelude.Outcome.{Result, ok, err, runtime_error, ◌>>=◌}
use planner.Info.{ProblemInfo, is_bounded_type, resolve_state_variable}
use planner.Binding.{Binding, binds, value}
use planner.Language.Syntax.{
  Variable, Term, Terms, constant, int_constant, state_variable, bound_variable, arithmetic,
  user_defined_static, fluent_headed, nil, cons, num_terms, Symbol, eq, Formula, Formulas,
  tautology, contradiction, atomic, conjunction, disjunction, atom_conjunction, negation,
  existential, universal, no_formulas, and_formula, num_formulas, is_tautology, is_contradiction,
}
use planner.Language.Builtin.{apply_operation, satisfied}

-- `dynamic_cast<const Constant*>`: an `IntConstant` is a `Constant`.
abbrev pub constant_value : Term → List ℤ
constant_value (constant x) = x ∷ []
constant_value (int_constant x) = x ∷ []
constant_value _ = []

-- The pair X=x of a formula that is one.
abbrev pub atom_of : Formula → List (ℕ × ℤ)
atom_of (atomic eq (cons (state_variable v _ _) (cons (constant x) nil))) = (v, x) ∷ []
atom_of (atomic eq (cons (state_variable v _ _) (cons (int_constant x) nil))) = (v, x) ∷ []
atom_of _ = []

-- The visit of an `ArithmeticTerm`, once its subterms are bound: it is computed if both are constants.
unfoldable pub fold_operation :
    (Term → Term → Term) → (ℤ → ℤ → Result ℤ) → Term → Term → Result Term
fold_operation build compute l r = elim (constant_value l) [
  | [] ↦ ok (build l r)
  | x ∷ _ ↦ elim (constant_value r) [
    | [] ↦ ok (build l r)
    | y ∷ _ ↦ do z ← compute x y; ok (int_constant z)
  ]
]

-- The visit of an `AtomicFormula`: with constant subterms its truth value.
unfoldable pub bind_atomic : Symbol → Terms × List ℤ → Result Formula
bind_atomic symbol (ts, constants) =
    if length constants == num_terms ts
    then (do holds ← satisfied symbol constants; ok (if holds then tautology else contradiction))
    else ok (atomic symbol ts)

-- How a bound conjunct changes what is collected from the others; nothing is collected where the
-- whole conjunction is false.
abbrev pub add_conjunct :
    Formula → Option (Formulas × List (ℕ × ℤ)) → Option (Formulas × List (ℕ × ℤ))
add_conjunct f none = none
add_conjunct f (some (fs, atoms)) = some (and_formula f fs, atom_of f ++ atoms)

abbrev pub add_disjunct : Formula → Option Formulas → Option Formulas
add_disjunct f none = none
add_disjunct f (some fs) = some (and_formula f fs)

-- The result of the visit of a `Conjunction` and of a `Disjunction`.
unfoldable pub join_conjuncts : Option (Formulas × List (ℕ × ℤ)) → Formula
join_conjuncts none = contradiction
join_conjuncts (some (no_formulas, atoms)) = tautology
join_conjuncts (some (and_formula f fs, atoms)) =
    if num_formulas (and_formula f fs) == length atoms
    then atom_conjunction (and_formula f fs) atoms
    else conjunction (and_formula f fs)

unfoldable pub join_disjuncts : Option Formulas → Formula
join_disjuncts none = tautology
join_disjuncts (some no_formulas) = contradiction
join_disjuncts (some (and_formula f fs)) = disjunction (and_formula f fs)

-- A quantifier over a body that is decided is dropped.
unfoldable pub bind_quantified : (Formula → Formula) → Formula → Formula
bind_quantified build f = if is_tautology f then f else if is_contradiction f then f else build f

module _ (info : ProblemInfo) (b : Binding) where
  -- The visit of a `FluentHeadedNestedTerm`: with constant subterms it is a state variable.
  unfoldable pub bind_fluent : ℕ → Terms × List ℤ → Result Term
  bind_fluent symbol (ts, constants) =
      if length constants == num_terms ts
      then (do v ← resolve_state_variable info symbol constants; ok (state_variable v symbol ts))
      else ok (fluent_headed symbol ts)

  unfoldable mutual
    -- `bind` of a term
    pub bind_term : Term → Result Term
    bind_term (constant x) = ok (constant x)
    bind_term (int_constant x) = ok (int_constant x)
    bind_term (state_variable v symbol ts) = ok (state_variable v symbol ts)
    bind_term (bound_variable x) =
        if binds b x.id
        then (do
          y ← value b x.id
          ok (if is_bounded_type info x.type then int_constant y else constant y))
        else ok (bound_variable x)
    bind_term (arithmetic op l r) = do
      l' ← bind_term l
      r' ← bind_term r
      fold_operation (arithmetic op) (apply_operation op) l' r'
    bind_term (user_defined_static symbol ts) = do
      (ts', constants) ← bind_subterms ts
      ok (user_defined_static symbol ts')
    bind_term (fluent_headed symbol ts) = do bound ← bind_subterms ts; bind_fluent symbol bound

    -- `bind_subterms`: the bound subterms, and the values of those that are constants
    pub bind_subterms : Terms → Result (Terms × List ℤ)
    bind_subterms nil = ok (nil, [])
    bind_subterms (cons t ts) = do
      t' ← bind_term t
      (ts', constants) ← bind_subterms ts
      ok (cons t' ts', constant_value t' ++ constants)

  unfoldable mutual
    -- `bind` of a formula
    pub bind_formula : Formula → Result Formula
    bind_formula tautology = ok tautology
    bind_formula contradiction = ok contradiction
    bind_formula (atomic symbol ts) = do bound ← bind_subterms ts; bind_atomic symbol bound
    bind_formula (conjunction fs) = do conjuncts ← bind_conjuncts fs; ok (join_conjuncts conjuncts)
    bind_formula (atom_conjunction fs atoms) = do
      conjuncts ← bind_conjuncts fs
      ok (join_conjuncts conjuncts)
    bind_formula (disjunction fs) = do disjuncts ← bind_disjuncts fs; ok (join_disjuncts disjuncts)
    bind_formula (negation f) = err runtime_error
    bind_formula (existential variables f) =
        if any (λ (x : Variable). binds b x.id) variables
        then err runtime_error
        else (do f' ← bind_formula f; ok (bind_quantified (existential variables) f'))
    bind_formula (universal variables f) =
        if any (λ (x : Variable). binds b x.id) variables
        then err runtime_error
        else (do f' ← bind_formula f; ok (bind_quantified (universal variables) f'))

    -- The loop over conjuncts: a true one is dropped, and a false one ends it.
    pub bind_conjuncts : Formulas → Result (Option (Formulas × List (ℕ × ℤ)))
    bind_conjuncts no_formulas = ok (some (no_formulas, []))
    bind_conjuncts (and_formula f fs) = do
      f' ← bind_formula f
      if is_tautology f'
          then bind_conjuncts fs
          else if is_contradiction f'
          then ok none
          else (do rest ← bind_conjuncts fs; ok (add_conjunct f' rest))

    -- The loop over disjuncts: a false one is dropped, and a true one ends it.
    pub bind_disjuncts : Formulas → Result (Option Formulas)
    bind_disjuncts no_formulas = ok (some no_formulas)
    bind_disjuncts (and_formula f fs) = do
      f' ← bind_formula f
      if is_tautology f'
          then ok none
          else if is_contradiction f'
          then bind_disjuncts fs
          else (do rest ← bind_disjuncts fs; ok (add_disjunct f' rest))
