-- ===== src/Language/Syntax.antt =====
-- src/languages/fstrips/terms.hxx, formulae.hxx and builtin.hxx: a constructor for each class.
-- The names of variables, which only the printers use, are left out. Axiomatic terms and atoms, whose
-- bodies are external code or shared axioms, are not modelled.
use planner.Prelude.{ℕ, suc, Bool, true, false, List}
use planner.Prelude.Int.{ℤ}

-- `BoundVariable`: its identifier and its type.
pub record Variable : Type 0 where
  pub id : ℕ
  pub type : ℕ

-- The subclasses of `ArithmeticTerm`.
pub data Operation : Type 0 where
  addition subtraction multiplication : Operation

-- `ArithmeticTerm` asserts that it has two subterms. A state variable keeps the symbol and the subterms
-- of the nested term that it comes from.
mutual
  pub data Term : Type 0 where
    constant : ℤ → Term
    int_constant : ℤ → Term
    state_variable : ℕ → ℕ → Terms → Term
    bound_variable : Variable → Term
    arithmetic : Operation → Term → Term → Term
    user_defined_static : ℕ → Terms → Term
    fluent_headed : ℕ → Terms → Term

  pub data Terms : Type 0 where
    nil : Terms
    cons : Term → Terms → Terms

abbrev pub num_terms : Terms → ℕ
num_terms nil = 0
num_terms (cons t ts) = suc (num_terms ts)

-- The heads of atomic formulas: `RelationalFormula::Symbol`, the built-in constraints, and
-- externally defined predicates, whose code is generated for each problem.
pub data Symbol : Type 0 where
  eq neq lt leq gt geq : Symbol
  alldiff sum nvalues : Symbol
  external : (List ℤ → Bool) → Symbol

-- An `AtomConjunction` keeps the pairs X=x of its conjuncts beside them.
mutual
  pub data Formula : Type 0 where
    tautology contradiction : Formula
    atomic : Symbol → Terms → Formula
    conjunction disjunction : Formulas → Formula
    atom_conjunction : Formulas → List (ℕ × ℤ) → Formula
    negation : Formula → Formula
    existential universal : List Variable → Formula → Formula

  pub data Formulas : Type 0 where
    no_formulas : Formulas
    and_formula : Formula → Formulas → Formulas

abbrev pub num_formulas : Formulas → ℕ
num_formulas no_formulas = 0
num_formulas (and_formula f fs) = suc (num_formulas fs)

abbrev pub is_tautology : Formula → Bool
is_tautology tautology = true
is_tautology _ = false

abbrev pub is_contradiction : Formula → Bool
is_contradiction contradiction = true
is_contradiction _ = false
