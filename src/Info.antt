-- ===== src/Info.antt =====
-- src/problem_info.hxx and src/problem_info.cxx: what the planner knows of a problem. The
-- loaders fill these fields from a JSON file; the records here are the loaded values.
use planner.Prelude.{
  ℕ, Bool, true, false, ◌&&◌, not, Option, none, some, List, [], ◌∷◌, ◌==◌, length, get_elem?,
  get_or, if◌then◌else◌, list_eq,
}
use planner.Prelude.Int.{ℤ, pos, eq_ℤ, leb_ℤ}
use planner.Prelude.Outcome.{Result, ok, ◌>>=◌, out_of_range, undefined, or_throw}
use planner.Atom.{Atom}

-- `SymbolData`: a predicate or a function symbol, and its denotation if it is static.
pub record SymbolData : Type 0 where
  pub is_predicate : Bool
  pub codomain_type : ℕ
  pub is_static : Bool
  pub has_unbounded_arity : Bool
  pub function : List ℤ → Result ℤ

pub record ProblemInfo : Type 0 where
  pub predicative_variables : List Bool
  pub variable_types : List ℕ
  pub variable_data : List (ℕ × List ℤ)
  pub variable_data_to_id : List ((ℕ × List ℤ) × ℕ)
  pub type_objects : List (List ℤ)
  pub is_type_bounded : List Bool
  pub type_bounds : List (ℤ × ℤ)
  pub function_data : List SymbolData

abbrev pub num_variables : ProblemInfo → ℕ
num_variables info = length info.predicative_variables

-- `isPredicativeVariable`, by `at`
abbrev pub is_predicative_variable : ProblemInfo → ℕ → Result Bool
is_predicative_variable info v = or_throw (get_elem? info.predicative_variables v) out_of_range

-- `isNegatedPredicativeAtom`
abbrev pub is_negated_predicative_atom : ProblemInfo → Atom → Result Bool
is_negated_predicative_atom info a = do
  predicative ← is_predicative_variable info a.variable
  ok (predicative && eq_ℤ a.value (pos 0))

-- `getTypeObjects`, by `at`
abbrev pub get_type_objects : ProblemInfo → ℕ → Result (List ℤ)
get_type_objects info type = or_throw (get_elem? info.type_objects type) out_of_range

-- `isBoundedType`, by `operator[]`
abbrev pub is_bounded_type : ProblemInfo → ℕ → Bool
is_bounded_type info type = get_or info.is_type_bounded type false

-- `checkValueIsValid`: values of a bounded integer type must lie within the bounds. The type is
-- read by `at`, and the bounds by `operator[]`.
unfoldable pub check_value_is_valid : ProblemInfo → Atom → Result Bool
check_value_is_valid info a = do
  type ← or_throw (get_elem? info.variable_types a.variable) out_of_range
  if not (is_bounded_type info type) then ok true else (do
    bounds ← or_throw (get_elem? info.type_bounds type) undefined
    ok (leb_ℤ bounds.0 a.value && leb_ℤ a.value bounds.1))

-- `getSymbolData`, by `at`
abbrev pub get_symbol_data : ProblemInfo → ℕ → Result SymbolData
get_symbol_data info symbol = or_throw (get_elem? info.function_data symbol) out_of_range

abbrev pub lookup_data : ℕ → List ℤ → List ((ℕ × List ℤ) × ℕ) → Option ℕ
lookup_data symbol constants [] = none
lookup_data symbol constants (((s, cs), v) ∷ rest) =
    if s == symbol && list_eq eq_ℤ cs constants then some v else lookup_data symbol constants rest

-- `resolveStateVariable`, by `at` on the map from a symbol and its arguments to the variable
abbrev pub resolve_state_variable : ProblemInfo → ℕ → List ℤ → Result ℕ
resolve_state_variable info symbol constants =
    or_throw (lookup_data symbol constants info.variable_data_to_id) out_of_range

-- `isPredicate`
abbrev pub is_predicate : ProblemInfo → ℕ → Result Bool
is_predicate info symbol = do symbol_data ← get_symbol_data info symbol; ok symbol_data.is_predicate
