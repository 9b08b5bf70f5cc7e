-- ===== src/AtomIndex.antt =====
-- src/utils/atom_index.hxx and atom_index.cxx: a number for every atom and for every tuple of a logical
-- symbol. The proofs are in the modules below.
mod Entries
mod Growth
pub mod Listing
pub mod RoundTrip
pub mod Complete
use planner.Prelude.{
  ℕ, zero, suc, Bool, true, false, not, ◌||◌, List, [], ◌∷◌, ◌++◌, Option, none, some, map, ◌==◌,
  length, get_elem?, set, replicate, list_eq, if◌then◌else◌,
}
use planner.Prelude.Int.{ℤ, pos, eq_ℤ}
use planner.Prelude.Outcome.{Result, ok, out_of_range, undefined, or_throw, ◌>>=◌}
use planner.Atom.{Atom}
use planner.Info.{
  ProblemInfo, num_variables, get_type_objects, is_predicate, resolve_state_variable,
  is_predicative_variable,
}

-- A hash map into indexes; `insert` leaves the entry of a key that is there.
abbrev pub find_entry {ℓ} : {K : Type ℓ} → (K → K → Bool) → List (K × ℕ) → K → Option ℕ
find_entry same [] k = none
find_entry same ((l, i) ∷ m) k = if same l k then some i else find_entry same m k

abbrev pub insert_entry {ℓ} : {K : Type ℓ} → (K → K → Bool) → List (K × ℕ) → K → ℕ → List (K × ℕ)
insert_entry same [] k i = (k, i) ∷ []
insert_entry same ((l, j) ∷ m) k i =
    if same l k then (l, j) ∷ m else (l, j) ∷ insert_entry same m k i

pub record AtomIndex : Type 0 where
  pub indexes_negated_literals : Bool
  pub tuple_index : List (List ℤ)
  pub atom_index : List Atom
  pub symbol_index : List ℕ
  pub tuple_index_inv : List (List (List ℤ × ℕ))
  pub atom_index_inv : List (List (ℤ × ℕ))
  pub variable_to_atom_index : List (List ℕ)

-- A change of what `at(i)` refers to.
abbrev pub change_at {ℓ} : {A : Type ℓ} → List A → ℕ → (A → A) → Result (List A)
change_at xs i f = or_throw (get_elem? xs i) out_of_range >>= (λ x. ok (set xs i (f x)))

-- What `add` does to the tuples of a symbol: of a predicate, only those of the true atoms are entered.
abbrev pub add_tuple : Bool → ℕ → List ℤ → ℕ → Atom → AtomIndex → Result (List (List (List ℤ × ℕ)))
add_tuple predicate symbol tuple idx a x =
    if not predicate || eq_ℤ a.value (pos 1)
    then change_at x.tuple_index_inv symbol (λ m. insert_entry (list_eq eq_ℤ) m tuple idx)
    else ok x.tuple_index_inv

-- `add`, which asserts that `idx` is the size of the vectors
unfoldable pub add : ProblemInfo → ℕ → List ℤ → ℕ → Atom → AtomIndex → Result AtomIndex
add info symbol tuple idx a x = is_predicate info symbol >>= (λ predicate.
    add_tuple predicate symbol tuple idx a x >>= (λ tuples.
      change_at x.atom_index_inv a.variable (λ m. insert_entry eq_ℤ m a.value idx) >>= (λ atoms.
        change_at x.variable_to_atom_index a.variable (λ indexes. indexes ++ (idx ∷ []))
        >>= (λ variables. ok (record x {
          tuple_index = x.tuple_index ++ (tuple ∷ []);
          symbol_index = x.symbol_index ++ (symbol ∷ []);
          tuple_index_inv = tuples;
          atom_index = x.atom_index ++ (a ∷ []);
          atom_index_inv = atoms;
          variable_to_atom_index = variables;
        })))))

-- `compute_all_reachable_tuples`, whose loop goes over the variables from v on; n of them are left.
abbrev pub reachable_loop :
    ProblemInfo → ℕ → ℕ → List (List (List ℤ × ℤ)) → Result (List (List (List ℤ × ℤ)))
reachable_loop info zero v tuples = ok tuples
reachable_loop info (suc n) v tuples =
    or_throw (get_elem? info.variable_data v) out_of_range >>= (λ symbol_arguments.
      or_throw (get_elem? tuples symbol_arguments.0) out_of_range >>= (λ symbol_tuples.
        or_throw (get_elem? info.variable_types v) out_of_range >>= (λ type.
          get_type_objects info type >>= (λ objects. reachable_loop info n (suc v) (
            set tuples symbol_arguments.0
              (symbol_tuples ++ map (λ value. (symbol_arguments.1, value)) objects))))))

-- Each logical symbol has one entry in `function_data`.
unfoldable pub compute_all_reachable_tuples : ProblemInfo → Result (List (List (List ℤ × ℤ)))
compute_all_reachable_tuples info =
    reachable_loop info (num_variables info) 0 (replicate (length info.function_data) [])

-- One round of the inner loop of the constructor, with the next free index.
unfoldable pub index_tuple : ProblemInfo → ℕ → List ℤ → ℤ → ℕ × AtomIndex → Result (ℕ × AtomIndex)
unfolding add
index_tuple info symbol arguments value (idx, x) = is_predicate info symbol >>= (λ predicate.
    if x.indexes_negated_literals || not predicate || not (eq_ℤ value (pos 0))
    then (resolve_state_variable info symbol arguments >>= (λ v.
        add info symbol (if predicate then arguments else arguments ++ (value ∷ [])) idx
          (record { variable = v; value = value }) x
        >>= (λ x'. ok (suc idx, x'))))
    else ok (idx, x))

unfoldable pub index_tuples :
    ProblemInfo → ℕ → List (List ℤ × ℤ) → ℕ × AtomIndex → Result (ℕ × AtomIndex)
unfolding index_tuple
index_tuples info symbol [] r = ok r
index_tuples info symbol ((arguments, value) ∷ tuples) r =
    index_tuple info symbol arguments value r >>= (λ r'. index_tuples info symbol tuples r')

-- The outer loop, over the symbols from `symbol` on.
unfoldable pub index_symbols :
    ProblemInfo → ℕ → List (List (List ℤ × ℤ)) → ℕ × AtomIndex → Result (ℕ × AtomIndex)
unfolding index_tuples
index_symbols info symbol [] r = ok r
index_symbols info symbol (tuples ∷ tuples_by_symbol) r =
    index_tuples info symbol tuples r
    >>= (λ r'. index_symbols info (suc symbol) tuples_by_symbol r')

abbrev pub empty_index : ProblemInfo → Bool → AtomIndex
empty_index info index_negated_literals = record {
  indexes_negated_literals = index_negated_literals;
  tuple_index = [];
  atom_index = [];
  symbol_index = [];
  tuple_index_inv = replicate (length info.function_data) [];
  atom_index_inv = replicate (num_variables info) [];
  variable_to_atom_index = replicate (num_variables info) [];
}

-- The constructor
unfoldable pub create_atom_index : ProblemInfo → Bool → Result AtomIndex
unfolding compute_all_reachable_tuples index_symbols
create_atom_index info index_negated_literals =
    compute_all_reachable_tuples info >>= (λ tuples_by_symbol.
      index_symbols info 0 tuples_by_symbol (0, empty_index info index_negated_literals)
      >>= (λ r. ok r.1))

abbrev pub to_atom : AtomIndex → ℕ → Result Atom
to_atom x i = or_throw (get_elem? x.atom_index i) out_of_range

-- `to_index` of a variable and a value, in the maps by variable: that of the variable is read by `at`, and
-- that it has the value is asserted.
abbrev pub to_index : List (List (ℤ × ℕ)) → ℕ → ℤ → Result ℕ
to_index atom_index_inv v x =
    or_throw (get_elem? atom_index_inv v) out_of_range
    >>= (λ m. or_throw (find_entry eq_ℤ m x) undefined)

-- `to_index` of an atom
abbrev pub atom_to_index : AtomIndex → Atom → Result ℕ
atom_to_index x a = to_index x.atom_index_inv a.variable a.value

-- `to_index` of a tuple
abbrev pub tuple_to_index : AtomIndex → ℕ → List ℤ → Result ℕ
tuple_to_index x symbol tuple =
    or_throw (get_elem? x.tuple_index_inv symbol) out_of_range
    >>= (λ m. or_throw (find_entry (list_eq eq_ℤ) m tuple) undefined)

abbrev pub is_indexed : ProblemInfo → AtomIndex → ℕ → ℤ → Result Bool
is_indexed info x v value =
    is_predicative_variable info v
    >>= (λ predicative. ok (not predicative || x.indexes_negated_literals || eq_ℤ value (pos 1)))
