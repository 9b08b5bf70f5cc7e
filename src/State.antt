-- ===== src/State.antt =====
-- src/state.hxx and src/state.cxx: the values of all state variables, split into a vector
-- of Booleans and a vector of integers by an indexer. The proofs are in the modules below.
pub mod Index
pub mod Access
pub mod Updates
pub mod Equality
use planner.Prelude.{
  ℕ, ◌+◌, Bool, true, false, not, ◌&&◌, List, [], ◌∷◌, ◌==◌, length, get_or, set, replicate,
  bool_eq, list_eq, if◌then◌else◌,
}
use planner.Prelude.Int.{ℤ, pos, eq_ℤ}
use planner.Atom.{Atom}
use planner.Info.{ProblemInfo}

-- `StateAtomIndexer`: variable v is stored in position `i` of the Booleans if index[v] is (true, i),
-- and of the integers if it is (false, i).
pub record Indexer : Type 0 where
  pub index : List (Bool × ℕ)
  pub n_bool : ℕ
  pub n_int : ℕ

-- The loop of `StateAtomIndexer::create`, from the counters reached so far.
pub index_loop : List Bool → ℕ → ℕ → Indexer
index_loop [] n_bool n_int = record { index = []; n_bool = n_bool; n_int = n_int }
index_loop (predicative ∷ rest) n_bool n_int =
    let x =
      index_loop rest (if predicative then n_bool + 1 else n_bool)
        (if predicative then n_int else n_int + 1) in
    record x { index = (predicative, if predicative then n_bool else n_int) ∷ x.index }

unfoldable pub create_indexer : ProblemInfo → Indexer
unfolding index_loop
create_indexer info = index_loop info.predicative_variables 0 0

pub record State : Type 0 where
  pub indexer : Indexer
  pub bool_values : List Bool
  pub int_values : List ℤ
  pub hash : ℕ

-- The conversions between `bool` and `int` at the vector of Booleans.
abbrev pub of_bool : Bool → ℤ
of_bool b = if b then pos 1 else pos 0

abbrev pub to_bool : ℤ → Bool
to_bool x = not (eq_ℤ x (pos 0))

abbrev pub read : State → Bool × ℕ → ℤ
read s (true, i) = of_bool (get_or s.bool_values i false)
read s (false, i) = get_or s.int_values i (pos 0)

abbrev pub write : State → Bool × ℕ → ℤ → State
write s (true, i) x = record s { bool_values = set s.bool_values i (to_bool x) }
write s (false, i) x = record s { int_values = set s.int_values i x }

-- The entry of a variable in the index.
abbrev pub slot : State → ℕ → Bool × ℕ
slot s v = get_or s.indexer.index v (false, 0)

-- `StateAtomIndexer::get`, with its two shortcuts. The source asserts `variable < n_vars`.
unfoldable pub get_value : State → ℕ → ℤ
get_value s v =
    let n_vars = length s.indexer.index in
    if n_vars == s.indexer.n_bool
    then read s (true, v)
    else if n_vars == s.indexer.n_int
    then read s (false, v)
    else read s (slot s v)

-- `StateAtomIndexer::set`
unfoldable pub set_value : State → ℕ → ℤ → State
set_value s v x =
    let n_vars = length s.indexer.index in
    if n_vars == s.indexer.n_bool
    then write s (true, v) x
    else if n_vars == s.indexer.n_int
    then write s (false, v) x
    else write s (slot s v) x

-- `State::contains`
unfoldable pub contains : State → Atom → Bool
unfolding get_value
contains s a = eq_ℤ (get_value s a.variable) a.value

-- The loop of the constructor and of `accumulate`.
unfoldable pub set_all : State → List Atom → State
unfolding set_value
set_all s [] = s
set_all s (a ∷ atoms) = set_all (set_value s a.variable a.value) atoms

abbrev pub num_atoms : State → ℕ
num_atoms s = length s.bool_values + length s.int_values

-- `operator==`: the hashes first, then the values
abbrev pub eq : State → State → Bool
eq s t =
    s.hash == t.hash
    && list_eq bool_eq s.bool_values t.bool_values
    && list_eq eq_ℤ s.int_values t.int_values

-- The hash is computed by the standard library and boost: `hash_of` is any function of the values.
module _ (hash_of : List Bool → List ℤ → ℕ) where
  -- `updateHash`
  abbrev pub update_hash : State → State
  update_hash s = record s { hash = hash_of s.bool_values s.int_values }

  -- `State::State(index, atoms)`: what the atoms do not mention is 0, that is, false
  unfoldable pub create : Indexer → List Atom → State
  unfolding set_all
  create x atoms = update_hash (
      set_all
        (record {
          indexer = x;
          bool_values = replicate x.n_bool false;
          int_values = replicate x.n_int (pos 0);
          hash = 0;
        })
        atoms)

  -- `State::accumulate`
  unfoldable pub accumulate : State → List Atom → State
  unfolding set_all
  accumulate s atoms = update_hash (set_all s atoms)

  -- `State::State(state, atoms)`: a copy, then `accumulate`
  unfoldable pub derive : State → List Atom → State
  unfolding accumulate
  derive s atoms = accumulate s atoms
