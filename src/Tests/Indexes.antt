-- ===== src/Tests/Indexes.antt =====
-- The theorems on the atom index (src/utils/atom_index.cxx) at a concrete input: without negated literals,
-- the switch has one atom and the counter three.
use planner.Prelude.{ltb→lt, ℕ, ◌≡◌, refl, false, [], ◌∷◌}
use planner.Prelude.Int.{pos}
use planner.Prelude.Outcome.{ok}
use planner.AtomIndex.{
  AtomIndex, create_atom_index, compute_all_reachable_tuples, index_symbols, index_tuples,
  index_tuple, add, to_atom, atom_to_index, tuple_to_index,
}
use planner.AtomIndex.RoundTrip.{to_atom-atom_to_index, atom_to_index-to_atom}
use planner.AtomIndex.Listing.{PossibleAtom}
use planner.AtomIndex.Complete.{create_atom_index_complete}
use planner.Tests.{info, atom}

abbrev index : AtomIndex
index = record {
  indexes_negated_literals = false;
  tuple_index = [] ∷ (pos 0 ∷ []) ∷ (pos 1 ∷ []) ∷ (pos 2 ∷ []) ∷ [];
  atom_index = atom 0 1 ∷ atom 1 0 ∷ atom 1 1 ∷ atom 1 2 ∷ [];
  symbol_index = 0 ∷ 1 ∷ 1 ∷ 1 ∷ [];
  tuple_index_inv =
      (([], 0) ∷ []) ∷ ((pos 0 ∷ [], 1) ∷ (pos 1 ∷ [], 2) ∷ (pos 2 ∷ [], 3) ∷ []) ∷ [];
  atom_index_inv = ((pos 1, 0) ∷ []) ∷ ((pos 0, 1) ∷ (pos 1, 2) ∷ (pos 2, 3) ∷ []) ∷ [];
  variable_to_atom_index = (0 ∷ []) ∷ (1 ∷ 2 ∷ 3 ∷ []) ∷ [];
}

index_created : create_atom_index info false ≡ ok index
unfolding create_atom_index compute_all_reachable_tuples index_symbols index_tuples index_tuple add
index_created = refl

to_atom-atom_to_index_example :
    (j : ℕ) × (atom_to_index index (atom 1 2) ≡ ok j) × (to_atom index j ≡ ok (atom 1 2))
to_atom-atom_to_index_example =
    to_atom-atom_to_index info false index 3 (atom 1 2) index_created refl

atom_to_index-to_atom_example : to_atom index 0 ≡ ok (atom 0 1)
atom_to_index-to_atom_example =
    atom_to_index-to_atom info false index (atom 0 1) 0 index_created refl

counter_possible : PossibleAtom info 1 [] (atom 1 0)
counter_possible = record {
  type = 1;
  objects = pos 0 ∷ pos 1 ∷ pos 2 ∷ [];
  position = 0;
  known = ltb→lt 1 2 refl;
  of_variable = refl;
  of_type = refl;
  of_objects = refl;
  of_value = refl;
}

create_atom_index_complete_example :
    (j : ℕ) × (atom_to_index index (atom 1 0) ≡ ok j) × (to_atom index j ≡ ok (atom 1 0))
create_atom_index_complete_example =
    create_atom_index_complete info false false 1 [] (atom 1 0) refl refl refl index
      counter_possible index_created

tuple_found : tuple_to_index index 1 (pos 1 ∷ []) ≡ ok 2
tuple_found = refl
