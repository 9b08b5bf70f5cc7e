-- ===== src/AtomIndex/RoundTrip.antt =====
-- The index of src/utils/atom_index.cxx: from an atom to its number and back.
use planner.Prelude.{
  ℕ, suc, ◌≡◌, ap, inl, inr, Bool, not, ◌||◌, List, [], ◌∷◌, ◌++◌, get_elem?, if◌then◌else◌,
}
use mathlib.Core.Path.{subst}
use planner.Prelude.Int.{ℤ, pos, eq_ℤ}
use planner.Prelude.Outcome.{ok, out_of_range, or_throw, >>=-eq-ok, ok_injective}
use planner.Atom.{Atom}
use planner.Info.{ProblemInfo, is_predicate, resolve_state_variable}
use planner.AtomIndex.{
  AtomIndex, add, index_tuple, index_tuples, index_symbols, compute_all_reachable_tuples,
  empty_index, create_atom_index, to_atom, atom_to_index,
}
use planner.AtomIndex.Entries.{or_throw-ok, to_index-entry, entry-to_index, if-cases}
use planner.AtomIndex.Growth.{Indexed, start_empty, added, entry_of-atom, atom-entry_of}

-- The constructor only adds.
index_tuple-Indexed :
    (info : ProblemInfo) (negated : Bool) (symbol : ℕ) (arguments : List ℤ) (value : ℤ)
    (r : ℕ × AtomIndex) {r' : ℕ × AtomIndex}
    → Indexed info negated r
    → index_tuple info symbol arguments value r ≡ ok r'
    → Indexed info negated r'
unfolding index_tuple
index_tuple-Indexed info negated symbol arguments value (idx, x) indexed h =
    let (predicate, _, h1) = >>=-eq-ok (is_predicate info symbol) _ h in
    elim (if-cases (x.indexes_negated_literals || not predicate || not (eq_ℤ value (pos 0))) h1) [
      | inl taken ↦
          let (v, _, h2) = >>=-eq-ok (resolve_state_variable info symbol arguments) _ taken in
          let a : Atom = record { variable = v; value = value } in
          let tuple = if predicate then arguments else arguments ++ (value ∷ []) in
          let (x', e, h3) = >>=-eq-ok (add info symbol tuple idx a x) _ h2 in
          subst (Indexed info negated) (ok_injective h3) (added symbol tuple a indexed e)
      | inr skipped ↦ subst (Indexed info negated) (ok_injective skipped) indexed
    ]

index_tuples-Indexed :
    (info : ProblemInfo) (negated : Bool) (symbol : ℕ) (tuples : List (List ℤ × ℤ))
    (r : ℕ × AtomIndex) {r' : ℕ × AtomIndex}
    → Indexed info negated r
    → index_tuples info symbol tuples r ≡ ok r'
    → Indexed info negated r'
unfolding index_tuples
index_tuples-Indexed info negated symbol [] r indexed h =
    subst (Indexed info negated) (ok_injective h) indexed
index_tuples-Indexed info negated symbol ((arguments, value) ∷ tuples) r indexed h =
    let (r1, e, h1) = >>=-eq-ok (index_tuple info symbol arguments value r) _ h in
    index_tuples-Indexed info negated symbol tuples r1
      (index_tuple-Indexed info negated symbol arguments value r indexed e) h1

index_symbols-Indexed :
    (info : ProblemInfo) (negated : Bool) (symbol : ℕ) (tuples_by_symbol : List (List (List ℤ × ℤ)))
    (r : ℕ × AtomIndex) {r' : ℕ × AtomIndex}
    → Indexed info negated r
    → index_symbols info symbol tuples_by_symbol r ≡ ok r'
    → Indexed info negated r'
unfolding index_symbols
index_symbols-Indexed info negated symbol [] r indexed h =
    subst (Indexed info negated) (ok_injective h) indexed
index_symbols-Indexed info negated symbol (tuples ∷ tuples_by_symbol) r indexed h =
    let (r1, e, h1) = >>=-eq-ok (index_tuples info symbol tuples r) _ h in
    index_symbols-Indexed info negated (suc symbol) tuples_by_symbol r1
      (index_tuples-Indexed info negated symbol tuples r indexed e) h1

create_atom_index-Indexed :
    (info : ProblemInfo) (negated : Bool) (x : AtomIndex)
    → create_atom_index info negated ≡ ok x
    → (idx : ℕ) × Indexed info negated (idx, x)
unfolding create_atom_index
create_atom_index-Indexed info negated x h =
    let (tuples_by_symbol, _, h1) = >>=-eq-ok (compute_all_reachable_tuples info) _ h in
    let ((idx, y), e, h2) =
      >>=-eq-ok (index_symbols info 0 tuples_by_symbol (0, empty_index info negated)) _ h1 in
    let indexed : Indexed info negated (idx, y) =
      index_symbols-Indexed info negated 0 tuples_by_symbol (0, empty_index info negated)
        start_empty e in
    (idx, subst (λ z. Indexed info negated (idx, z)) (ok_injective h2) indexed)

-- In the index that the constructor returns, the number of every atom that stands at some number is found,
-- and the atom stands at the number that is found.
pub to_atom-atom_to_index :
    (info : ProblemInfo) (negated : Bool) (x : AtomIndex) (i : ℕ) (a : Atom)
    → create_atom_index info negated ≡ ok x
    → to_atom x i ≡ ok a
    → (j : ℕ) × (atom_to_index x a ≡ ok j) × (to_atom x j ≡ ok a)
to_atom-atom_to_index info negated x i a h k =
    let (idx, indexed) = create_atom_index-Indexed info negated x h in
    let (j, found) =
      atom-entry_of info negated (idx, x) i a indexed
        (or_throw-ok (get_elem? x.atom_index i) out_of_range k) in
    let back = entry_of-atom info negated (idx, x) a.variable a.value j indexed found in
    (
      j,
      entry-to_index x.atom_index_inv a.variable a.value j found,
      ap (λ o. or_throw o out_of_range) back,
    )

-- In the index that the constructor returns, if the number of an atom is found, the atom stands there.
pub atom_to_index-to_atom :
    (info : ProblemInfo) (negated : Bool) (x : AtomIndex) (a : Atom) (j : ℕ)
    → create_atom_index info negated ≡ ok x
    → atom_to_index x a ≡ ok j
    → to_atom x j ≡ ok a
atom_to_index-to_atom info negated x a j h k =
    let (idx, indexed) = create_atom_index-Indexed info negated x h in
    let found = to_index-entry x.atom_index_inv a.variable a.value j k in
    let back = entry_of-atom info negated (idx, x) a.variable a.value j indexed found in
    ap (λ o. or_throw o out_of_range) back
