-- ===== src/AtomIndex/Complete.antt =====
-- The constructor of src/utils/atom_index.cxx leaves no atom out.
use planner.Prelude.{
  ℕ, zero, suc, ◌+◌, ◌≡◌, refl, sym, ◌∙◌, ap, inl, inr, Bool, true, not, ◌||◌, List, [], ◌∷◌, ◌++◌,
  some, arith, length, get_elem?, replicate, if◌then◌else◌,
}
use mathlib.Core.Path.{subst}
use planner.Prelude.Int.{ℤ, pos, eq_ℤ}
use planner.Prelude.Outcome.{ok, out_of_range, or_throw, ◌>>=◌, >>=-eq-ok, ok_injective}
use planner.Atom.{Atom}
use planner.Info.{ProblemInfo, num_variables, is_predicate, resolve_state_variable}
use planner.AtomIndex.{
  AtomIndex, add, compute_all_reachable_tuples, index_tuple, index_tuples, index_symbols,
  empty_index, create_atom_index, to_atom, atom_to_index,
}
use planner.AtomIndex.Entries.{Enters, add-Enters, get_elem?-append, get_elem?-last, if-cases}
use planner.AtomIndex.RoundTrip.{to_atom-atom_to_index}
use planner.AtomIndex.Listing.{Listed, PossibleAtom, reachable_loop-Listed}

-- Atoms keep their numbers when more are added.
pub record Extends (x x' : AtomIndex) : Type 0 where
  pub flag : x'.indexes_negated_literals ≡ x.indexes_negated_literals
  pub kept :
      (i : ℕ) (a : Atom) → get_elem? x.atom_index i ≡ some a → get_elem? x'.atom_index i ≡ some a

Extends-self : (x : AtomIndex) → Extends x x
Extends-self x = record { flag = refl; kept = λ i a h. h }

Extends-trans : (x y z : AtomIndex) → Extends x y → Extends y z → Extends x z
Extends-trans x y z e f = record {
  flag = f.flag ∙ e.flag;
  kept = λ i a h. f.kept i a (e.kept i a h);
}

Enters-Extends : (idx : ℕ) (a : Atom) (x x' : AtomIndex) → Enters idx a x x' → Extends x x'
Enters-Extends idx a x x' enters = record {
  flag = enters.flag;
  kept = λ i b h. rw enters.atoms (get_elem?-append x.atom_index (a ∷ []) i h);
}

index_tuple-Extends :
    (info : ProblemInfo) (symbol : ℕ) (arguments : List ℤ) (value : ℤ) (r : ℕ × AtomIndex)
    {r' : ℕ × AtomIndex}
    → index_tuple info symbol arguments value r ≡ ok r'
    → Extends r.1 r'.1
unfolding index_tuple
index_tuple-Extends info symbol arguments value (idx, x) h =
    let (predicate, _, h1) = >>=-eq-ok (is_predicate info symbol) _ h in
    elim (if-cases (x.indexes_negated_literals || not predicate || not (eq_ℤ value (pos 0))) h1) [
      | inl taken ↦
          let (v, _, h2) = >>=-eq-ok (resolve_state_variable info symbol arguments) _ taken in
          let a : Atom = record { variable = v; value = value } in
          let tuple = if predicate then arguments else arguments ++ (value ∷ []) in
          let (x', e, h3) = >>=-eq-ok (add info symbol tuple idx a x) _ h2 in
          subst (λ r. Extends x r.1) (ok_injective h3)
            (Enters-Extends idx a x x' (add-Enters info symbol tuple idx a x e))
      | inr skipped ↦ subst (λ r. Extends x r.1) (ok_injective skipped) (Extends-self x)
    ]

index_tuples-Extends :
    (info : ProblemInfo) (symbol : ℕ) (tuples : List (List ℤ × ℤ)) (r : ℕ × AtomIndex)
    {r' : ℕ × AtomIndex}
    → index_tuples info symbol tuples r ≡ ok r'
    → Extends r.1 r'.1
unfolding index_tuples
index_tuples-Extends info symbol [] r h =
    subst (λ q. Extends r.1 q.1) (ok_injective h) (Extends-self r.1)
index_tuples-Extends info symbol ((arguments, value) ∷ tuples) r {r'} h =
    let (r1, e, h1) = >>=-eq-ok (index_tuple info symbol arguments value r) _ h in
    Extends-trans r.1 r1.1 r'.1 (index_tuple-Extends info symbol arguments value r e)
      (index_tuples-Extends info symbol tuples r1 h1)

index_symbols-Extends :
    (info : ProblemInfo) (symbol : ℕ) (tuples_by_symbol : List (List (List ℤ × ℤ)))
    (r : ℕ × AtomIndex) {r' : ℕ × AtomIndex}
    → index_symbols info symbol tuples_by_symbol r ≡ ok r'
    → Extends r.1 r'.1
unfolding index_symbols
index_symbols-Extends info symbol [] r h =
    subst (λ q. Extends r.1 q.1) (ok_injective h) (Extends-self r.1)
index_symbols-Extends info symbol (tuples ∷ tuples_by_symbol) r {r'} h =
    let (r1, e, h1) = >>=-eq-ok (index_tuples info symbol tuples r) _ h in
    Extends-trans r.1 r1.1 r'.1 (index_tuples-Extends info symbol tuples r e)
      (index_symbols-Extends info (suc symbol) tuples_by_symbol r1 h1)

-- An atom stands at some number.
abbrev pub Entered : AtomIndex → Atom → Type 0
Entered x a = (i : ℕ) × (get_elem? x.atom_index i ≡ some a)

Entered-Extends : (x x' : AtomIndex) (a : Atom) → Extends x x' → Entered x a → Entered x' a
Entered-Extends x x' a extends (i, h) = (i, extends.kept i a h)

module _ (info : ProblemInfo) (negated predicate : Bool) (symbol : ℕ) (arguments : List ℤ)
    (a : Atom) (of_symbol : is_predicate info symbol ≡ ok predicate)
    (of_arguments : resolve_state_variable info symbol arguments ≡ ok a.variable)
    (indexed : (negated || not predicate || not (eq_ℤ a.value (pos 0))) ≡ true) where
  index_tuple-Entered :
      (r : ℕ × AtomIndex) {r' : ℕ × AtomIndex}
      → r.1.indexes_negated_literals ≡ negated
      → index_tuple info symbol arguments a.value r ≡ ok r'
      → Entered r'.1 a
  unfolding index_tuple
  index_tuple-Entered (idx, x) {r'} flag h =
      let tuple = if predicate then arguments else arguments ++ (a.value ∷ []) in
      let goes_on : index_tuple info symbol arguments a.value (idx, x)
          ≡ (add info symbol tuple idx a x >>= (λ x'. ok (suc idx, x'))) =
        rw (of_symbol, flag, indexed, of_arguments) refl in
      let (x', e, h1) = >>=-eq-ok (add info symbol tuple idx a x) _ (sym goes_on ∙ h) in
      let enters : Enters idx a x x' = add-Enters info symbol tuple idx a x e in
      let entered : Entered x' a =
        (length x.atom_index, rw enters.atoms (get_elem?-last x.atom_index a)) in
      subst (λ r. Entered r.1 a) (ok_injective h1) entered

  index_tuples-Entered :
      (tuples : List (List ℤ × ℤ)) (k : ℕ) (r : ℕ × AtomIndex) {r' : ℕ × AtomIndex}
      → r.1.indexes_negated_literals ≡ negated
      → get_elem? tuples k ≡ some (arguments, a.value)
      → index_tuples info symbol tuples r ≡ ok r'
      → Entered r'.1 a
  unfolding index_tuples
  index_tuples-Entered [] k r flag at h = absurd cc
  index_tuples-Entered ((args, value) ∷ tuples) zero r {r'} flag at h =
      let (r1, e, h1) = >>=-eq-ok (index_tuple info symbol args value r) _ h in
      let same_arguments : args ≡ arguments = cc in
      let same_value : value ≡ a.value = cc in
      let e' : index_tuple info symbol arguments a.value r ≡ ok r1 =
        rw (← same_arguments, ← same_value) e in
      Entered-Extends r1.1 r'.1 a (index_tuples-Extends info symbol tuples r1 h1)
        (index_tuple-Entered r flag e')
  index_tuples-Entered ((args, value) ∷ tuples) (suc k) r flag at h =
      let (r1, e, h1) = >>=-eq-ok (index_tuple info symbol args value r) _ h in
      index_tuples-Entered tuples k r1
        ((index_tuple-Extends info symbol args value r e).flag ∙ flag) at h1

  index_symbols-Entered :
      (tuples_by_symbol : List (List (List ℤ × ℤ))) (first m : ℕ) (r : ℕ × AtomIndex)
      {r' : ℕ × AtomIndex}
      → first + m ≡ symbol
      → r.1.indexes_negated_literals ≡ negated
      → Listed tuples_by_symbol m (arguments, a.value)
      → index_symbols info first tuples_by_symbol r ≡ ok r'
      → Entered r'.1 a
  unfolding index_symbols
  index_symbols-Entered [] first m r at flag (k, l) h = absurd cc
  index_symbols-Entered (tuples ∷ tuples_by_symbol) first zero r {r'} at flag (k, l) h =
      let (r1, e, h1) = >>=-eq-ok (index_tuples info first tuples r) _ h in
      let same : first ≡ symbol = omega (arith, at) in
      let e' : index_tuples info symbol tuples r ≡ ok r1 = rw (← same) e in
      Entered-Extends r1.1 r'.1 a (index_symbols-Extends info (suc first) tuples_by_symbol r1 h1)
        (index_tuples-Entered tuples k r flag l e')
  index_symbols-Entered (tuples ∷ tuples_by_symbol) first (suc m) r at flag (k, l) h =
      let (r1, e, h1) = >>=-eq-ok (index_tuples info first tuples r) _ h in
      index_symbols-Entered tuples_by_symbol (suc first) m r1 (omega (arith, at))
        ((index_tuples-Extends info first tuples r e).flag ∙ flag) (k, l) h1

  -- In the index that the constructor returns, every atom on a known variable with a value of its type is
  -- found, and stands at its number, unless negated literals are left out and the value is 0 for a
  -- variable whose symbol is a predicate; the symbol and the arguments of the variable must lead back to it.
  pub create_atom_index_complete :
      (x : AtomIndex)
      → PossibleAtom info symbol arguments a
      → create_atom_index info negated ≡ ok x
      → (j : ℕ) × (atom_to_index x a ≡ ok j) × (to_atom x j ≡ ok a)
  unfolding create_atom_index compute_all_reachable_tuples
  create_atom_index_complete x possible h =
      let (tuples_by_symbol, listing, h1) = >>=-eq-ok (compute_all_reachable_tuples info) _ h in
      let (r, e, h2) =
        >>=-eq-ok (index_symbols info 0 tuples_by_symbol (0, empty_index info negated)) _ h1 in
      let listed =
        reachable_loop-Listed info symbol arguments a (num_variables info) 0
          (replicate (length info.function_data) []) possible (omega arith)
          (omega (arith, possible.known)) listing in
      let (i, found) =
        index_symbols-Entered tuples_by_symbol 0 symbol (0, empty_index info negated) (omega arith)
          refl listed e in
      let same : r.1 ≡ x = ok_injective h2 in
      let there : get_elem? x.atom_index i ≡ some a =
        subst (λ y. get_elem? y.atom_index i ≡ some a) same found in
      to_atom-atom_to_index info negated x i a h (ap (λ o. or_throw o out_of_range) there)
