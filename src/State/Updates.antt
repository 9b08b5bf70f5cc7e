-- ===== src/State/Updates.antt =====
-- src/state.cxx: what a changeset does to a state.
use planner.Prelude.{
  ℕ, ◌<◌, ◌≡◌, refl, ap, ◌∙◌, Bool, true, false, Option, none, some, List, [], ◌∷◌, arith, ◌==◌,
  length, get_or, replicate, if◌then◌else◌, length-replicate, get_or-replicate, All,
}
use planner.Prelude.Int.{ℤ, pos}
use planner.Atom.{Atom}
use planner.State.{
  Indexer, State, of_bool, read, slot, get_value, set_value, set_all, update_hash, create,
  accumulate,
}
use planner.State.Index.{IsIndexer}
use planner.State.Access.{IsValid, stored, set_value-IsValid, get_value-set_value}

-- The value that the last atom on a variable gives it, if any does.
abbrev pub last_value : ℕ → List Atom → Option ℤ
last_value v [] = none
last_value v (a ∷ atoms) = elim (last_value v atoms) [
  | some x ↦ some x
  | none ↦ if a.variable == v then some a.value else none
]

-- Every atom is on a variable of the problem.
abbrev pub InRange : List Bool → List Atom → Type 0
InRange flags atoms = All (λ (a : Atom). a.variable < length flags) atoms

abbrev pub overwritten : Bool → ℤ → Option ℤ → ℤ
overwritten flag old none = old
overwritten flag old (some x) = stored flag x

module _ (flags : List Bool) where
  pub set_all-IsValid :
      (s : State) (atoms : List Atom)
      → IsValid flags s
      → InRange flags atoms
      → IsValid flags (set_all s atoms)
  unfolding set_all
  set_all-IsValid s [] h r = h
  set_all-IsValid s (a ∷ atoms) h r =
      set_all-IsValid (set_value s a.variable a.value) atoms
        (set_value-IsValid flags s h a.variable a.value r.0) r.1

  pub get_value-set_all :
      (s : State) (atoms : List Atom) (v : ℕ)
      → IsValid flags s
      → InRange flags atoms
      → v < length flags
      → get_value (set_all s atoms) v
        ≡ overwritten (get_or flags v false) (get_value s v) (last_value v atoms)
  unfolding set_all
  get_value-set_all s [] v h r k = refl
  get_value-set_all s (a ∷ atoms) v h r k = ground (
    arith,
    get_value-set_all (set_value s a.variable a.value) atoms v
        (set_value-IsValid flags s h a.variable a.value r.0) r.1 k,
    get_value-set_value flags s h a.variable v a.value r.0 k,
  )

read-update_hash :
    (f : List Bool → List ℤ → ℕ) (s : State) (e : Bool × ℕ) → read (update_hash f s) e ≡ read s e
read-update_hash f s (true, i) = refl
read-update_hash f s (false, i) = refl

pub get_value-update_hash :
    (f : List Bool → List ℤ → ℕ) (s : State) (v : ℕ) → get_value (update_hash f s) v ≡ get_value s v
unfolding get_value
get_value-update_hash f s v = ground (arith, read-update_hash f s (slot s v))

pub update_hash-IsValid :
    (flags : List Bool) (f : List Bool → List ℤ → ℕ) (s : State)
    → IsValid flags s
    → IsValid flags (update_hash f s)
update_hash-IsValid flags f s h = record {
  indexed = h.indexed;
  bool_size = h.bool_size;
  int_size = h.int_size;
}

-- A state whose hash is that of its values.
abbrev pub IsHashed : (List Bool → List ℤ → ℕ) → State → Type 0
IsHashed f s = s.hash ≡ f s.bool_values s.int_values

module _ (flags : List Bool) (f : List Bool → List ℤ → ℕ) where
  -- Applying a changeset of atoms on known variables to a valid state gives a valid state with an
  -- up-to-date hash, in which a variable has the value of the last atom on it in the changeset (its
  -- truth value, if the variable is predicative), and its old value if no atom is on it.
  pub accumulate_lem :
      (s : State) (atoms : List Atom) (v : ℕ)
      → IsValid flags s
      → InRange flags atoms
      → v < length flags
      → IsValid flags (accumulate f s atoms)
        × IsHashed f (accumulate f s atoms)
        × (get_value (accumulate f s atoms) v
            ≡ overwritten (get_or flags v false) (get_value s v) (last_value v atoms))
  unfolding accumulate
  accumulate_lem s atoms v h r k = (
    update_hash-IsValid flags f (set_all s atoms) (set_all-IsValid flags s atoms h r),
    refl,
    get_value-update_hash f (set_all s atoms) v ∙ get_value-set_all flags s atoms v h r k,
  )

  blank-IsValid :
      (x : Indexer)
      → IsIndexer flags x
      → IsValid flags (record {
        indexer = x;
        bool_values = replicate x.n_bool false;
        int_values = replicate x.n_int (pos 0);
        hash = 0;
      })
  blank-IsValid x h = record {
    indexed = h;
    bool_size = length-replicate x.n_bool false;
    int_size = length-replicate x.n_int (pos 0);
  }

  get_value-blank :
      (x : Indexer) (v : ℕ)
      → get_value
          (record {
            indexer = x;
            bool_values = replicate x.n_bool false;
            int_values = replicate x.n_int (pos 0);
            hash = 0;
          })
          v
        ≡ pos 0
  unfolding get_value
  get_value-blank x v =
      let (a, b, c) = blank_reads (get_or x.index v (false, 0)) in ground (arith, a, b, c)
    where
      blank_reads :
          (e : Bool × ℕ)
          → (read
                (record {
                  indexer = x;
                  bool_values = replicate x.n_bool false;
                  int_values = replicate x.n_int (pos 0);
                  hash = 0;
                })
                e
              ≡ pos 0)
            × (of_bool (get_or (replicate x.n_bool false) v false) ≡ pos 0)
            × (get_or (replicate x.n_int (pos 0)) v (pos 0) ≡ pos 0)
      blank_reads (true, i) = (
        ap of_bool (get_or-replicate x.n_bool i false),
        ap of_bool (get_or-replicate x.n_bool v false),
        get_or-replicate x.n_int v (pos 0),
      )
      blank_reads (false, i) = (
        get_or-replicate x.n_int i (pos 0),
        ap of_bool (get_or-replicate x.n_bool v false),
        get_or-replicate x.n_int v (pos 0),
      )

  -- A state created from atoms on known variables is valid, and a variable has the value of the last
  -- atom on it, or 0 if the atoms do not mention it.
  pub create_lem :
      (x : Indexer) (atoms : List Atom) (v : ℕ)
      → IsIndexer flags x
      → InRange flags atoms
      → v < length flags
      → IsValid flags (create f x atoms)
        × IsHashed f (create f x atoms)
        × (get_value (create f x atoms) v
            ≡ overwritten (get_or flags v false) (pos 0) (last_value v atoms))
  unfolding create
  create_lem x atoms v h r k = (
    update_hash-IsValid flags f _ (set_all-IsValid flags _ atoms (blank-IsValid x h) r),
    refl,
    get_value-update_hash f _ v
        ∙ get_value-set_all flags _ atoms v (blank-IsValid x h) r k
        ∙ ap (λ (o : ℤ). overwritten (get_or flags v false) o (last_value v atoms))
            (get_value-blank x v),
  )
