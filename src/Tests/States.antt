-- ===== src/Tests/States.antt =====
-- The theorems on atoms and states (src/atom.hxx, src/state.cxx) at concrete inputs.
use planner.Prelude.{
  ℕ, zero, suc, ◌+◌, ◌≡◌, refl, Bool, true, false, not, ◌&&◌, ◌||◌, List, [], ◌∷◌, arith, length,
  get_or, if◌then◌else◌, ◌<◌,
}
use planner.Prelude.Int.{pos}
use planner.Atom
use planner.State.{State, create, create_indexer, accumulate, get_value, set_value, read, slot, eq}
use planner.State.Index.{create_indexer-IsIndexer, create_indexer_lem}
use planner.State.Access.{IsValid, get_value-read, get_value-set_value}
use planner.State.Updates.{IsHashed, accumulate_lem, create_lem}
use planner.State.Equality.{eq-same_value, same_values-eq}
use planner.Tests.{info, atom, hash}

abbrev flags : List Bool
flags = true ∷ false ∷ []

abbrev initial : State
initial = create hash (create_indexer info) (atom 0 0 ∷ atom 1 1 ∷ [])

abbrev later : State
later = accumulate hash initial (atom 1 2 ∷ atom 0 1 ∷ [])

initial-IsValid : IsValid flags initial
initial-IsValid =
    (create_lem flags hash (create_indexer info) (atom 0 0 ∷ atom 1 1 ∷ []) 0
      (create_indexer-IsIndexer info) (omega arith, (omega arith, tt)) (omega arith)).0

lt_strict_total_example :
    ((if Atom.eq (atom 1 5) (atom 1 7) then 1 else 0)
        + (if Atom.lt (atom 1 5) (atom 1 7) then 1 else 0)
        + (if Atom.gt (atom 1 5) (atom 1 7) then 1 else 0)
      ≡ 1)
    × ((Atom.lt (atom 1 5) (atom 1 7)
          && Atom.lt (atom 1 7) (atom 2 0)
          && not (Atom.lt (atom 1 5) (atom 2 0)))
        ≡ false)
    × (Atom.le (atom 1 5) (atom 1 7)
        ≡ (Atom.lt (atom 1 5) (atom 1 7) || Atom.eq (atom 1 5) (atom 1 7)))
lt_strict_total_example = Atom.lt_strict_total (atom 1 5) (atom 1 7) (atom 2 0)

create_indexer_lem_example :
    (get_or (create_indexer info).index 1 (false, 0) ≡ (false, 0))
    × ((create_indexer info).n_bool ≡ 1)
    × ((create_indexer info).n_int ≡ 1)
create_indexer_lem_example = create_indexer_lem info 1 (omega arith)

get_value-read_example : get_value initial 1 ≡ read initial (slot initial 1)
get_value-read_example = get_value-read flags initial initial-IsValid 1 (omega arith)

get_value-set_value_example : get_value (set_value initial 1 (pos 2)) 1 ≡ pos 2
get_value-set_value_example =
    get_value-set_value flags initial initial-IsValid 1 1 (pos 2) (omega arith) (omega arith)

accumulate_lem_example : IsValid flags later × IsHashed hash later × (get_value later 1 ≡ pos 2)
accumulate_lem_example =
    accumulate_lem flags hash initial (atom 1 2 ∷ atom 0 1 ∷ []) 1 initial-IsValid
      (omega arith, (omega arith, tt)) (omega arith)

create_lem_example : IsValid flags initial × IsHashed hash initial × (get_value initial 1 ≡ pos 1)
create_lem_example =
    create_lem flags hash (create_indexer info) (atom 0 0 ∷ atom 1 1 ∷ []) 1
      (create_indexer-IsIndexer info) (omega arith, (omega arith, tt)) (omega arith)

-- The same values, written in another order.
abbrev reordered : State
reordered = create hash (create_indexer info) (atom 1 1 ∷ atom 0 0 ∷ [])

reordered-IsValid : IsValid flags reordered
reordered-IsValid =
    (create_lem flags hash (create_indexer info) (atom 1 1 ∷ atom 0 0 ∷ []) 0
      (create_indexer-IsIndexer info) (omega arith, (omega arith, tt)) (omega arith)).0

initial-eq-reordered : eq initial reordered ≡ true
unfolding create create_indexer
initial-eq-reordered = refl

initial-IsHashed : IsHashed hash initial
initial-IsHashed =
    let (_, h, _) =
      create_lem flags hash (create_indexer info) (atom 0 0 ∷ atom 1 1 ∷ []) 0
        (create_indexer-IsIndexer info) (omega arith, (omega arith, tt)) (omega arith) in
    h

reordered-IsHashed : IsHashed hash reordered
reordered-IsHashed =
    let (_, h, _) =
      create_lem flags hash (create_indexer info) (atom 1 1 ∷ atom 0 0 ∷ []) 0
        (create_indexer-IsIndexer info) (omega arith, (omega arith, tt)) (omega arith) in
    h

eq-same_value_example : get_value initial 1 ≡ get_value reordered 1
eq-same_value_example =
    eq-same_value flags initial reordered initial-IsValid reordered-IsValid 1 (omega arith)
      initial-eq-reordered

same_values : (v : ℕ) → v < length flags → get_value initial v ≡ get_value reordered v
unfolding create create_indexer get_value
same_values zero h = refl
same_values (suc zero) h = refl
same_values (suc (suc v)) h = absurd (omega arith)

same_values-eq_example : eq initial reordered ≡ true
same_values-eq_example =
    same_values-eq flags initial reordered initial-IsValid reordered-IsValid hash initial-IsHashed
      reordered-IsHashed same_values
