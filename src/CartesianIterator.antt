-- ===== src/CartesianIterator.antt =====
-- src/utils/cartesian_iterator.hxx and cartesian_iterator.cxx: an iterator over a cartesian product.
pub mod Rank
use planner.Prelude.{
  ℕ, zero, suc, ◌+◌, ◌-◌, Bool, true, false, not, List, [], ◌∷◌, ◌==◌, length, get_or, set,
  if◌then◌else◌,
}
use planner.Prelude.Int.{ℤ, pos}

-- `_iterators` as positions in the domains, `_element` and `_ended`
pub record Iterator : Type 0 where
  pub positions : List ℕ
  pub element : List ℤ
  pub ended : Bool

-- The loop of the constructor: it stops at an empty domain.
abbrev pub start_loop : List (List ℤ) → Iterator
start_loop [] = record { positions = []; element = []; ended = false }
start_loop ([] ∷ values) = record { positions = []; element = []; ended = true }
start_loop ((x ∷ xs) ∷ values) =
    let rest = start_loop values in
    record { positions = 0 ∷ rest.positions; element = x ∷ rest.element; ended = rest.ended }

-- The constructor; an iterator over no domains has ended.
unfoldable pub start : List (List ℤ) → Iterator
start [] = record { positions = []; element = []; ended = true }
start (d ∷ values) = start_loop (d ∷ values)

module _ (values : List (List ℤ)) where
  -- `++_iterators[idx]` or its reset, and `updateElement`
  abbrev pub move_to : Iterator → ℕ → ℕ → Iterator
  move_to it i p = record it {
    positions = set it.positions i p;
    element = set it.element i (get_or (get_or values i []) p (pos 0));
  }

  -- `advanceIterator`
  unfoldable pub advance_iterator : ℕ → Iterator → Iterator
  advance_iterator zero it =
      let position = get_or it.positions 0 0 + 1 in
      if not (position == length (get_or values 0 []))
      then move_to it 0 position
      else record it { positions = set it.positions 0 position; ended = true }
  advance_iterator (suc i) it =
      let position = get_or it.positions (suc i) 0 + 1 in
      let carried = advance_iterator i (move_to it (suc i) 0) in
      if not (position == length (get_or values (suc i) []))
      then move_to it (suc i) position
      else carried

  -- `operator++`; an iterator without positions has ended.
  unfoldable pub next : Iterator → Iterator
  unfolding advance_iterator
  next it = advance_iterator (length it.positions - 1) it
