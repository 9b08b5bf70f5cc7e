-- ===== src/Tests/Products.antt =====
-- The theorems on the cartesian iterator (src/utils/cartesian_iterator.cxx) at concrete inputs.
use planner.Prelude.{
  ℕ, zero, suc, ◌≡◌, ◌<◌, ◌⊎◌, refl, true, false, List, [], ◌∷◌, arith, length, get_or,
}
use planner.Prelude.Int.{ℤ, pos}
use planner.CartesianIterator.{Iterator, start, next, advance_iterator}
use planner.CartesianIterator.Rank.{size, rank, IsAt, start_lem, next_lem}

-- {5,6} × {7}
abbrev domains : List (List ℤ)
domains = (pos 5 ∷ pos 6 ∷ []) ∷ (pos 7 ∷ []) ∷ []

abbrev first : Iterator
first = record { positions = 0 ∷ 0 ∷ []; element = pos 5 ∷ pos 7 ∷ []; ended = false }

starts_here : start domains ≡ first
unfolding start
starts_here = refl

inside_domains : (i : ℕ) → i < 2 → get_or first.positions i 0 < length (get_or domains i [])
inside_domains zero h = omega arith
inside_domains (suc zero) h = omega arith
inside_domains (suc (suc i)) h = absurd (omega arith)

current_values :
    (i : ℕ)
    → i < 2
    → get_or first.element i (pos 0)
      ≡ get_or (get_or domains i []) (get_or first.positions i 0) (pos 0)
current_values zero h = refl
current_values (suc zero) h = refl
current_values (suc (suc i)) h = absurd (omega arith)

first-IsAt : IsAt domains first
first-IsAt = record {
  size_positions = refl;
  size_element = refl;
  inside = inside_domains;
  current = current_values;
}

start_lem_example :
    (((start domains).ended ≡ false)
      × IsAt domains (start domains)
      × (rank (start domains).positions domains ≡ 0))
    ⊎ (((start domains).ended ≡ true) × (size domains ≡ 0))
start_lem_example = start_lem domains (omega arith)

next_lem_example :
    (((next domains first).ended ≡ false)
      × IsAt domains (next domains first)
      × (rank (next domains first).positions domains ≡ 1))
    ⊎ (((next domains first).ended ≡ true) × (1 ≡ size domains))
next_lem_example = next_lem domains first (omega arith) first-IsAt refl

-- The last position is carried into the first.
carries : (next domains first).element ≡ pos 6 ∷ pos 7 ∷ []
unfolding next advance_iterator
carries = refl
