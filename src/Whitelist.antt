-- ===== src/Whitelist.antt =====
-- src/applicability/action_managers.cxx: the whitelist of `SmartActionManager`, which intersects, over
-- the atoms of a state, the sets of actions that are potentially applicable when the atom holds.
pub mod Intersection
pub mod Candidates
use planner.Prelude.{
  ℕ, zero, suc, Option, none, some, get_elem?, ◌+◌, Bool, true, false, not, ◌&&◌, ◌||◌, List, [],
  ◌∷◌, ltb, ◌==◌, length, get_or, map, if◌then◌else◌,
}
use planner.Prelude.Int.{ℤ, eq_ℤ}
use planner.Prelude.Outcome.{Result, ok, undefined, out_of_range, or_throw, ◌>>=◌}
use planner.State.{State, get_value, num_atoms}
use planner.AtomIndex.{to_index}

-- `std::set_intersection` of two sorted ranges of action indexes
unfoldable pub intersect_from : ℕ → List ℕ → List ℕ → List ℕ
intersect_from zero xs ys = []
intersect_from (suc fuel) [] ys = []
intersect_from (suc fuel) (x ∷ xs) [] = []
intersect_from (suc fuel) (x ∷ xs) (y ∷ ys) =
    let drop_left = intersect_from fuel xs (y ∷ ys) in
    let drop_right = intersect_from fuel (x ∷ xs) ys in
    let keep = intersect_from fuel xs ys in
    if ltb x y then drop_left else if ltb y x then drop_right else x ∷ keep

unfoldable pub set_intersection : List ℕ → List ℕ → List ℕ
unfolding intersect_from
set_intersection xs ys = intersect_from (length xs + length ys) xs ys

-- `Utils::empty_intersection` (src/utils/utils.hxx)
unfoldable pub empty_from : ℕ → List ℕ → List ℕ → Bool
empty_from zero xs ys = true
empty_from (suc fuel) [] ys = true
empty_from (suc fuel) (x ∷ xs) [] = true
empty_from (suc fuel) (x ∷ xs) (y ∷ ys) =
    let drop_left = empty_from fuel xs (y ∷ ys) in
    let drop_right = empty_from fuel (x ∷ xs) ys in
    if ltb x y then drop_left else if not (ltb y x) then false else drop_right

unfoldable pub empty_intersection : List ℕ → List ℕ → Bool
unfolding empty_from
empty_intersection xs ys = empty_from (length xs + length ys) xs ys

-- What the first loop of `compute_whitelist` finds: the variable whose atom has the smallest set, from
-- variable i on. `candidates` are the sets of the atoms of the state, one for each variable.
unfoldable pub smallest_loop : List (List ℕ) → ℕ → ℕ → ℕ → ℕ
smallest_loop [] i best min_size = best
smallest_loop (c ∷ cs) i best min_size =
    if ltb (length c) min_size
    then smallest_loop cs (i + 1) i (length c)
    else smallest_loop cs (i + 1) best min_size

-- The second loop: the sets that hold all actions, and the one that it starts from, are left out.
unfoldable pub intersect_loop : ℕ → ℕ → List (List ℕ) → ℕ → List ℕ → List ℕ
unfolding set_intersection
intersect_loop total best [] i result = result
intersect_loop total best (c ∷ cs) i result =
    if not (i == best) && not (length c == total)
    then intersect_loop total best cs (i + 1) (set_intersection result c)
    else intersect_loop total best cs (i + 1) result

-- The intersection of the sets of the atoms of a state; `total` is `_total_applicable_actions` and
-- 2 ^ 32 - 1 is the largest `unsigned`.
unfoldable pub intersect_candidates : ℕ → List (List ℕ) → List ℕ
unfolding smallest_loop intersect_loop
intersect_candidates total candidates =
    let best = smallest_loop candidates 0 0 4294967295 in
    let result = get_or candidates best [] in
    if length candidates == 1 then result else intersect_loop total best candidates 0 result

-- `_app_index`, and the maps of the atom index by variable
module _ (atom_index_inv : List (List (ℤ × ℕ))) (app_index : List (List ℕ)) where
  -- The sets of the atoms of a state, which the first loop reads, from variable i on.
  unfoldable pub candidates_loop : State → ℕ → ℕ → Result (List (List ℕ))
  candidates_loop s zero i = ok []
  candidates_loop s (suc n) i = do
    tuple ← to_index atom_index_inv i (get_value s i)
    candidates ← or_throw (get_elem? app_index tuple) undefined
    rest ← candidates_loop s n (i + 1)
    ok (candidates ∷ rest)

  -- `SmartActionManager::compute_whitelist`
  unfoldable pub compute_whitelist : ℕ → State → Result (List ℕ)
  unfolding candidates_loop intersect_candidates
  compute_whitelist total s = do
    candidates ← candidates_loop s (num_atoms s) 0
    ok (intersect_candidates total candidates)
