-- ===== src/Applicability/Iteration.antt =====
-- src/applicability/action_managers.hxx: iterating over the actions applicable in a state.
use planner.Prelude.{
  ==_iff, ℕ, zero, suc, ◌+◌, ◌-◌, ◌≤◌, ◌<◌, ◌≡◌, refl, ap, Bool, true, false, some, List, [], ◌∷◌,
  arith, length, get_elem?, if◌then◌else◌, inl, inr, Bool-cases, ◌==◌,
}
use planner.Prelude.Outcome.{Result, ok, undefined, or_throw, ◌>>=◌, Result-cases}

-- The manager's answer for the action with a given index, and its whitelist.
module _ (guaranteed : Bool) (applicable : ℕ → Result Bool) (whitelist : List ℕ) where
  -- The loop of `GroundApplicableSet::Iterator::advance`, for as many rounds as actions are left.
  unfoldable pub advance_loop : ℕ → ℕ → Result ℕ
  advance_loop zero index = ok index
  advance_loop (suc rounds) index = do
    action ← or_throw (get_elem? whitelist index) undefined
    holds ← applicable action
    if holds then ok index else advance_loop rounds (index + 1)

  -- `advance`
  unfoldable pub advance : ℕ → Result ℕ
  unfolding advance_loop
  advance index = if guaranteed then ok index else advance_loop (length whitelist - index) index

  -- `for (action : set)`: from `begin()`, whose constructor advances, until `end()`, with `++` in
  -- between, which advances again. The end iterator stands at the end of the whitelist.
  unfoldable pub iterate : ℕ → ℕ → Result (List ℕ)
  unfolding advance
  iterate zero index = ok []
  iterate (suc fuel) index = do
    index' ← advance index
    if index' == length whitelist then ok [] else (do
      action ← or_throw (get_elem? whitelist index') undefined
      rest ← iterate fuel (index' + 1)
      ok (action ∷ rest))

  unfoldable pub applicable_set : Result (List ℕ)
  unfolding iterate
  applicable_set = iterate (length whitelist + 1) 0

-- The actions of a list for which a test, which may throw, answers true; it stops at an exception.
abbrev pub filter_result : (ℕ → Result Bool) → List ℕ → Result (List ℕ)
filter_result test [] = ok []
filter_result test (x ∷ xs) = do
  holds ← test x
  if holds then (do rest ← filter_result test xs; ok (x ∷ rest)) else filter_result test xs

-- The elements from a position on.
abbrev suffix : ℕ → List ℕ → List ℕ
suffix zero xs = xs
suffix (suc n) [] = []
suffix (suc n) (x ∷ xs) = suffix n xs

suffix-step :
    (i : ℕ) (xs : List ℕ)
    → i < length xs
    → (x : ℕ) × (get_elem? xs i ≡ some x) × (suffix i xs ≡ x ∷ suffix (i + 1) xs)
suffix-step i [] h = absurd (omega arith)
suffix-step zero (x ∷ xs) h = (x, refl, refl)
suffix-step (suc i) (x ∷ xs) h =
    let (y, e, f) = suffix-step i xs (omega arith) in
    let next : suc i + 1 ≡ suc (i + 1) = omega arith in (y, e, rw next f)

suffix-end : (xs : List ℕ) → suffix (length xs) xs ≡ []
suffix-end [] = refl
suffix-end (x ∷ xs) = suffix-end xs

==_self : (n : ℕ) → (n == n) ≡ true
==_self n = ground arith

module _ (test : ℕ → Result Bool) (whitelist : List ℕ) where
  -- What is left of an iteration when `advance` has returned.
  abbrev after : ℕ → ℕ → Result (List ℕ)
  after fuel index = if index == length whitelist then ok [] else (do
    action ← or_throw (get_elem? whitelist index) undefined
    rest ← iterate false test whitelist fuel (index + 1)
    ok (action ∷ rest))

  -- Both loops together: `rounds` actions are left from the index on.
  iterate-from :
      (rounds fuel index : ℕ)
      → index + rounds ≡ length whitelist
      → rounds ≤ fuel
      → (advance_loop false test whitelist rounds index >>= after fuel)
        ≡ filter_result test (suffix index whitelist)
  unfolding advance_loop iterate advance
  iterate-from zero fuel index h k =
      let last : index ≡ length whitelist = omega arith in
      rw (last, ==_self (length whitelist), suffix-end whitelist) refl
  iterate-from (suc rounds) zero index h k = absurd (omega arith)
  iterate-from (suc rounds) (suc fuel) index h k =
      let (x, e, f) = suffix-step index whitelist (omega arith) in
      let inside : (index == length whitelist) ≡ false = ground arith in
      let left : length whitelist - (index + 1) ≡ rounds = omega arith in
      elim (Result-cases (test x)) [
        | inr (_, q) ↦ rw (e, f, q) refl
        | inl (v, q) ↦ elim (Bool-cases v) [
          | inr p ↦
              rw (e, f, q, p)
                (iterate-from rounds (suc fuel) (index + 1) (omega arith) (omega arith))
          | inl p ↦
              rw (e, f, q, p, inside, e, left)
                (ap (λ m. m >>= λ rest. ok (x ∷ rest))
                  (iterate-from rounds fuel (index + 1) (omega arith) (omega arith)))
        ]
      ]

  -- Iterating over the actions applicable in a state visits the actions of the whitelist for which the
  -- manager's test answers true, in the order of the whitelist, and throws where the test first throws.
  -- The loops end: one round of the outer loop for each action and one more are enough.
  pub applicable_set-filter : applicable_set false test whitelist ≡ filter_result test whitelist
  unfolding applicable_set iterate advance
  applicable_set-filter =
      let one : length whitelist + 1 ≡ suc (length whitelist) = omega arith in
      let all_left : length whitelist - 0 ≡ length whitelist = omega arith in
      rw (one, all_left)
        (iterate-from (length whitelist) (length whitelist) 0 (omega arith) (omega arith))

  iterate_all :
      (fuel index : ℕ)
      → length whitelist < index + fuel
      → index ≤ length whitelist
      → iterate true test whitelist fuel index ≡ ok (suffix index whitelist)
  unfolding iterate advance
  iterate_all zero index h k = absurd (omega arith)
  iterate_all (suc fuel) index h k = elim (Bool-cases (index == length whitelist)) [
    | inl e ↦
        let last : index ≡ length whitelist = (==_iff index (length whitelist)).0 e in
        rw (last, ==_self (length whitelist), suffix-end whitelist) refl
    | inr e ↦
        let left : index < length whitelist = ground arith in
        let (x, at, f) = suffix-step index whitelist left in
        rw (e, at, f)
          (ap (λ m. m >>= λ rest. ok (x ∷ rest))
            (iterate_all fuel (index + 1) (omega arith) (omega arith)))
  ]

  -- If the manager's whitelist guarantees applicability, the iteration visits the whole whitelist, in its
  -- order, and never asks whether an action is applicable.
  pub applicable_set-whitelist : applicable_set true test whitelist ≡ ok whitelist
  unfolding applicable_set
  applicable_set-whitelist = iterate_all (length whitelist + 1) 0 (omega arith) (omega arith)
