-- ===== src/Whitelist/Candidates.antt =====
-- src/applicability/action_managers.cxx: which actions the whitelist of a state holds.
use planner.Prelude.{
  ℕ, zero, suc, ◌+◌, ◌-◌, ◌≤◌, ◌<◌, ◌≡◌, refl, sym, ap, ◌∙◌, Bool, true, false, ◌&&◌, List, [], ◌∷◌,
  arith, ltb, ◌==◌, length, get_or, get_elem?, inl, inr, Bool-cases, all, All,
}
use planner.AtomIndex.{to_index}
use planner.Whitelist.{
  smallest_loop, set_intersection, intersect_loop, intersect_candidates, candidates_loop,
  compute_whitelist,
}
use planner.Prelude.Int.{ℤ}
use planner.Prelude.Outcome.{ok, undefined, or_throw, >>=-eq-ok, ok_injective}
use planner.State.{State, get_value, num_atoms}
use planner.Whitelist.Intersection.{
  mem, IsAscending, IsAscendingFrom, mem-set_intersection, set_intersection-IsAscending,
}

abbrev IsBelow : ℕ → List ℕ → Type 0
IsBelow total xs = All (λ x. x < total) xs

-- A set of action indexes, each below the number of actions.
abbrev pub IsActions : ℕ → List ℕ → Type 0
IsActions total xs = IsAscending xs × IsBelow total xs

length-ascending :
    (total n : ℕ) (xs : List ℕ)
    → n ≤ total
    → IsAscendingFrom n xs
    → IsBelow total xs
    → n + length xs ≤ total
length-ascending total n [] l h b = omega arith
length-ascending total n (x ∷ xs) l (h, hs) (b, bs) =
    omega (arith, length-ascending total (x + 1) xs (omega arith) hs bs)

-- As many indexes as there are actions are all of them.
mem-full :
    (total n a : ℕ) (xs : List ℕ)
    → IsAscendingFrom n xs
    → IsBelow total xs
    → total ≤ n + length xs
    → n ≤ a
    → a < total
    → mem a xs ≡ true
mem-full total n a [] h b l p q = absurd (omega arith)
mem-full total n a (x ∷ xs) (h, hs) (b, bs) l p q =
    let small = length-ascending total (x + 1) xs (omega arith) hs bs in
    let first : x ≡ n = omega arith in
    elim (Bool-cases (x == a)) [
      | inl e ↦ rw e refl
      | inr e ↦
          let more : x + 1 ≤ a = ground arith in
          rw (e, mem-full total (x + 1) a xs hs bs (omega arith) more q) refl
    ]

mem-below : (total a : ℕ) (xs : List ℕ) → IsBelow total xs → mem a xs ≡ true → a < total
mem-below total a [] b h = absurd (cc h)
mem-below total a (x ∷ xs) (b, bs) h = elim (Bool-cases (x == a)) [
  | inl e ↦ let same : x ≡ a = ground arith in omega arith
  | inr e ↦ mem-below total a xs bs (rw e at h)
]

smallest_loop-below :
    (cs : List (List ℕ)) (i best min_size n : ℕ)
    → best < n
    → i + length cs ≤ n
    → smallest_loop cs i best min_size < n
unfolding smallest_loop
smallest_loop-below [] i best min_size n h l = h
smallest_loop-below (c ∷ cs) i best min_size n h l = elim (Bool-cases (ltb (length c) min_size)) [
  | inl e ↦ rw e (smallest_loop-below cs (i + 1) i (length c) n (omega arith) (omega arith))
  | inr e ↦ rw e (smallest_loop-below cs (i + 1) best min_size n h (omega arith))
]

module _ (total best a : ℕ) (chosen : List ℕ) where
  mem-intersect_loop :
      (cs : List (List ℕ)) (i : ℕ) (result : List ℕ)
      → All (IsActions total) cs
      → IsAscending result
      → (i ≤ best → get_or cs (best - i) [] ≡ chosen)
      → (mem a result ≡ true → (mem a chosen ≡ true) × (a < total))
      → mem a (intersect_loop total best cs i result) ≡ (mem a result && all (mem a) cs)
  unfolding intersect_loop
  mem-intersect_loop [] i result hs h at inside = ground arith
  mem-intersect_loop (c ∷ cs) i result ((hc, bc), hs) h at inside = elim (Bool-cases (i == best)) [
    | inl e ↦
        let same : i ≡ best = ground arith in
        let first : best - i ≡ 0 = omega arith in
        let chosen_here : c ≡ chosen = rw first at at (omega arith) in
        rw e (
          mem-intersect_loop cs (i + 1) result hs h (λ k. absurd (omega arith)) inside
          ∙ skipped c (all (mem a) cs) result (λ k. ap (mem a) chosen_here ∙ (inside k).0))
    | inr e ↦ elim (Bool-cases (length c == total)) [
      | inl f ↦
          let full : length c ≡ total = ground arith in
          rw (e, f)
            (mem-intersect_loop cs (i + 1) result hs h (further c cs i e at) inside
              ∙ skipped c (all (mem a) cs) result
                  (λ k. mem-full total 0 a c hc bc (omega arith) (omega arith) (inside k).1))
      | inr f ↦
          let meet = mem-set_intersection a result c h hc in
          rw (e, f)
            (mem-intersect_loop cs (i + 1) (set_intersection result c) hs
                (set_intersection-IsAscending result c h hc) (further c cs i e at)
                (λ k. inside (left_of (mem a result) (mem a c) (sym meet ∙ k)))
              ∙ rw meet (and_assoc (mem a result) (mem a c) (all (mem a) cs)))
    ]
  ]
    where
      skipped :
          (c : List ℕ) (rest : Bool) (result : List ℕ)
          → (mem a result ≡ true → mem a c ≡ true)
          → (mem a result && rest) ≡ (mem a result && (mem a c && rest))
      skipped c rest result k = ground (arith, k)

      left_of : (p q : Bool) → (p && q) ≡ true → p ≡ true
      left_of p q k = ground arith

      and_assoc : (p q r : Bool) → ((p && q) && r) ≡ (p && (q && r))
      and_assoc p q r = ground arith

      further :
          (c : List ℕ) (cs : List (List ℕ)) (i : ℕ)
          → (i == best) ≡ false
          → (i ≤ best → get_or (c ∷ cs) (best - i) [] ≡ chosen)
          → i + 1 ≤ best
          → get_or cs (best - (i + 1)) [] ≡ chosen
      further c cs i e at k =
          let next : best - i ≡ suc (best - (i + 1)) = omega arith in rw next at at (omega arith)

get_or-IsActions :
    (total i : ℕ) (cs : List (List ℕ)) → All (IsActions total) cs → IsActions total (get_or cs i [])
get_or-IsActions total i [] h = (tt, tt)
get_or-IsActions total zero (c ∷ cs) (h, hs) = h
get_or-IsActions total (suc i) (c ∷ cs) (h, hs) = get_or-IsActions total i cs hs

all-get_or :
    (a i : ℕ) (cs : List (List ℕ))
    → i < length cs
    → all (mem a) cs ≡ true
    → mem a (get_or cs i []) ≡ true
all-get_or a i [] l h = absurd (omega arith)
all-get_or a zero (c ∷ cs) l h = ground arith
all-get_or a (suc i) (c ∷ cs) l h = all-get_or a i cs (omega arith) (ground arith)

only_candidate :
    (a : ℕ) (cs : List (List ℕ)) (i : ℕ)
    → length cs ≡ 1
    → i < length cs
    → mem a (get_or cs i []) ≡ all (mem a) cs
only_candidate a [] i e k = absurd (omega arith)
only_candidate a (c ∷ []) zero e k = ground arith
only_candidate a (c ∷ []) (suc i) e k = absurd (omega arith)
only_candidate a (c ∷ d ∷ cs) i e k = absurd (omega arith)

mem-intersect_candidates :
    (total a : ℕ) (candidates : List (List ℕ))
    → 0 < length candidates
    → All (IsActions total) candidates
    → mem a (intersect_candidates total candidates) ≡ all (mem a) candidates
unfolding intersect_candidates
mem-intersect_candidates total a candidates l hs =
    let best = smallest_loop candidates 0 0 4294967295 in
    let below = smallest_loop-below candidates 0 0 4294967295 (length candidates) l (omega arith) in
    let actions = get_or-IsActions total best candidates hs in
    let whole : best - 0 ≡ best = omega arith in
    elim (Bool-cases (length candidates == 1)) [
      | inl e ↦ rw e (only_candidate a candidates best (ground arith) below)
      | inr e ↦ rw e (
          mem-intersect_loop total best a (get_or candidates best []) candidates 0
            (get_or candidates best []) hs actions.0 (λ _. rw whole refl)
            (λ k. (k, mem-below total a (get_or candidates best []) actions.1 k))
          ∙ ground (arith, all-get_or a best candidates below))
    ]

get_elem?-IsActions :
    (total i : ℕ) (cs : List (List ℕ)) (c : List ℕ)
    → All (IsActions total) cs
    → or_throw (get_elem? cs i) undefined ≡ ok c
    → IsActions total c
get_elem?-IsActions total i [] c h e = absurd (cc e)
get_elem?-IsActions total zero (d ∷ cs) c h e = rw (← ok_injective e) h.0
get_elem?-IsActions total (suc i) (d ∷ cs) c h e = get_elem?-IsActions total i cs c h.1 e

module _ (atom_index_inv : List (List (ℤ × ℕ))) (app_index : List (List ℕ)) (total : ℕ) (s : State)
    (actions : All (IsActions total) app_index) where
  candidates_lem :
      (n i : ℕ) (cs : List (List ℕ))
      → candidates_loop atom_index_inv app_index s n i ≡ ok cs
      → All (IsActions total) cs × (length cs ≡ n)
  unfolding candidates_loop
  candidates_lem zero i cs h = rw (← ok_injective h) (tt, refl)
  candidates_lem (suc n) i cs h =
      let (t, _, h1) = >>=-eq-ok (to_index atom_index_inv i (get_value s i)) _ h in
      let (c, e, h2) = >>=-eq-ok (or_throw (get_elem? app_index t) undefined) _ h1 in
      let (rest, r, h3) = >>=-eq-ok (candidates_loop atom_index_inv app_index s n (i + 1)) _ h2 in
      let (others, size) = candidates_lem n (i + 1) rest r in
      rw (← ok_injective h3)
        ((get_elem?-IsActions total t app_index c actions e, others), ap suc size)

  -- The whitelist of a state holds exactly the actions that are potentially applicable for every atom
  -- of the state: if the state has at least one atom, its atoms are indexed, and each set of the
  -- applicability index lists actions in ascending order, then the whitelist is computed, and an action
  -- is in it exactly if it is in the sets of all atoms of the state. The sets left out because they
  -- are as large as the number of actions, and the start from the smallest set, change nothing.
  pub mem-compute_whitelist :
      (candidates : List (List ℕ))
      → 0 < num_atoms s
      → candidates_loop atom_index_inv app_index s (num_atoms s) 0 ≡ ok candidates
      → (whitelist : List ℕ) × (compute_whitelist atom_index_inv app_index total s ≡ ok whitelist)
        × ((a : ℕ) → mem a whitelist ≡ all (mem a) candidates)
  unfolding compute_whitelist
  mem-compute_whitelist candidates some_atom h =
      let (sets, size) = candidates_lem (num_atoms s) 0 candidates h in
      (
        intersect_candidates total candidates,
        rw h refl,
        λ a. mem-intersect_candidates total a candidates (rw size some_atom) sets,
      )
