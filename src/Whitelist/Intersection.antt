-- ===== src/Whitelist/Intersection.antt =====
-- src/applicability/action_managers.cxx and src/utils/utils.hxx: intersections of sorted ranges.
use planner.Prelude.{
  ℕ, zero, suc, ◌+◌, ◌≤◌, ◌<◌, ◌≡◌, refl, sym, ap, ◌∙◌, Bool, true, false, not, ◌&&◌, ◌||◌, List,
  [], ◌∷◌, arith, ltb, ◌==◌, length, inl, inr, Bool-cases, any,
}
use planner.Whitelist.{intersect_from, set_intersection, empty_from, empty_intersection}

abbrev pub mem : ℕ → List ℕ → Bool
mem a [] = false
mem a (x ∷ xs) = x == a || mem a xs

-- Strictly ascending, from a lower bound on.
abbrev pub IsAscendingFrom : ℕ → List ℕ → Type 0
IsAscendingFrom n [] = Unit
IsAscendingFrom n (x ∷ xs) = (n ≤ x) × IsAscendingFrom (x + 1) xs

abbrev pub IsAscending : List ℕ → Type 0
IsAscending xs = IsAscendingFrom 0 xs

not_mem_below : (a n : ℕ) (xs : List ℕ) → IsAscendingFrom n xs → a < n → mem a xs ≡ false
not_mem_below a n [] h k = refl
not_mem_below a n (x ∷ xs) (h, hs) k = ground (arith, not_mem_below a (x + 1) xs hs (omega arith))

weaken : (m n : ℕ) (xs : List ℕ) → m ≤ n → IsAscendingFrom n xs → IsAscendingFrom m xs
weaken m n [] h k = tt
weaken m n (x ∷ xs) h (k, ks) = (omega arith, ks)

intersect_from-ascending :
    (fuel n m : ℕ) (xs ys : List ℕ)
    → IsAscendingFrom n xs
    → IsAscendingFrom m ys
    → IsAscendingFrom n (intersect_from fuel xs ys)
unfolding intersect_from
intersect_from-ascending zero n m xs ys h k = tt
intersect_from-ascending (suc fuel) n m [] ys h k = tt
intersect_from-ascending (suc fuel) n m (x ∷ xs) [] h k = tt
intersect_from-ascending (suc fuel) n m (x ∷ xs) (y ∷ ys) (h, hs) (k, ks) =
    elim (Bool-cases (ltb x y)) [
      | inl p ↦ rw p (
          weaken n (x + 1) _ (omega arith)
            (intersect_from-ascending fuel (x + 1) m xs (y ∷ ys) hs (k, ks)))
      | inr p ↦ elim (Bool-cases (ltb y x)) [
        | inl q ↦ rw (p, q) (intersect_from-ascending fuel n (y + 1) (x ∷ xs) ys (h, hs) ks)
        | inr q ↦ rw (p, q) (h, intersect_from-ascending fuel (x + 1) (y + 1) xs ys hs ks)
      ]
    ]

mem-intersect_from :
    (fuel n m a : ℕ) (xs ys : List ℕ)
    → length xs + length ys ≤ fuel
    → IsAscendingFrom n xs
    → IsAscendingFrom m ys
    → mem a (intersect_from fuel xs ys) ≡ (mem a xs && mem a ys)
unfolding intersect_from
mem-intersect_from zero n m a [] ys l h k = refl
mem-intersect_from zero n m a (x ∷ xs) ys l h k = absurd (omega arith)
mem-intersect_from (suc fuel) n m a [] ys l h k = refl
mem-intersect_from (suc fuel) n m a (x ∷ xs) [] l h k = ground arith
mem-intersect_from (suc fuel) n m a (x ∷ xs) (y ∷ ys) l (h, hs) (k, ks) =
    elim (Bool-cases (ltb x y)) [
      | inl p ↦ rw p (
          mem-intersect_from fuel (x + 1) m a xs (y ∷ ys) (omega arith) hs (k, ks)
          ∙ ground (arith, not_mem_below a (y + 1) ys ks))
      | inr p ↦ elim (Bool-cases (ltb y x)) [
        | inl q ↦
            rw (p, q)
              (mem-intersect_from fuel n (y + 1) a (x ∷ xs) ys (omega arith) (h, hs) ks
                ∙ ground (arith, not_mem_below a (x + 1) xs hs))
        | inr q ↦
            rw (p, q)
              (ground (arith, mem-intersect_from fuel (x + 1) (y + 1) a xs ys (omega arith) hs ks))
      ]
    ]

pub set_intersection-IsAscending :
    (xs ys : List ℕ) → IsAscending xs → IsAscending ys → IsAscending (set_intersection xs ys)
unfolding set_intersection
set_intersection-IsAscending xs ys h k = intersect_from-ascending _ 0 0 xs ys h k

pub mem-set_intersection :
    (a : ℕ) (xs ys : List ℕ)
    → IsAscending xs
    → IsAscending ys
    → mem a (set_intersection xs ys) ≡ (mem a xs && mem a ys)
unfolding set_intersection
mem-set_intersection a xs ys h k = mem-intersect_from _ 0 0 a xs ys (omega arith) h k

any-nothing : (xs : List ℕ) → true ≡ not (any (λ x. mem x []) xs)
any-nothing [] = refl
any-nothing (x ∷ xs) = any-nothing xs

any-drop :
    (n y : ℕ) (xs ys : List ℕ)
    → IsAscendingFrom n xs
    → y < n
    → any (λ x. mem x (y ∷ ys)) xs ≡ any (λ x. mem x ys) xs
any-drop n y [] ys h k = refl
any-drop n y (x ∷ xs) ys (h, hs) k = ground (arith, any-drop (x + 1) y xs ys hs (omega arith))

empty_from-any :
    (fuel n m : ℕ) (xs ys : List ℕ)
    → length xs + length ys ≤ fuel
    → IsAscendingFrom n xs
    → IsAscendingFrom m ys
    → empty_from fuel xs ys ≡ not (any (λ x. mem x ys) xs)
unfolding empty_from
empty_from-any zero n m [] ys l h k = refl
empty_from-any zero n m (x ∷ xs) ys l h k = absurd (omega arith)
empty_from-any (suc fuel) n m [] ys l h k = refl
empty_from-any (suc fuel) n m (x ∷ xs) [] l h k = any-nothing xs
empty_from-any (suc fuel) n m (x ∷ xs) (y ∷ ys) l (h, hs) (k, ks) = elim (Bool-cases (ltb x y)) [
  | inl p ↦ rw p (
      empty_from-any fuel (x + 1) m xs (y ∷ ys) (omega arith) hs (k, ks)
      ∙ ground (arith, not_mem_below x (y + 1) ys ks))
  | inr p ↦ elim (Bool-cases (ltb y x)) [
    | inl q ↦
        rw (p, q)
          (empty_from-any fuel n (y + 1) (x ∷ xs) ys (omega arith) (h, hs) ks
            ∙ ap not (sym (any-drop (y + 1) y (x ∷ xs) ys (ground arith, hs) (omega arith))))
    | inr q ↦ rw (p, q) (ground arith)
  ]
]

-- On two strictly ascending ranges, `empty_intersection` is true exactly if no element of the first is
-- in the second.
pub empty_intersection-any :
    (xs ys : List ℕ)
    → IsAscending xs
    → IsAscending ys
    → empty_intersection xs ys ≡ not (any (λ x. mem x ys) xs)
unfolding empty_intersection
empty_intersection-any xs ys h k = empty_from-any _ 0 0 xs ys (omega arith) h k
