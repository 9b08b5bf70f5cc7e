-- ===== src/Direct/Domain.antt =====
-- src/constraints/filtering.hxx, and the domains of src/fs_types.hxx: a domain is a
-- `flat_set<ObjectIdx>`, that is, a vector of values in ascending order without repetitions.
use planner.Prelude.{
  ◌≤◌, ◌<◌, ◌≡◌, refl, inl, inr, Bool, true, false, List, [], ◌∷◌, arith, length, All, all, any,
  if◌then◌else◌, Bool-cases,
}
use planner.Prelude.Int.{ℤ, eq_ℤ, eq_ℤ_iff, ltb_ℤ}

-- `FilteringOutput`
pub data FilteringOutput : Type 0 where
  failure : FilteringOutput
  pruned : FilteringOutput
  unpruned : FilteringOutput

abbrev pub Domain : Type 0
Domain = List ℤ

abbrev pub Ascending : Domain → Type 0
Ascending [] = Unit
Ascending (x ∷ xs) = All (λ y. ltb_ℤ x y ≡ true) xs × Ascending xs

-- The last value of a domain that starts with x: `*(domain.crbegin())`
abbrev pub last_from : ℤ → List ℤ → ℤ
last_from x [] = x
last_from x (y ∷ ys) = last_from y ys

-- The values from `begin()` up to `lower_bound(y)`, and those from there up to `end()`.
abbrev pub before : ℤ → Domain → Domain
before y [] = []
before y (x ∷ xs) = if ltb_ℤ x y then x ∷ before y xs else []

abbrev pub from : ℤ → Domain → Domain
from y [] = []
from y (x ∷ xs) = if ltb_ℤ x y then from y xs else x ∷ xs

-- `if (*it == y) ++it`, for the values before the iterator and those from it on
abbrev pub head_if_equal : ℤ → Domain → Domain
head_if_equal y [] = []
head_if_equal y (x ∷ xs) = if eq_ℤ x y then x ∷ [] else []

abbrev pub skip_equal : ℤ → Domain → Domain
skip_equal y [] = []
skip_equal y (x ∷ xs) = if eq_ℤ x y then xs else x ∷ xs

-- `erase(y)`
abbrev pub erase : ℤ → Domain → Domain
erase y [] = []
erase y (x ∷ xs) = if eq_ℤ x y then xs else x ∷ erase y xs

-- `find(y) != end()`
abbrev pub member : ℤ → Domain → Bool
member y = any (λ x. eq_ℤ x y)

abbrev pub filter : (ℤ → Bool) → Domain → Domain
filter p [] = []
filter p (x ∷ xs) = if p x then x ∷ filter p xs else filter p xs

abbrev pub is_empty : Domain → Bool
is_empty [] = true
is_empty (_ ∷ _) = false

pub length-filter-le : (p : ℤ → Bool) (d : Domain) → length (filter p d) ≤ length d
length-filter-le p [] = omega arith
length-filter-le p (x ∷ xs) = ground (arith, length-filter-le p xs)

pub filter-eq_self : (p : ℤ → Bool) (d : Domain) → all p d ≡ true → filter p d ≡ d
filter-eq_self p [] h = refl
filter-eq_self p (x ∷ xs) h = ground (arith, filter-eq_self p xs)

pub filter-eq-nil : (p : ℤ → Bool) (d : Domain) → any p d ≡ false → filter p d ≡ []
filter-eq-nil p [] h = refl
filter-eq-nil p (x ∷ xs) h = ground (arith, filter-eq-nil p xs)

pub filter-ne-nil : (p : ℤ → Bool) (d : Domain) → any p d ≡ true → is_empty (filter p d) ≡ false
filter-ne-nil p [] h = cc
filter-ne-nil p (x ∷ xs) h = ground (arith, filter-ne-nil p xs)

pub length-filter-lt :
    (p : ℤ → Bool) (d : Domain) → all p d ≡ false → length (filter p d) < length d
length-filter-lt p [] h = cc
length-filter-lt p (x ∷ xs) h = ground (arith, length-filter-lt p xs, length-filter-le p xs)

pub any-filter : (p q : ℤ → Bool) (d : Domain) → any q (filter p d) ≡ true → any q d ≡ true
any-filter p q [] h = h
any-filter p q (x ∷ xs) h = ground (arith, any-filter p q xs)

pub all-filter : (p : ℤ → Bool) (d : Domain) → all p (filter p d) ≡ true
all-filter p [] = refl
all-filter p (x ∷ xs) = ground (arith, all-filter p xs)

pub all-filter_of_all : (p q : ℤ → Bool) (d : Domain) → all q d ≡ true → all q (filter p d) ≡ true
all-filter_of_all p q [] h = refl
all-filter_of_all p q (x ∷ xs) h = ground (arith, all-filter_of_all p q xs)

pub All-filter : (P : ℤ → Type 0) (p : ℤ → Bool) (d : Domain) → All P d → All P (filter p d)
All-filter P p [] h = tt
All-filter P p (x ∷ xs) (a, b) = elim (Bool-cases (p x)) [
  | inl e ↦ rw e (a, All-filter P p xs b)
  | inr e ↦ rw e (All-filter P p xs b)
]

pub filter-Ascending : (p : ℤ → Bool) (d : Domain) → Ascending d → Ascending (filter p d)
filter-Ascending p [] h = tt
filter-Ascending p (x ∷ xs) (a, b) = elim (Bool-cases (p x)) [
  | inl e ↦ rw e (All-filter (λ y. ltb_ℤ x y ≡ true) p xs a, filter-Ascending p xs b)
  | inr e ↦ rw e (filter-Ascending p xs b)
]

pub filter_congr : (p q : ℤ → Bool) (d : Domain) → All (λ x. p x ≡ q x) d → filter p d ≡ filter q d
filter_congr p q [] h = refl
filter_congr p q (x ∷ xs) (a, b) = rw (a, filter_congr p q xs b)

-- A value that satisfies the test stays.
pub member-filter :
    (p : ℤ → Bool) (y : ℤ) (d : Domain)
    → member y d ≡ true
    → p y ≡ true
    → member y (filter p d) ≡ true
member-filter p y [] h k = h
member-filter p y (x ∷ xs) h k = ground (arith, eq_ℤ_iff x y, member-filter p y xs)
