-- ===== src/Direct/Order.antt =====
-- What the first and the last value of an ascending domain say of all values, and what the searches by
-- `lower_bound` cut off: the filters of src/constraints/direct/builtin.cxx read domains this way.
use planner.Prelude.{
  ◌≡◌, refl, sym, ap, inl, inr, Bool, true, false, not, [], ◌∷◌, ◌++◌, arith, All, all, any,
  Bool-cases,
}
use planner.Prelude.Int.{ℤ, eq_ℤ, ltb_ℤ, leb_ℤ}
use planner.Direct.Domain.{
  Domain, Ascending, last_from, before, from, head_if_equal, skip_equal, erase, member, filter,
  filter-eq_self, filter-eq-nil,
}
use planner.Direct.Constraint.{found}

-- Tests that hold below, or above, any value for which they hold.
abbrev pub Down : (ℤ → Bool) → Type 0
Down p = (a b : ℤ) → ltb_ℤ a b ≡ true → p b ≡ true → p a ≡ true

abbrev pub Up : (ℤ → Bool) → Type 0
Up p = (a b : ℤ) → ltb_ℤ a b ≡ true → p a ≡ true → p b ≡ true

module _ (q : ℤ → Bool) (x : ℤ) where
  all_above :
      (xs : Domain)
      → ((y : ℤ) → ltb_ℤ x y ≡ true → q y ≡ true)
      → All (λ y. ltb_ℤ x y ≡ true) xs
      → all q xs ≡ true
  all_above [] h a = refl
  all_above (y ∷ ys) h (a, b) = rw (h y a) (all_above ys h b)

  pub none_above :
      (xs : Domain)
      → ((y : ℤ) → ltb_ℤ x y ≡ true → q y ≡ false)
      → All (λ y. ltb_ℤ x y ≡ true) xs
      → any q xs ≡ false
  none_above [] h a = refl
  none_above (y ∷ ys) h (a, b) = rw (h y a) (none_above ys h b)

All-last_from : (P : ℤ → Type 0) (y : ℤ) (ys : Domain) → All P (y ∷ ys) → P (last_from y ys)
All-last_from P y [] (a, _) = a
All-last_from P y (z ∷ zs) (a, b) = All-last_from P z zs b

pub any-not-all : (p : ℤ → Bool) (d : Domain) → any p d ≡ not (all (λ x. not (p x)) d)
any-not-all p [] = refl
any-not-all p (x ∷ xs) = ground (arith, any-not-all p xs)

pub all-not-any : (p : ℤ → Bool) (d : Domain) → all p d ≡ not (any (λ x. not (p x)) d)
all-not-any p [] = refl
all-not-any p (x ∷ xs) = ground (arith, all-not-any p xs)

module _ (p : ℤ → Bool) where
  pub all-Down :
      (x : ℤ) (xs : Domain) → Down p → Ascending (x ∷ xs) → all p (x ∷ xs) ≡ p (last_from x xs)
  all-Down x [] down h = ground arith
  all-Down x (y ∷ ys) down (a, b) =
      let above = All-last_from (λ z. ltb_ℤ x z ≡ true) y ys a in
      ground (arith, all-Down y ys down b, down x (last_from y ys) above)

  pub any-Down : (x : ℤ) (xs : Domain) → Down p → Ascending (x ∷ xs) → any p (x ∷ xs) ≡ p x
  any-Down x xs down (a, b) = elim (Bool-cases (p x)) [
    | inl e ↦ rw e
    | inr e ↦ rw e (none_above p x xs (λ y h. ground (arith, down x y h)) a)
  ]

module _ (p : ℤ → Bool) (x : ℤ) (xs : Domain) (up : Up p) (h : Ascending (x ∷ xs)) where
  opposite : Down (λ y. not (p y))
  opposite a b l k = ground (arith, up a b l)

  pub any-Up : any p (x ∷ xs) ≡ p (last_from x xs)
  any-Up = ground (arith, any-not-all p (x ∷ xs), all-Down (λ y. not (p y)) x xs opposite h)

  pub all-Up : all p (x ∷ xs) ≡ p x
  all-Up = ground (arith, all-not-any p (x ∷ xs), any-Down (λ y. not (p y)) x xs opposite h)

-- The searches.
pub before-filter : (y : ℤ) (d : Domain) → Ascending d → before y d ≡ filter (λ x. ltb_ℤ x y) d
before-filter y [] h = refl
before-filter y (x ∷ xs) (a, b) = elim (Bool-cases (ltb_ℤ x y)) [
  | inl e ↦ rw e (ap (λ t. x ∷ t) (before-filter y xs b))
  | inr e ↦ rw e (sym (filter-eq-nil _ xs (none_above _ x xs (λ z l. ground arith) a)))
]

pub from-filter : (y : ℤ) (d : Domain) → Ascending d → from y d ≡ filter (λ x. leb_ℤ y x) d
from-filter y [] h = refl
from-filter y (x ∷ xs) (a, b) = elim (Bool-cases (ltb_ℤ x y)) [
  | inl e ↦ let e' : leb_ℤ y x ≡ false = ground arith in rw (e, e') (from-filter y xs b)
  | inr e ↦
      let e' : leb_ℤ y x ≡ true = ground arith in
      rw (e, e')
        (ap (λ t. x ∷ t) (sym (filter-eq_self _ xs (all_above _ x xs (λ z l. ground arith) a))))
]

pub before-head_if_equal :
    (y : ℤ) (d : Domain)
    → Ascending d
    → before y d ++ head_if_equal y (from y d) ≡ filter (λ x. leb_ℤ x y) d
before-head_if_equal y [] h = refl
before-head_if_equal y (x ∷ xs) (a, b) = elim (Bool-cases (ltb_ℤ x y)) [
  | inl e ↦
      let e' : leb_ℤ x y ≡ true = ground arith in
      rw (e, e') (ap (λ t. x ∷ t) (before-head_if_equal y xs b))
  | inr e ↦ elim (Bool-cases (eq_ℤ x y)) [
    | inl k ↦
        let e' : leb_ℤ x y ≡ true = ground arith in
        rw (e, k, e')
          (ap (λ t. x ∷ t) (sym (filter-eq-nil _ xs (none_above _ x xs (λ z l. ground arith) a))))
    | inr k ↦
        let e' : leb_ℤ x y ≡ false = ground arith in
        rw (e, k, e') (sym (filter-eq-nil _ xs (none_above _ x xs (λ z l. ground arith) a)))
  ]
]

pub skip_equal-from :
    (y : ℤ) (d : Domain) → Ascending d → skip_equal y (from y d) ≡ filter (λ x. ltb_ℤ y x) d
skip_equal-from y [] h = refl
skip_equal-from y (x ∷ xs) (a, b) = elim (Bool-cases (ltb_ℤ x y)) [
  | inl e ↦ let e' : ltb_ℤ y x ≡ false = ground arith in rw (e, e') (skip_equal-from y xs b)
  | inr e ↦
      let rest =
        sym (filter-eq_self (λ z. ltb_ℤ y z) xs (all_above _ x xs (λ z l. ground arith) a)) in
      elim (Bool-cases (eq_ℤ x y)) [
        | inl k ↦ let e' : ltb_ℤ y x ≡ false = ground arith in rw (e, k, e') rest
        | inr k ↦ let e' : ltb_ℤ y x ≡ true = ground arith in rw (e, k, e') (ap (λ t. x ∷ t) rest)
      ]
]

pub found-member : (y : ℤ) (d : Domain) → Ascending d → found y d ≡ member y d
found-member y [] h = refl
found-member y (x ∷ xs) (a, b) = elim (Bool-cases (ltb_ℤ x y)) [
  | inl e ↦ let e' : eq_ℤ x y ≡ false = ground arith in rw (e, e') (found-member y xs b)
  | inr e ↦ elim (Bool-cases (eq_ℤ x y)) [
    | inl k ↦ rw (e, k)
    | inr k ↦ rw (e, k) (sym (none_above _ x xs (λ z l. ground arith) a))
  ]
]

pub erase-filter : (y : ℤ) (d : Domain) → Ascending d → erase y d ≡ filter (λ x. not (eq_ℤ x y)) d
erase-filter y [] h = refl
erase-filter y (x ∷ xs) (a, b) = elim (Bool-cases (eq_ℤ x y)) [
  | inl e ↦ rw e (sym (filter-eq_self _ xs (all_above _ x xs (λ z l. ground arith) a)))
  | inr e ↦ rw e (ap (λ t. x ∷ t) (erase-filter y xs b))
]
