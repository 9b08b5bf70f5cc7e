-- ===== src/Atom.antt =====
-- src/atom.hxx: an atom X=x of a state variable and a value, and its orderings.
use planner.Prelude.{
  ℕ, ◌+◌, ◌||◌, ◌≡◌, ◌↔◌, Bool, true, false, not, ◌&&◌, arith, ltb, ◌==◌, if◌then◌else◌,
}
use planner.Prelude.Int.{ℤ, eq_ℤ, eq_ℤ_iff, ltb_ℤ}

-- `VariableIdx` is `unsigned`, `ObjectIdx` is `int`.
pub record Atom : Type 0 where
  pub variable : ℕ
  pub value : ℤ

-- `operator==` and `operator!=`
abbrev pub eq : Atom → Atom → Bool
eq a b = a.variable == b.variable && eq_ℤ a.value b.value

abbrev pub ne : Atom → Atom → Bool
ne a b = not (eq a b)

-- `operator<`: by variable, then by value
abbrev pub lt : Atom → Atom → Bool
lt a b =
    if ltb a.variable b.variable
    then true
    else if ltb b.variable a.variable
    then false
    else if ltb_ℤ a.value b.value
    then true
    else false

abbrev pub gt : Atom → Atom → Bool
gt a b = lt b a

abbrev pub le : Atom → Atom → Bool
le a b = not (gt a b)

abbrev pub ge : Atom → Atom → Bool
ge a b = not (lt a b)

pub eq_iff : (a b : Atom) → (eq a b ≡ true) ↔ (a ≡ b)
eq_iff a b = ground (arith, eq_ℤ_iff a.value b.value)

pub eq_self : (a : Atom) → eq a a ≡ true
eq_self a = (eq_iff a a).1 (λ i. a)

one_of_three :
    (a b : Atom)
    → (if eq a b then 1 else 0) + (if lt a b then 1 else 0) + (if gt a b then 1 else 0) ≡ 1
one_of_three a b = ground arith

lt_trans : (a b c : Atom) → lt a b ≡ true → lt b c ≡ true → lt a c ≡ true
lt_trans a b c h k = ground arith

le_split : (a b : Atom) → le a b ≡ (lt a b || eq a b)
le_split a b = ground arith

-- The order of atoms is a strict total order that agrees with their equality: of two atoms exactly
-- one of "equal", "smaller" and "greater" holds, the order is transitive, and `<=` is "smaller or
-- equal".
pub lt_strict_total :
    (a b c : Atom)
    → ((if eq a b then 1 else 0) + (if lt a b then 1 else 0) + (if gt a b then 1 else 0) ≡ 1)
      × ((lt a b && lt b c && not (lt a c)) ≡ false)
      × (le a b ≡ (lt a b || eq a b))
lt_strict_total a b c = (one_of_three a b, ground (arith, lt_trans a b c), le_split a b)
