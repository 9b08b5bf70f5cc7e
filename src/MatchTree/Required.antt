-- ===== src/MatchTree/Required.antt =====
-- src/applicability/match_tree.cxx: what is left to check of the required atoms of an action, as more
-- variables are seen.
use planner.Prelude.{
  ℕ, zero, suc, ◌+◌, ◌<◌, ◌≡◌, inl, inr, refl, sym, Bool, true, false, not, ◌&&◌, ◌||◌, List, [],
  ◌∷◌, arith, ltb, ◌==◌, ==_iff, length, get_or, set, all, any, if◌then◌else◌, Bool-cases,
}
use planner.Prelude.Int.{ℤ}
use planner.Prelude.Outcome.{ok}
use planner.Atom.{Atom}
use planner.MatchTree.{has_atom, get_best_variable}

-- How many flags are not set.
abbrev pub unseen : List Bool → ℕ
unseen [] = 0
unseen (f ∷ flags) = (if f then 0 else 1) + unseen flags

pub unseen-set :
    (flags : List Bool) (v : ℕ)
    → v < length flags
    → get_or flags v false ≡ false
    → unseen flags ≡ suc (unseen (set flags v true))
unseen-set [] v h e = absurd (omega arith)
unseen-set (f ∷ flags) zero h e = ground arith
unseen-set (f ∷ flags) (suc v) h e = ground (arith, unseen-set flags v (omega arith) e)

-- After v is seen, a variable is seen if it was, or is v.
pub seen-set :
    (flags : List Bool) (v w : ℕ)
    → v < length flags
    → get_or (set flags v true) w false ≡ (v == w || get_or flags w false)
seen-set [] v w h = absurd (omega arith)
seen-set (f ∷ flags) zero zero h = refl
seen-set (f ∷ flags) zero (suc w) h = ground arith
seen-set (f ∷ flags) (suc v) zero h = ground arith
seen-set (f ∷ flags) (suc v) (suc w) h = ground (arith, seen-set flags v w (omega arith))

pub get_best_variable_lem :
    (seen : List Bool) (variables : List ℕ)
    → all (λ v. ltb v (length seen)) variables ≡ true
    → any (λ v. not (get_or seen v false)) variables ≡ true
    → (v : ℕ) × (get_best_variable seen variables ≡ ok v)
      × (v < length seen)
      × (get_or seen v false ≡ false)
unfolding get_best_variable
get_best_variable_lem seen [] h k = absurd (cc k)
get_best_variable_lem seen (v ∷ variables) h k = elim (Bool-cases (get_or seen v false)) [
  | inr e ↦ (v, rw e refl, ground arith, e)
  | inl e ↦
      let (w, best, l, f) = get_best_variable_lem seen variables (ground arith) (ground arith) in
      (w, rw e best, l, f)
]

and_false : (b : Bool) → (b && false) ≡ false
and_false true = refl
and_false false = refl

module _ (now : ℕ → ℤ) (atoms : List Atom) where
  -- The variable of an atom is seen, or its value is one of the required ones.
  abbrev pub fits : List Bool → Atom → Bool
  fits seen t = get_or seen t.variable false || has_atom atoms t.variable (now t.variable)

  pub done-fits :
      (seen : List Bool) (ts : List Atom)
      → all (λ (t : Atom). get_or seen t.variable false) ts ≡ true
      → all (fits seen) ts ≡ true
  done-fits seen [] h = refl
  done-fits seen (t ∷ ts) h = ground (arith, done-fits seen ts)

  module _ (seen : List Bool) (p : ℕ) (inside : p < length seen)
      (fresh : get_or seen p false ≡ false) where
    fits-set :
        (t : Atom)
        → (p == t.variable ≡ true → has_atom atoms t.variable (now t.variable) ≡ true)
        → fits seen t ≡ fits (set seen p true) t
    fits-set t h = rw (seen-set seen p t.variable inside) (
        or_split (p == t.variable) (get_or seen t.variable false)
          (has_atom atoms t.variable (now t.variable)) h)
      where
        or_split : (a b c : Bool) → (a ≡ true → c ≡ true) → (b || c) ≡ ((a || b) || c)
        or_split a b c k = ground (arith, k)

    pub fits-has :
        (ts : List Atom)
        → has_atom atoms p (now p) ≡ true
        → all (fits seen) ts ≡ all (fits (set seen p true)) ts
    fits-has [] h = refl
    fits-has (t ∷ ts) h =
        let one = fits-set t (λ e. rw (sym ((==_iff p t.variable).0 e)) h) in
        rw (one, fits-has ts h) refl

    pub fits-untouched :
        (ts : List Atom)
        → any (λ (t : Atom). t.variable == p) ts ≡ false
        → all (fits seen) ts ≡ all (fits (set seen p true)) ts
    fits-untouched [] h = refl
    fits-untouched (t ∷ ts) h =
        let one = fits-set t (λ e. absurd (off e)) in
        rw (one, fits-untouched ts (ground arith)) refl
      where
        off : p == t.variable ≡ true → ⊥
        off e = let same : p ≡ t.variable = (==_iff p t.variable).0 e in ground arith

    pub fits-missing :
        (ts : List Atom)
        → has_atom atoms p (now p) ≡ false
        → any (λ (t : Atom). t.variable == p) ts ≡ true
        → all (fits seen) ts ≡ false
    fits-missing [] h k = absurd (cc k)
    fits-missing (t ∷ ts) h k = elim (Bool-cases (t.variable == p)) [
      | inl e ↦ let same : t.variable ≡ p = (==_iff t.variable p).0 e in rw (same, fresh, h) refl
      | inr e ↦ rw (fits-missing ts h (rw e at k)) (and_false (fits seen t))
    ]
