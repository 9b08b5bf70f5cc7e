-- ===== src/MatchTree/Split.antt =====
-- src/applicability/match_tree.cxx: which actions go to which part of a switch node.
use planner.Prelude.{
  ℕ, ◌<◌, ◌≡◌, ◌⊎◌, inl, inr, refl, ◌∙◌, Bool, true, false, not, ◌&&◌, ◌||◌, List, [], ◌∷◌, ◌++◌,
  arith, ◌==◌, ==_iff, length, get_or, set, all, any, Bool-cases,
}
use planner.Prelude.Int.{pos, eq_ℤ, eq_ℤ_iff}
use planner.Atom.{Atom}
use planner.State.{State, get_value}
use planner.Whitelist.Intersection.{mem}
use planner.MatchTree.{Context, filter, has_atom, action_done, needs, ignores}
use planner.MatchTree.Required.{fits, done-fits, fits-has, fits-untouched, fits-missing}

pub mem-filter : (p : ℕ → Bool) (a : ℕ) (xs : List ℕ) → mem a (filter p xs) ≡ (mem a xs && p a)
mem-filter p a [] = refl
mem-filter p a (x ∷ xs) = elim (Bool-cases (x == a)) [
  | inl e ↦ let same : x ≡ a = (==_iff x a).0 e in rw same (ground (arith, mem-filter p a xs))
  | inr e ↦ ground (arith, mem-filter p a xs)
]

pub mem-append : (a : ℕ) (xs ys : List ℕ) → mem a (xs ++ ys) ≡ (mem a xs || mem a ys)
mem-append a [] ys = refl
mem-append a (x ∷ xs) ys = ground (arith, mem-append a xs ys)

-- Each required atom is on a variable that is branched on, and is one of the atoms of that variable.
abbrev pub is_known : Context → Atom → Bool
is_known context t =
    any (λ v. v == t.variable) context.sorted_variables
    && any (eq_ℤ t.value) (context.values t.variable)

module _ (context : Context) (s : State)
    (binary : (v : ℕ) → (context.values v ≡ pos 1 ∷ []) ⊎ (context.values v ≡ pos 0 ∷ pos 1 ∷ []))
    (boolean : (v : ℕ) → (get_value s v ≡ pos 0) ⊎ (get_value s v ≡ pos 1))
    (known : (a : ℕ) → all (is_known context) (context.required a) ≡ true) where
  -- What the state has to satisfy for an action, given the variables seen.
  abbrev pub holds : List Bool → ℕ → Bool
  holds seen a = all (fits (get_value s) (context.required a) seen) (context.required a)

  or_false : (b : Bool) → (b || false) ≡ true → b ≡ true
  or_false true h = refl
  or_false false h = h

  one_of_two : (b c d e : Bool) → (b || (c || false)) ≡ true → ((b || d) || (c || e)) ≡ true
  one_of_two b c d e h = ground arith

  listed_value :
      (t : Atom) (ts : List Atom)
      → all (is_known context) (t ∷ ts) ≡ true
      → any (eq_ℤ t.value) (context.values t.variable) ≡ true
  listed_value t ts h = ground arith

  later_known :
      (t : Atom) (ts : List Atom)
      → all (is_known context) (t ∷ ts) ≡ true
      → all (is_known context) ts ≡ true
  later_known t ts h = ground arith

  pub touches_one :
      (p : ℕ) (ts : List Atom)
      → context.values p ≡ pos 1 ∷ []
      → all (is_known context) ts ≡ true
      → (has_atom ts p (pos 1) ≡ any (λ (t : Atom). t.variable == p) ts)
        × (has_atom ts p (pos 0) ≡ false)
  touches_one p [] e h = (refl, refl)
  touches_one p (t ∷ ts) e h = elim (Bool-cases (t.variable == p)) [
    | inl k ↦
        let same : t.variable ≡ p = (==_iff t.variable p).0 k in
        let listed : any (eq_ℤ t.value) (context.values p) ≡ true =
          rw same at (listed_value t ts h) in
        let one : t.value ≡ pos 1 =
          (eq_ℤ_iff t.value (pos 1)).0 (or_false (eq_ℤ t.value (pos 1)) (rw e at listed)) in
        rw (k, one) (refl, (touches_one p ts e (later_known t ts h)).1)
    | inr k ↦ rw k (touches_one p ts e (later_known t ts h))
  ]

  touches_two :
      (p : ℕ) (ts : List Atom)
      → context.values p ≡ pos 0 ∷ pos 1 ∷ []
      → all (is_known context) ts ≡ true
      → (has_atom ts p (pos 0) || has_atom ts p (pos 1)) ≡ any (λ (t : Atom). t.variable == p) ts
  touches_two p [] e h = refl
  touches_two p (t ∷ ts) e h = elim (Bool-cases (t.variable == p)) [
    | inl k ↦
        let same : t.variable ≡ p = (==_iff t.variable p).0 k in
        let listed : any (eq_ℤ t.value) (context.values p) ≡ true =
          rw same at (listed_value t ts h) in
        rw k (one_of_two (eq_ℤ t.value (pos 0)) (eq_ℤ t.value (pos 1)) _ _ (rw e at listed))
    | inr k ↦ rw k (touches_two p ts e (later_known t ts h))
  ]

  touches :
      (p a : ℕ)
      → any (has_atom (context.required a) p) (context.values p)
        ≡ any (λ (t : Atom). t.variable == p) (context.required a)
  touches p a = elim (binary p) [
    | inl e ↦ rw e (ground (arith, touches_one p (context.required a) e (known a)))
    | inr e ↦ rw e (ground (arith, touches_two p (context.required a) e (known a)))
  ]

  absorb : (b c : Bool) → b ≡ (b || (c && b))
  absorb true c = refl
  absorb false true = refl
  absorb false false = refl

  -- The actions that hold are the done ones, those of the child for the pivot's value and those of the
  -- default child.
  pub holds-split :
      (seen : List Bool) (p a : ℕ)
      → p < length seen
      → get_or seen p false ≡ false
      → holds seen a ≡ (
          action_done context seen a
          || ((needs context seen p (get_value s p) a && holds (set seen p true) a)
              || (ignores context seen p a && holds (set seen p true) a)))
  holds-split seen p a l fresh = elim (Bool-cases (action_done context seen a)) [
    | inl d ↦ rw d (done-fits (get_value s) (context.required a) seen (context.required a) d)
    | inr d ↦ elim (Bool-cases (has_atom (context.required a) p (get_value s p))) [
      | inl k ↦
          rw (d, k)
            (fits-has (get_value s) (context.required a) seen p l fresh (context.required a) k
              ∙ absorb (holds (set seen p true) a)
                  (not (any (has_atom (context.required a) p) (context.values p))))
      | inr k ↦ elim (Bool-cases (any (λ (t : Atom). t.variable == p) (context.required a))) [
        | inl m ↦
            rw (d, k, touches p a, m)
              (fits-missing (get_value s) (context.required a) seen p l fresh (context.required a) k
                m)
        | inr m ↦
            rw (d, k, touches p a, m)
              (fits-untouched (get_value s) (context.required a) seen p l fresh (context.required a)
                m)
      ]
    ]
  ]
