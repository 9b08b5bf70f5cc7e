-- ===== src/Language/Bind/FormulaValue.antt =====
-- src/languages/fstrips/operations/binding.cxx: how the parts of a bound formula are interpreted.
use planner.Prelude.{
  ℕ, ◌≤◌, ◌≡◌, refl, sym, ap, ◌∙◌, ◌⊎◌, inl, inr, Bool, some, List, [], ◌∷◌, ◌++◌, arith, ◌==◌,
  length, Bool-cases,
}
use planner.Prelude.Int.{ℤ, eq_ℤ}
use planner.Prelude.Outcome.{ok, ◌>>=◌, >>=-eq-ok, Result-cases, ok_injective}
use planner.Info.{ProblemInfo}
use planner.Binding.{Binding}
use planner.Language.Syntax.{
  constant, int_constant, state_variable, nil, cons, eq, Formula, Formulas, tautology,
  contradiction, atomic, conjunction, disjunction, atom_conjunction, negation, existential,
  universal, no_formulas, and_formula, num_formulas,
}
use planner.Language.Builtin.{satisfied}
use planner.Language.Interpret.{
  Assignment, of_state, partial, fetch, interpret_term, interpret_subterms, atoms_hold,
  interpret_formula, interpret_conjuncts, interpret_disjuncts,
}
use planner.Language.Bind.{atom_of, join_conjuncts, join_disjuncts}

-- The pairs X=x of the conjuncts that are of this form.
abbrev pub collect_atoms : Formulas → List (ℕ × ℤ)
collect_atoms no_formulas = []
collect_atoms (and_formula f fs) = atom_of f ++ collect_atoms fs

-- A formula with no quantifiers, whose atom conjunctions keep the pairs of their conjuncts, which are
-- all of the form X=x.
unfoldable mutual
  pub IsQuantifierFree : Formula → Type 0
  IsQuantifierFree (conjunction fs) = AreQuantifierFree fs
  IsQuantifierFree (disjunction fs) = AreQuantifierFree fs
  IsQuantifierFree (atom_conjunction fs atoms) =
      AreQuantifierFree fs × (atoms ≡ collect_atoms fs) × (length atoms ≡ num_formulas fs)
  IsQuantifierFree (negation f) = IsQuantifierFree f
  IsQuantifierFree (existential _ _) = ⊥
  IsQuantifierFree (universal _ _) = ⊥
  IsQuantifierFree _ = Unit

  pub AreQuantifierFree : Formulas → Type 0
  AreQuantifierFree no_formulas = Unit
  AreQuantifierFree (and_formula f fs) = IsQuantifierFree f × AreQuantifierFree fs

module _ (info : ProblemInfo) (a : Assignment) (c : Binding) where
  -- What a conjunct that is a pair X=x is worth.
  atom_cases :
      (f : Formula)
      → (atom_of f ≡ [])
        ⊎ ((v : ℕ) × (x : ℤ) × (atom_of f ≡ (v, x) ∷ [])
            × (interpret_formula info a f c ≡ (do y ← fetch a v; ok (eq_ℤ y x, c))))
  unfolding interpret_formula interpret_term satisfied
  atom_cases (atomic eq (cons (state_variable v _ _) (cons (constant x) nil))) = inr (
    v,
    x,
    refl,
    elim (Result-cases (fetch a v)) [ inl (y, k) ↦ rw k refl | inr (e, k) ↦ rw k refl ],
  )
  atom_cases (atomic eq (cons (state_variable v _ _) (cons (int_constant x) nil))) = inr (
    v,
    x,
    refl,
    elim (Result-cases (fetch a v)) [ inl (y, k) ↦ rw k refl | inr (e, k) ↦ rw k refl ],
  )
  atom_cases _ = inl refl

  collect_atoms-small : (fs : Formulas) → length (collect_atoms fs) ≤ num_formulas fs
  collect_atoms-small no_formulas = omega arith
  collect_atoms-small (and_formula f fs) = elim (atom_cases f) [
    | inl e ↦ rw e (omega (arith, collect_atoms-small fs))
    | inr (v, x, e, _) ↦ rw e (omega (arith, collect_atoms-small fs))
  ]

  interpret_atoms :
      (fs : Formulas)
      → length (collect_atoms fs) ≡ num_formulas fs
      → interpret_conjuncts info a fs c
        ≡ (do holds ← atoms_hold info a (collect_atoms fs); ok (holds, c))
  unfolding interpret_formula atoms_hold
  interpret_atoms no_formulas h = refl
  interpret_atoms (and_formula f fs) h = elim (atom_cases f) [
    | inl e ↦ absurd (
        omega (
          arith,
          collect_atoms-small fs,
          ap length (ap (λ (l : List (ℕ × ℤ)). l ++ collect_atoms fs) e),
        ))
    | inr (v, x, e, k) ↦ elim (Result-cases (fetch a v)) [
      | inr (w, q) ↦ rw (e, k, q) refl
      | inl (y, q) ↦ elim (Bool-cases (eq_ℤ y x)) [
        | inl t ↦
            rw (e, k, q, t)
              (interpret_atoms fs
                (omega (arith, ap length (ap (λ (l : List (ℕ × ℤ)). l ++ collect_atoms fs) e))))
        | inr t ↦ rw (e, k, q, t) refl
      ]
    ]
  ]

pub interpret-atom_conjunction :
    (info : ProblemInfo) (a : Assignment) (c : Binding) (fs : Formulas)
    → length (collect_atoms fs) ≡ num_formulas fs
    → interpret_formula info a (atom_conjunction fs (collect_atoms fs)) c
      ≡ interpret_conjuncts info a fs c
unfolding interpret_formula
interpret-atom_conjunction info (of_state s) c fs h = sym (interpret_atoms info (of_state s) c fs h)
interpret-atom_conjunction info (partial m) c fs h = refl

module _ (info : ProblemInfo) (a : Assignment) (c : Binding) where
  pub interpret-join_conjuncts :
      (fs : Formulas)
      → interpret_formula info a (join_conjuncts (some (fs, collect_atoms fs))) c
        ≡ interpret_conjuncts info a fs c
  unfolding join_conjuncts interpret_formula
  interpret-join_conjuncts no_formulas = refl
  interpret-join_conjuncts (and_formula f fs) =
      elim (Bool-cases
        (num_formulas (and_formula f fs) == length (collect_atoms (and_formula f fs)))) [
          | inl t ↦ rw t (interpret-atom_conjunction info a c (and_formula f fs) (ground arith))
          | inr n ↦ rw n refl
        ]

  pub interpret-join_disjuncts :
      (fs : Formulas)
      → interpret_formula info a (join_disjuncts (some fs)) c ≡ interpret_disjuncts info a fs c
  unfolding join_disjuncts interpret_formula
  interpret-join_disjuncts no_formulas = refl
  interpret-join_disjuncts (and_formula f fs) = refl

  mutual
    unfolding interpret_formula IsQuantifierFree

    -- A formula without quantifiers leaves the binding as it was.
    pub keeps_binding :
        (f : Formula) (v : Bool) (c' : Binding)
        → IsQuantifierFree f
        → interpret_formula info a f c ≡ ok (v, c')
        → c' ≡ c
    keeps_binding tautology v c' q h = ap (λ p. p.1) (sym (ok_injective h))
    keeps_binding contradiction v c' q h = ap (λ p. p.1) (sym (ok_injective h))
    keeps_binding (atomic symbol ts) v c' q h =
        let (xs, _, h') = >>=-eq-ok (interpret_subterms info a ts c) _ h in
        let (t, _, e) = >>=-eq-ok (satisfied symbol xs) _ h' in ap (λ p. p.1) (sym (ok_injective e))
    keeps_binding (conjunction fs) v c' q h = conjuncts_keep_binding fs v c' q h
    keeps_binding (disjunction fs) v c' q h = disjuncts_keep_binding fs v c' q h
    keeps_binding (atom_conjunction fs atoms) v c' (q, e, n) h = conjuncts_keep_binding fs v c' q (
        sym (interpret-atom_conjunction info a c fs (rw (← e) n))
        ∙ ap (λ (l : List (ℕ × ℤ)). interpret_formula info a (atom_conjunction fs l) c) (sym e)
        ∙ h)
    keeps_binding (negation f) v c' q h =
        let ((t, c''), k, e) = >>=-eq-ok (interpret_formula info a f c) _ h in
        ap (λ p. p.1) (sym (ok_injective e)) ∙ keeps_binding f t c'' q k
    keeps_binding (existential _ _) v c' q h = absurd q
    keeps_binding (universal _ _) v c' q h = absurd q

    conjuncts_keep_binding :
        (fs : Formulas) (v : Bool) (c' : Binding)
        → AreQuantifierFree fs
        → interpret_conjuncts info a fs c ≡ ok (v, c')
        → c' ≡ c
    conjuncts_keep_binding no_formulas v c' q h = ap (λ p. p.1) (sym (ok_injective h))
    conjuncts_keep_binding (and_formula f fs) v c' (q, qs) h =
        let ((t, c''), k, e) = >>=-eq-ok (interpret_formula info a f c) _ h in
        let same = keeps_binding f t c'' q k in
        elim (Bool-cases t) [
          | inl p ↦ conjuncts_keep_binding fs v c' qs (rw (p, same) at e)
          | inr p ↦ ap (λ p. p.1) (sym (ok_injective (rw p at e))) ∙ same
        ]

    disjuncts_keep_binding :
        (fs : Formulas) (v : Bool) (c' : Binding)
        → AreQuantifierFree fs
        → interpret_disjuncts info a fs c ≡ ok (v, c')
        → c' ≡ c
    disjuncts_keep_binding no_formulas v c' q h = ap (λ p. p.1) (sym (ok_injective h))
    disjuncts_keep_binding (and_formula f fs) v c' (q, qs) h =
        let ((t, c''), k, e) = >>=-eq-ok (interpret_formula info a f c) _ h in
        let same = keeps_binding f t c'' q k in
        elim (Bool-cases t) [
          | inl p ↦ ap (λ p. p.1) (sym (ok_injective (rw p at e))) ∙ same
          | inr p ↦ disjuncts_keep_binding fs v c' qs (rw (p, same) at e)
        ]
