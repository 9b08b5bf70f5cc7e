-- ===== src/Language/Bind/BoundParts.antt =====
-- src/languages/fstrips/operations/binding.cxx: the truth of a bound formula, from that of its parts.
use planner.Prelude.{
  ℕ, ◌≡◌, refl, sym, ap, ◌∙◌, ◌⊎◌, inl, inr, Bool, true, false, Option, none, some, List, ◌++◌,
  arith, ◌==◌, length, if◌then◌else◌, Bool-cases,
}
use planner.Prelude.Int.{ℤ}
use planner.Prelude.Outcome.{ok, >>=-eq-ok, ok_injective}
use planner.Info.{ProblemInfo}
use planner.Binding.{Binding}
use planner.Binding.Laws.{IsWellFormed}
use planner.Language.Syntax.{
  Terms, num_terms, Symbol, Formula, Formulas, tautology, contradiction, atomic, no_formulas,
  and_formula, is_tautology, is_contradiction,
}
use planner.Language.Builtin.{satisfied}
use planner.Language.Interpret.{
  Assignment, interpret_formula, interpret_conjuncts, interpret_disjuncts,
}
use planner.Language.Bind.{
  atom_of, bind_atomic, add_conjunct, add_disjunct, join_conjuncts, join_disjuncts, bind_formula,
  bind_conjuncts,
}
use planner.Language.Bind.TermValue.{Extends, AgreesWith}
use planner.Language.Bind.FormulaValue.{
  collect_atoms, interpret-join_conjuncts, interpret-join_disjuncts,
}

-- What a bound formula can be.
pub decided_cases :
    (f : Formula)
    → (f ≡ tautology)
      ⊎ (f ≡ contradiction)
      ⊎ ((is_tautology f ≡ false) × (is_contradiction f ≡ false))
decided_cases tautology = inl refl
decided_cases contradiction = inr (inl refl)
decided_cases _ = inr (inr (refl, refl))

-- The pairs X=x collected from the bound conjuncts.
abbrev pub AreCollected : Option (Formulas × List (ℕ × ℤ)) → Type 0
AreCollected none = Unit
AreCollected (some (fs, atoms)) = atoms ≡ collect_atoms fs

module _ (info : ProblemInfo) (a : Assignment) (b c : Binding) (hb : IsWellFormed b)
    (hc : IsWellFormed c) (extends : Extends b c) where
  abbrev pub ConjunctsValue : Option (Formulas × List (ℕ × ℤ)) → Bool → Type 0
  ConjunctsValue none v = v ≡ false
  ConjunctsValue (some (fs, atoms)) v = interpret_conjuncts info a fs c ≡ ok (v, c)

  abbrev pub DisjunctsValue : Option Formulas → Bool → Type 0
  DisjunctsValue none v = v ≡ true
  DisjunctsValue (some fs) v = interpret_disjuncts info a fs c ≡ ok (v, c)

  pub join_conjuncts_value :
      (r : Option (Formulas × List (ℕ × ℤ))) (v : Bool)
      → AreCollected r
      → ConjunctsValue r v
      → interpret_formula info a (join_conjuncts r) c ≡ ok (v, c)
  unfolding join_conjuncts interpret_formula
  join_conjuncts_value none v e h = rw h refl
  join_conjuncts_value (some (fs, atoms)) v e h = rw e (interpret-join_conjuncts info a c fs ∙ h)

  pub join_disjuncts_value :
      (r : Option Formulas) (v : Bool)
      → DisjunctsValue r v
      → interpret_formula info a (join_disjuncts r) c ≡ ok (v, c)
  unfolding join_disjuncts interpret_formula
  join_disjuncts_value none v h = rw h refl
  join_disjuncts_value (some fs) v h = interpret-join_disjuncts info a c fs ∙ h

  pub add_conjunct_collected :
      (f : Formula) (r : Option (Formulas × List (ℕ × ℤ)))
      → AreCollected r
      → AreCollected (add_conjunct f r)
  add_conjunct_collected f none h = tt
  add_conjunct_collected f (some (fs, atoms)) h = ap (λ (l : List (ℕ × ℤ)). atom_of f ++ l) h

  pub bind_conjuncts_collected :
      (fs : Formulas) (r : Option (Formulas × List (ℕ × ℤ)))
      → bind_conjuncts info b fs ≡ ok r
      → AreCollected r
  unfolding bind_formula
  bind_conjuncts_collected no_formulas r h = rw (← ok_injective h) refl
  bind_conjuncts_collected (and_formula f fs) r h =
      let (f', _, e) = >>=-eq-ok (bind_formula info b f) _ h in
      elim (Bool-cases (is_tautology f')) [
        | inl t ↦ bind_conjuncts_collected fs r (rw t at e)
        | inr t ↦ elim (Bool-cases (is_contradiction f')) [
          | inl k ↦ rw (← ok_injective (rw (t, k) at e)) tt
          | inr k ↦
              let (rest, g, e') = >>=-eq-ok (bind_conjuncts info b fs) _ (rw (t, k) at e) in
              rw (← ok_injective e')
                (add_conjunct_collected f' rest (bind_conjuncts_collected fs rest g))
        ]
      ]

  pub same_truth :
      (f g : Formula) (v : Bool)
      → ok f ≡ ok g
      → interpret_formula info a f c ≡ ok (v, c)
      → interpret_formula info a g c ≡ ok (v, c)
  same_truth f g v e h =
      ap (λ (k : Formula). interpret_formula info a k c) (sym (ok_injective e)) ∙ h

  pub decided_value :
      (v : Bool) → interpret_formula info a (if v then tautology else contradiction) c ≡ ok (v, c)
  unfolding interpret_formula
  decided_value true = refl
  decided_value false = refl

  pub tautology_value :
      (f : Formula) (v : Bool) → f ≡ tautology → interpret_formula info a f c ≡ ok (v, c) → v ≡ true
  unfolding interpret_formula
  tautology_value f v e h = ap (λ p. p.0) (ok_injective (sym (rw e at h)))

  pub contradiction_value :
      (f : Formula) (v : Bool)
      → f ≡ contradiction
      → interpret_formula info a f c ≡ ok (v, c)
      → v ≡ false
  unfolding interpret_formula
  contradiction_value f v e h = ap (λ p. p.0) (ok_injective (sym (rw e at h)))

  pub true_conjunct :
      (f : Formula) (r : Option (Formulas × List (ℕ × ℤ))) (v : Bool)
      → interpret_formula info a f c ≡ ok (true, c)
      → ConjunctsValue r v
      → ConjunctsValue (add_conjunct f r) v
  unfolding interpret_formula
  true_conjunct f none v h k = k
  true_conjunct f (some (fs, atoms)) v h k = rw h k

  pub false_conjunct :
      (f : Formula) (r : Option (Formulas × List (ℕ × ℤ)))
      → interpret_formula info a f c ≡ ok (false, c)
      → ConjunctsValue (add_conjunct f r) false
  unfolding interpret_formula
  false_conjunct f none h = refl
  false_conjunct f (some (fs, atoms)) h = rw h refl

  pub false_disjunct :
      (f : Formula) (r : Option Formulas) (v : Bool)
      → interpret_formula info a f c ≡ ok (false, c)
      → DisjunctsValue r v
      → DisjunctsValue (add_disjunct f r) v
  unfolding interpret_formula
  false_disjunct f none v h k = k
  false_disjunct f (some fs) v h k = rw h k

  pub true_disjunct :
      (f : Formula) (r : Option Formulas)
      → interpret_formula info a f c ≡ ok (true, c)
      → DisjunctsValue (add_disjunct f r) true
  unfolding interpret_formula
  true_disjunct f none h = refl
  true_disjunct f (some fs) h = rw h refl

  pub bind_atomic_value :
      (symbol : Symbol) (bound : Terms × List ℤ) (f : Formula) (xs : List ℤ) (v : Bool)
      → AgreesWith info a b c hb hc extends bound xs
      → satisfied symbol xs ≡ ok v
      → bind_atomic symbol bound ≡ ok f
      → interpret_formula info a f c ≡ ok (v, c)
  unfolding bind_atomic interpret_formula
  bind_atomic_value symbol (ts, constants) f xs v (hs, small, agree) hv e =
      elim (Bool-cases (length constants == num_terms ts)) [
        | inl full ↦
            same_truth (if v then tautology else contradiction) f v
              (rw (full, agree (ground arith), hv) at e) (decided_value v)
        | inr part ↦ same_truth (atomic symbol ts) f v (rw part at e) (rw (hs, hv) refl)
      ]
