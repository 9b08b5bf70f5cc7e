-- ===== src/Language/Bind/FormulaTruth.antt =====
-- src/languages/fstrips/operations/binding.cxx: the truth of a formula before and after binding.
use planner.Prelude.{ℕ, ◌≡◌, sym, ap, ◌∙◌, inl, inr, Bool, Option, List, Bool-cases}
use planner.Prelude.Int.{ℤ}
use planner.Prelude.Outcome.{ok, >>=-eq-ok, ok_injective}
use planner.Info.{ProblemInfo}
use planner.Binding.{Binding}
use planner.Binding.Laws.{IsWellFormed}
use planner.Language.Syntax.{
  Formula, Formulas, tautology, contradiction, atomic, conjunction, disjunction, atom_conjunction,
  negation, existential, universal, no_formulas, and_formula,
}
use planner.Language.Builtin.{satisfied}
use planner.Language.Interpret.{
  Assignment, interpret_subterms, interpret_formula, interpret_conjuncts, interpret_disjuncts,
}
use planner.Language.Bind.{
  bind_subterms, join_conjuncts, join_disjuncts, bind_formula, bind_conjuncts, bind_disjuncts,
}
use planner.Language.Bind.TermValue.{Extends, subterms_value}
use planner.Language.Bind.FormulaValue.{
  IsQuantifierFree, AreQuantifierFree, keeps_binding, interpret-atom_conjunction,
}
use planner.Language.Bind.BoundParts.{
  decided_cases, ConjunctsValue, DisjunctsValue, join_conjuncts_value, join_disjuncts_value,
  bind_conjuncts_collected, same_truth, tautology_value, contradiction_value, true_conjunct,
  false_conjunct, false_disjunct, true_disjunct, bind_atomic_value,
}

module _ (info : ProblemInfo) (a : Assignment) (b c : Binding) (hb : IsWellFormed b)
    (hc : IsWellFormed c) (extends : Extends b c) where
  mutual
    unfolding interpret_formula bind_formula IsQuantifierFree

    formula_truth :
        (f f' : Formula) (v : Bool) (c' : Binding)
        → IsQuantifierFree f
        → interpret_formula info a f c ≡ ok (v, c')
        → bind_formula info b f ≡ ok f'
        → interpret_formula info a f' c ≡ ok (v, c)
    formula_truth tautology f' v c' q h e =
        same_truth info a b c hb hc extends tautology f' v e
          (ap (λ p. ok (p.0, c)) (ok_injective h))
    formula_truth contradiction f' v c' q h e =
        same_truth info a b c hb hc extends contradiction f' v e
          (ap (λ p. ok (p.0, c)) (ok_injective h))
    formula_truth (atomic symbol ts) f' v c' q h e =
        let (xs, hs, h') = >>=-eq-ok (interpret_subterms info a ts c) _ h in
        let (w, hw, h'') = >>=-eq-ok (satisfied symbol xs) _ h' in
        let (bound, es, e') = >>=-eq-ok (bind_subterms info b ts) _ e in
        bind_atomic_value info a b c hb hc extends symbol bound f' xs v
          (subterms_value info a b c hb hc extends ts bound xs hs es)
          (hw ∙ ap (λ p. ok p.0) (ok_injective h'')) e'
    formula_truth (conjunction fs) f' v c' q h e =
        let (r, g, e') = >>=-eq-ok (bind_conjuncts info b fs) _ e in
        same_truth info a b c hb hc extends (join_conjuncts r) f' v e' (
          join_conjuncts_value info a b c hb hc extends r v
            (bind_conjuncts_collected info a b c hb hc extends fs r g)
            (conjuncts_value fs r v c' q h g))
    formula_truth (disjunction fs) f' v c' q h e =
        let (r, g, e') = >>=-eq-ok (bind_disjuncts info b fs) _ e in
        same_truth info a b c hb hc extends (join_disjuncts r) f' v e'
          (join_disjuncts_value info a b c hb hc extends r v (disjuncts_value fs r v c' q h g))
    formula_truth (atom_conjunction fs atoms) f' v c' (q, p, n) h e =
        let (r, g, e') = >>=-eq-ok (bind_conjuncts info b fs) _ e in
        same_truth info a b c hb hc extends (join_conjuncts r) f' v e' (
          join_conjuncts_value info a b c hb hc extends r v
            (bind_conjuncts_collected info a b c hb hc extends fs r g)
            (conjuncts_value fs r v c' q
              (sym (interpret-atom_conjunction info a c fs (rw (← p) n))
                ∙ ap (λ (l : List (ℕ × ℤ)). interpret_formula info a (atom_conjunction fs l) c)
                    (sym p)
                ∙ h)
              g))
    formula_truth (negation f) f' v c' q h e = absurd (cc e)
    formula_truth (existential _ _) f' v c' q h e = absurd q
    formula_truth (universal _ _) f' v c' q h e = absurd q

    conjuncts_value :
        (fs : Formulas) (r : Option (Formulas × List (ℕ × ℤ))) (v : Bool) (c' : Binding)
        → AreQuantifierFree fs
        → interpret_conjuncts info a fs c ≡ ok (v, c')
        → bind_conjuncts info b fs ≡ ok r
        → ConjunctsValue info a b c hb hc extends r v
    conjuncts_value no_formulas r v c' q h e =
        rw (← ok_injective e) (ap (λ p. ok (p.0, c)) (ok_injective h))
    conjuncts_value (and_formula f fs) r v c' (q, qs) h e =
        let ((t, c''), k, h') = >>=-eq-ok (interpret_formula info a f c) _ h in
        let (f', g, e') = >>=-eq-ok (bind_formula info b f) _ e in
        let same = keeps_binding info a c f t c'' q k in
        let ih = formula_truth f f' t c'' q k g in
        elim (decided_cases f') [
          | inl d ↦
              conjuncts_value fs r v c' qs
                (rw (tautology_value info a b c hb hc extends f' t d ih, same) at h') (rw d at e')
          | inr (inl d) ↦ rw (← ok_injective (rw d at e')) (
              ap (λ p. p.0)
                (ok_injective
                  (sym (rw (contradiction_value info a b c hb hc extends f' t d ih) at h'))))
          | inr (inr (d, d')) ↦
              let (rest, g', e'') = >>=-eq-ok (bind_conjuncts info b fs) _ (rw (d, d') at e') in
              rw (← ok_injective e'') (elim (Bool-cases t) [
                | inl p ↦
                    true_conjunct info a b c hb hc extends f' rest v (rw p at ih)
                      (conjuncts_value fs rest v c' qs (rw (p, same) at h') g')
                | inr p ↦
                    rw (ap (λ p. p.0) (ok_injective (sym (rw p at h'))))
                      (false_conjunct info a b c hb hc extends f' rest (rw p at ih))
              ])
        ]

    disjuncts_value :
        (fs : Formulas) (r : Option Formulas) (v : Bool) (c' : Binding)
        → AreQuantifierFree fs
        → interpret_disjuncts info a fs c ≡ ok (v, c')
        → bind_disjuncts info b fs ≡ ok r
        → DisjunctsValue info a b c hb hc extends r v
    disjuncts_value no_formulas r v c' q h e =
        rw (← ok_injective e) (ap (λ p. ok (p.0, c)) (ok_injective h))
    disjuncts_value (and_formula f fs) r v c' (q, qs) h e =
        let ((t, c''), k, h') = >>=-eq-ok (interpret_formula info a f c) _ h in
        let (f', g, e') = >>=-eq-ok (bind_formula info b f) _ e in
        let same = keeps_binding info a c f t c'' q k in
        let ih = formula_truth f f' t c'' q k g in
        elim (decided_cases f') [
          | inl d ↦ rw (← ok_injective (rw d at e')) (
              ap (λ p. p.0)
                (ok_injective
                  (sym (rw (tautology_value info a b c hb hc extends f' t d ih) at h'))))
          | inr (inl d) ↦
              disjuncts_value fs r v c' qs
                (rw (contradiction_value info a b c hb hc extends f' t d ih, same) at h')
                (rw d at e')
          | inr (inr (d, d')) ↦
              let (rest, g', e'') = >>=-eq-ok (bind_disjuncts info b fs) _ (rw (d, d') at e') in
              rw (← ok_injective e'') (elim (Bool-cases t) [
                | inl p ↦
                    rw (ap (λ p. p.0) (ok_injective (sym (rw p at h'))))
                      (true_disjunct info a b c hb hc extends f' rest (rw p at ih))
                | inr p ↦
                    false_disjunct info a b c hb hc extends f' rest v (rw p at ih)
                      (disjuncts_value fs rest v c' qs (rw (p, same) at h') g')
              ])
        ]

  -- Binding keeps the truth of a formula without quantifiers: if the formula evaluates to v under a
  -- well-formed binding c, and it is bound under a well-formed binding b that c extends, then the
  -- bound formula evaluates to v under c as well, and leaves c as it is.
  pub interpret_formula-bind_formula :
      (f f' : Formula) (v : Bool) (c' : Binding)
      → IsQuantifierFree f
      → interpret_formula info a f c ≡ ok (v, c')
      → bind_formula info b f ≡ ok f'
      → interpret_formula info a f' c ≡ ok (v, c)
  interpret_formula-bind_formula f f' v c' q h e = formula_truth f f' v c' q h e
