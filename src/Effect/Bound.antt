-- ===== src/Effect/Bound.antt =====
-- src/languages/fstrips/effects.cxx: what binding an effect comes to.
use planner.Prelude.{◌≡◌, ◌⊎◌, inl, inr, refl, ℕ, Bool, true, false, none, some, Bool-cases}
use planner.Prelude.Int.{ℤ}
use planner.Prelude.Outcome.{ok}
use planner.Info.{ProblemInfo}
use planner.Binding.{Binding}
use planner.Binding.Laws.{IsWellFormed}
use planner.Language.Syntax.{Term, state_variable, fluent_headed, Formula, is_contradiction}
use planner.Language.Interpret.{Assignment, interpret_term, interpret_variable, interpret_formula}
use planner.Language.Bind.{bind_formula}
use planner.Language.Bind.TermValue.{Extends, interpret_term-bind_term}
use planner.Language.Bind.FormulaValue.{IsQuantifierFree}
use planner.Language.Bind.BoundParts.{decided_cases, contradiction_value}
use planner.Language.Bind.FormulaTruth.{interpret_formula-bind_formula}
use planner.Language.Bind.Returns.{bind_term_returns, bind_variable_returns}
use planner.Effect.{Effect, is_well_formed, make_effect, bind_effect}

module _ (info : ProblemInfo) (a : Assignment) where
  -- A left-hand side that stands for a variable makes a well-formed effect.
  make_effect_ok :
      (lhs rhs : Term) (condition : Formula) (c : Binding) (v : ℕ)
      → interpret_variable info a lhs c ≡ ok v
      → (make_effect lhs rhs condition
          ≡ ok (record { lhs = lhs; rhs = rhs; condition = condition }))
        × (is_well_formed (record { lhs = lhs; rhs = rhs; condition = condition }) ≡ true)
  unfolding interpret_variable
  make_effect_ok (state_variable _ _ _) rhs condition c v h = (refl, refl)
  make_effect_ok (fluent_headed _ _) rhs condition c v h = (refl, refl)
  make_effect_ok _ rhs condition c v h = absurd (cc h)

  -- The effect e, under the binding c, sets the variable v to x if `holds`.
  pub record Means (c : Binding) (e : Effect) (holds : Bool) (v : ℕ) (x : ℤ) : Type 0 where
    pub condition_value : (c' : Binding) × (interpret_formula info a e.condition c ≡ ok (holds, c'))
    pub variable : interpret_variable info a e.lhs c ≡ ok v
    pub value : interpret_term info a e.rhs c ≡ ok x

  module _ (b c : Binding) (hb : IsWellFormed b) (hc : IsWellFormed c) (extends : Extends b c) where
    -- If an effect, whose condition has no quantifiers, sets the variable v to x under a well-formed binding
    -- c, or would if its condition held, and its condition can be bound under a well-formed binding b that c
    -- extends, then binding the effect under b returns. Either the effect is pruned, and its condition does
    -- not hold under c; or the bound effect is well-formed, its condition is not a contradiction, and under c
    -- it sets v to x on the same condition.
    pub bind_effect_lem :
        (e : Effect) (condition : Formula) (holds : Bool) (v : ℕ) (x : ℤ)
        → IsQuantifierFree e.condition
        → Means c e holds v x
        → bind_formula info b e.condition ≡ ok condition
        → ((bind_effect info b e ≡ ok none) × (holds ≡ false))
          ⊎ ((e' : Effect) × (bind_effect info b e ≡ ok (some e'))
              × (is_well_formed e' ≡ true)
              × (is_contradiction e'.condition ≡ false)
              × Means c e' holds v x)
    unfolding bind_effect
    bind_effect_lem e condition holds v x q means bound =
        let (c', h) = means.condition_value in
        let truth =
          interpret_formula-bind_formula info a b c hb hc extends e.condition condition holds c' q h
            bound in
        elim (Bool-cases (is_contradiction condition)) [
          | inl t ↦ inl (rw (bound, t) refl, contradiction_holds condition holds t truth)
          | inr t ↦
              let (lhs, el, variable) =
                bind_variable_returns info a b c hb hc extends e.lhs v means.variable in
              let (rhs, er) = bind_term_returns info a b c hb hc extends e.rhs x means.value in
              let (made, well_formed) = make_effect_ok lhs rhs condition c v variable in
              inr (
                record { lhs = lhs; rhs = rhs; condition = condition },
                rw (bound, t, el, er, made) refl,
                well_formed,
                t,
                record {
                  condition_value = (c, truth);
                  variable = variable;
                  value =
                      interpret_term-bind_term info a b c hb hc extends e.rhs rhs x means.value er;
                },
              )
        ]
      where
        contradiction_holds :
            (f : Formula) (w : Bool)
            → is_contradiction f ≡ true
            → interpret_formula info a f c ≡ ok (w, c)
            → w ≡ false
        contradiction_holds f w t k = elim (decided_cases f) [
          | inl d ↦ absurd (cc (rw d at t))
          | inr (inl d) ↦ contradiction_value info a b c hb hc extends f w d k
          | inr (inr (_, never)) ↦ absurd (cc (t, never))
        ]
