-- ===== src/Effect.antt =====
-- src/languages/fstrips/effects.hxx and effects.cxx: the effects of an action.
pub mod Bound
use planner.Prelude.{ℕ, Bool, true, false, not, Option, none, some, [], ◌∷◌, if◌then◌else◌}
use planner.Prelude.Int.{pos, eq_ℤ}
use planner.Prelude.Outcome.{
  Result, ok, err, runtime_error, out_of_range, unimplemented, undefined, out_of_fuel, ◌>>=◌,
}
use planner.Atom.{Atom}
use planner.Info.{ProblemInfo, is_predicate}
use planner.State.{State}
use planner.Binding.{Binding, empty_binding}
use planner.Language.Syntax.{Term, state_variable, fluent_headed, Formula, is_contradiction}
use planner.Language.Interpret.{of_state, interpret_term, interpret_variable, interpret_sentence}
use planner.Language.Bind.{constant_value, bind_term, bind_formula}

-- `ActionEffect`: condition --> lhs := rhs
pub record Effect : Type 0 where
  pub lhs : Term
  pub rhs : Term
  pub condition : Formula

-- `isWellFormed`: the left-hand side is a state variable or a fluent function.
abbrev pub is_well_formed : Effect → Bool
is_well_formed e = elim e.lhs [ state_variable _ _ _ ↦ true | fluent_headed _ _ ↦ true | _ ↦ false ]

-- The constructor
abbrev pub make_effect : Term → Term → Formula → Result Effect
make_effect lhs rhs condition =
    let e : Effect = record { lhs = lhs; rhs = rhs; condition = condition } in
    if not (is_well_formed e) then err runtime_error else ok e

-- `lhs()->getSymbolId()` of a left-hand side that has a symbol
abbrev symbol_of : Term → Option ℕ
symbol_of (state_variable _ symbol _) = some symbol
symbol_of (fluent_headed symbol _) = some symbol
symbol_of _ = none

-- What a constructor call comes to, as the pointer that `bind` returns.
abbrev pub new_effect : Result Effect → Result (Option Effect)
new_effect (ok e) = ok (some e)
new_effect (err x) = err x

module _ (info : ProblemInfo) where
  -- `ActionEffect::apply`
  unfoldable pub apply : State → Effect → Result Atom
  apply s e = do
    v ← interpret_variable info (of_state s) e.lhs empty_binding
    x ← interpret_term info (of_state s) e.rhs empty_binding
    ok (record { variable = v; value = x })

  -- `ActionEffect::applicable`
  unfoldable pub applicable : State → Effect → Result Bool
  applicable s e = interpret_sentence info (of_state s) e.condition

  -- The rest of `ActionEffect::bind`, once the left-hand side is bound: an out_of_range there prunes
  -- the effect, and any other exception goes on to the caller.
  abbrev pub bind_sides : Binding → Effect → Formula → Result Term → Result (Option Effect)
  bind_sides b e condition (err out_of_range) = ok none
  bind_sides b e condition (err runtime_error) = err runtime_error
  bind_sides b e condition (err unimplemented) = err unimplemented
  bind_sides b e condition (err undefined) = err undefined
  bind_sides b e condition (err out_of_fuel) = err out_of_fuel
  bind_sides b e condition (ok lhs) = do
    rhs ← bind_term info b e.rhs
    new_effect (make_effect lhs rhs condition)

  -- `ActionEffect::bind`; `none` is the null pointer of a pruned effect.
  unfoldable pub bind_effect : Binding → Effect → Result (Option Effect)
  bind_effect b e = do
    condition ← bind_formula info b e.condition
    if is_contradiction condition
        then ok none
        else bind_sides b e condition (bind_term info b e.lhs)

  -- `is_predicative`
  unfoldable pub is_predicative : Effect → Result Bool
  is_predicative e = elim (symbol_of e.lhs) [
    | some symbol ↦ is_predicate info symbol
    | none ↦ ok false
  ]

  -- `is_del`: a predicative effect with value 0. That its right-hand side is a constant is asserted.
  unfoldable pub is_del : Effect → Result Bool
  unfolding is_predicative
  is_del e = do
    predicative ← is_predicative e
    if not predicative
        then ok false
        else elim (constant_value e.rhs) [ x ∷ _ ↦ ok (eq_ℤ x (pos 0)) | [] ↦ err undefined ]

  -- `is_add`
  unfoldable pub is_add : Effect → Result Bool
  unfolding is_del
  is_add e = do
    predicative ← is_predicative e
    if not predicative then ok false else (do deletes ← is_del e; ok (not deletes))
