-- ===== src/Tests/Effects.antt =====
-- The theorems on effects (src/languages/fstrips/effects.cxx) at concrete inputs.
use planner.Prelude.{◌≡◌, ◌⊎◌, refl, true, false, none, some, [], ◌∷◌}
use planner.Prelude.Int.{pos}
use planner.Prelude.Outcome.{ok}
use planner.Binding.{Binding, complete, value}
use planner.Language.Syntax.{
  Term, bound_variable, int_constant, fluent_headed, nil, eq, tautology, is_contradiction,
}
use planner.Language.Builtin.{satisfied}
use planner.Language.Interpret.{
  Assignment, partial, interpret_term, interpret_variable, interpret_subterms, interpret_formula,
}
use planner.Language.Bind.{bind_term, bind_subterms, bind_fluent, bind_atomic, bind_formula}
use planner.Language.Bind.FormulaValue.{IsQuantifierFree}
use planner.Effect.{Effect, is_well_formed, bind_effect}
use planner.Effect.Bound.{Means, bind_effect_lem}
use planner.Tests.{info, counter, compare}

abbrev parameter : Term
parameter = bound_variable (record { id = 0; type = 1 })

abbrev bound : Binding
bound = complete (pos 2 ∷ [])

abbrev nothing_known : Assignment
nothing_known = partial []

-- The counter is set to the parameter, if that is 2.
abbrev assign : Effect
assign = record { lhs = fluent_headed 1 nil; rhs = parameter; condition = compare eq parameter 2 }

assign-Means : Means info nothing_known bound assign true 1 (pos 2)
unfolding interpret_formula interpret_subterms interpret_variable interpret_term satisfied value
assign-Means = record { condition_value = (bound, refl); variable = refl; value = refl }

bind_effect_lem_example :
    ((bind_effect info bound assign ≡ ok none) × (true ≡ false))
    ⊎ ((e' : Effect) × (bind_effect info bound assign ≡ ok (some e'))
        × (is_well_formed e' ≡ true)
        × (is_contradiction e'.condition ≡ false)
        × Means info nothing_known bound e' true 1 (pos 2))
unfolding bind_formula bind_subterms bind_term bind_atomic satisfied value IsQuantifierFree
bind_effect_lem_example =
    bind_effect_lem info nothing_known bound bound refl refl (λ v x h. h) assign tautology true 1
      (pos 2) tt assign-Means refl

-- Bound to 2, the effect sets the counter to 2.
abbrev assign_bound : Effect
assign_bound = record { lhs = counter; rhs = int_constant (pos 2); condition = tautology }

assign_returned : bind_effect info bound assign ≡ ok (some assign_bound)
unfolding bind_effect bind_formula bind_subterms bind_term bind_atomic bind_fluent satisfied value
assign_returned = refl

-- The condition x=1 is false for the value 2 of the parameter, so the effect is pruned.
conditional_pruned :
    bind_effect info bound
      (record { lhs = counter; rhs = parameter; condition = compare eq parameter 1 })
    ≡ ok none
unfolding bind_effect bind_formula bind_term bind_subterms bind_atomic value satisfied
conditional_pruned = refl
