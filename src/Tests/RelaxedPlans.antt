-- ===== src/Tests/RelaxedPlans.antt =====
-- The theorems on relaxed planning graphs (src/heuristics/relaxed_plan/, src/relaxed_state.cxx) at concrete
-- inputs: from variable 1 at 1, an action sets it to 2, and then another makes variable 0 true.
use planner.Prelude.{
  ℕ, ◌≡◌, refl, true, false, List, [], ◌∷◌, Option, some, length, suc, ◌+◌, ◌%◌, ◌^◌, ltb→lt,
}
use planner.Prelude.Int.{pos}
use planner.Prelude.Outcome.{Result, ok, err}
use planner.State.{State, num_atoms, create_indexer, get_value, contains}
use planner.State
use planner.RelaxedPlan.Data.{
  RpgData, seeded, create_data, insert_seed, add, advance_layer, compute_hmax_sum, hmax_sum_from,
}
use planner.RelaxedPlan.Layered.{IsLayered}
use planner.RelaxedPlan.Growth.{Built, Built-IsLayered}
use planner.RelaxedPlan.Extractor.{
  SupportedAction, supported_extractor, propositional_extractor, supported_eq, Extraction,
  compute_relaxed_plan_cost, drain,
}
use planner.RelaxedPlan.Registry.{distinct, in_supporters, in_layer, layers_fit}
use planner.RelaxedPlan.Closure.{open_size}
use planner.RelaxedPlan.Plan.{
  num_entries, AllReached, supported-AllReached, propositional-AllReached,
}
use planner.RelaxedPlan.RelaxedState.{RelaxedState, accumulate_novel}
use planner.RelaxedPlan.Lockstep.{
  Lockstep, started, grown, closed, Lockstep-Built, Represents, Lockstep-Represents,
}
use planner.Tests.{info, atom, hash}

abbrev seed : State
seed = State.create hash (create_indexer info) (atom 0 0 ∷ atom 1 1 ∷ [])

abbrev added_or : RpgData → Result RpgData → RpgData
added_or d (ok d') = d'
added_or d (err thrown) = d

abbrev first_layer : RpgData
first_layer = added_or (seeded seed []) (create_data info seed false)

abbrev two_added : RpgData
two_added = added_or first_layer (add first_layer (atom 1 2) (some 7) (atom 1 1 ∷ []))

abbrev second_layer : RpgData
second_layer = advance_layer two_added

abbrev graph : RpgData
graph = added_or second_layer (add second_layer (atom 0 1) (some 8) (atom 1 2 ∷ []))

abbrev second_state : RelaxedState
second_state = (pos 0 ∷ []) ∷ (pos 1 ∷ pos 2 ∷ []) ∷ []

steps : Lockstep info seed second_state graph
unfolding create_data insert_seed add get_value contains accumulate_novel State.create
    create_indexer
steps =
    grown (atom 0 1) 8 (atom 1 2 ∷ [])
      (closed
        (grown (atom 1 2) 7 (atom 1 1 ∷ []) (started refl) (ltb→lt 1 (num_atoms seed) refl) refl
          refl)
        (ltb→lt (suc two_added.current_layer) (2 ^ 32) refl) refl)
      (ltb→lt 0 (num_atoms seed) refl) refl refl

built : Built info seed graph
built = Lockstep-Built info seed second_state graph steps

Built-IsLayered_example : IsLayered seed graph
Built-IsLayered_example = Built-IsLayered info seed graph built

Lockstep-Represents_example :
    Represents seed second_state graph.effects graph.current_layer
    × ((r : RelaxedState) × (accumulate_novel second_state graph.novel ≡ ok r))
Lockstep-Represents_example = Lockstep-Represents info seed second_state graph steps

supported-AllReached_example :
    (x : Extraction (List SupportedAction)) × (compute_relaxed_plan_cost supported_extractor seed
        graph 5
        (atom 0 1 ∷ [])
      ≡ ok (length x.plan, x))
    × (distinct supported_eq x.plan ≡ true)
    × AllReached seed graph (λ t. in_supporters t x.plan) (atom 0 1 ∷ [])
unfolding create_data insert_seed add get_value State.create create_indexer
supported-AllReached_example =
    supported-AllReached info seed graph (atom 0 1 ∷ []) 5 built
      (ltb→lt (suc graph.current_layer) (2 ^ 32) refl) refl
      (ltb→lt (length (atom 0 1 ∷ []) + open_size graph.effects []) 5 refl)

propositional-AllReached_example :
    (x : Extraction (List (List (Option ℕ)))) × (compute_relaxed_plan_cost propositional_extractor
        seed graph 5
        (atom 0 1 ∷ [])
      ≡ ok (num_entries x.plan % 2 ^ 32, x))
    × (layers_fit graph x.plan ≡ true)
    × AllReached seed graph (λ t. in_layer t x.plan) (atom 0 1 ∷ [])
unfolding create_data insert_seed add get_value State.create create_indexer
propositional-AllReached_example =
    propositional-AllReached info seed graph (atom 0 1 ∷ []) 5 built
      (ltb→lt (suc graph.current_layer) (2 ^ 32) refl) refl
      (ltb→lt (length (atom 0 1 ∷ []) + open_size graph.effects []) 5 refl)

abbrev extraction : Extraction (List SupportedAction)
extraction = record {
  processed = atom 1 2 ∷ atom 0 1 ∷ [];
  relevant = atom 1 1 ∷ atom 1 2 ∷ [];
  plan =
      record { action = some 7; support = atom 1 1 ∷ [] }
      ∷ record { action = some 8; support = atom 1 2 ∷ [] }
      ∷ [];
}

-- The two actions are found, from the goal back to the seed, and the goal has layer 2.
two_actions :
    (compute_relaxed_plan_cost supported_extractor seed graph 5 (atom 0 1 ∷ [])
      ≡ ok (2, extraction))
    × (compute_hmax_sum graph (atom 0 1 ∷ atom 1 2 ∷ atom 1 1 ∷ []) ≡ ok 3)
unfolding compute_relaxed_plan_cost drain create_data insert_seed add get_value contains
    compute_hmax_sum hmax_sum_from State.create create_indexer
two_actions = (refl, refl)
