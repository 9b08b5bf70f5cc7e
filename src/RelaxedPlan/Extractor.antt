-- ===== src/RelaxedPlan/Extractor.antt =====
-- src/heuristics/relaxed_plan/relaxed_plan_extractor.hxx: the extraction of a relaxed plan, going back from
-- the goal atoms to the atoms that support them.
use planner.Prelude.{
  ℕ, zero, suc, ◌+◌, ◌%◌, ◌^◌, Bool, true, false, ◌&&◌, List, [], ◌∷◌, ◌++◌, Option, none, some,
  ◌==◌, ltb, any, length, get_or, set, replicate, list_eq, if◌then◌else◌,
}
use planner.Prelude.Outcome.{Result, ok, err, undefined, out_of_fuel, ◌>>=◌}
use planner.Atom.{Atom, eq}
use planner.State.{State, contains}
use planner.RelaxedPlan.Data.{AtomSupport, RpgData, num_layers, atom_support}

-- Insertion into a set of items that are compared by `same`.
abbrev pub insert_new {ℓ} : {A : Type ℓ} → (A → A → Bool) → A → List A → List A
insert_new same x xs = if any (same x) xs then xs else x ∷ xs

-- Equality of addresses.
abbrev pub action_eq : Option ℕ → Option ℕ → Bool
action_eq none none = true
action_eq none (some b) = false
action_eq (some a) none = false
action_eq (some a) (some b) = a == b

pub record SupportedAction : Type 0 where
  pub action : Option ℕ
  pub support : List Atom

-- `operator==` of `SupportedAction`
abbrev pub supported_eq : SupportedAction → SupportedAction → Bool
supported_eq a b = action_eq a.action b.action && list_eq eq a.support b.support

-- A subclass of `BaseRelaxedPlanExtractor`: its plan so far, `registerPlanAction`, `buildRelaxedPlan`.
pub record PlanRegistry {ℓ} (R : Type ℓ) : Type ℓ where
  pub start : RpgData → R
  pub register : AtomSupport → R → Result R
  pub cost : R → ℕ

-- `SupportedRelaxedPlanExtractor`: the set of the actions with their supports.
abbrev pub supported_extractor : PlanRegistry (List SupportedAction)
supported_extractor = record {
  start = λ d. [];
  register = λ t supporters.
      ok (insert_new supported_eq (record { action = t.action; support = t.support }) supporters);
  cost = λ supporters. length supporters;
}

-- `perLayerSupporters[layer].insert(action)`
abbrev pub register_in_layer :
    AtomSupport → List (List (Option ℕ)) → Result (List (List (Option ℕ)))
register_in_layer t layers =
    if ltb t.layer (length layers)
    then ok (set layers t.layer (insert_new action_eq t.action (get_or layers t.layer [])))
    else err undefined

-- The loop of `buildRelaxedPlan`, from the size so far, which is an `unsigned`
abbrev pub layers_size_from : ℕ → List (List (Option ℕ)) → ℕ
layers_size_from size [] = size
layers_size_from size (layer ∷ layers) = layers_size_from ((size + length layer) % 2 ^ 32) layers

abbrev pub layers_size : List (List (Option ℕ)) → ℕ
layers_size layers = layers_size_from 0 layers

-- `PropositionalRelaxedPlanExtractor`: a set of actions for each layer.
abbrev pub propositional_extractor : PlanRegistry (List (List (Option ℕ)))
propositional_extractor = record {
  start = λ d. replicate (num_layers d) [];
  register = register_in_layer;
  cost = layers_size;
}

-- The members of `BaseRelaxedPlanExtractor` but the queue.
pub record Extraction {ℓ} (R : Type ℓ) : Type ℓ where
  pub processed : List Atom
  pub relevant : List Atom
  pub plan : R

-- `mark_as_relevant`
abbrev pub mark_as_relevant : List Atom → List Atom → List Atom
mark_as_relevant [] relevant = relevant
mark_as_relevant (a ∷ atoms) relevant = mark_as_relevant atoms (insert_new eq a relevant)

module _ {ℓ} {R : Type ℓ} (subclass : PlanRegistry R) (seed : State) (graph : RpgData) where
  -- `processAtom`, for the queue `pending`
  abbrev pub process_atom : Atom → List Atom → Extraction R → Result (List Atom × Extraction R)
  process_atom a pending x =
      if contains seed a
      then ok (pending, x)
      else if any (eq a) x.processed
      then ok (pending, x)
      else (atom_support graph a >>= (λ t. subclass.register t x.plan >>= (λ plan. ok (
        pending ++ t.support,
        record {
          processed = insert_new eq a x.processed;
          relevant = mark_as_relevant t.support x.relevant;
          plan = plan;
        },
      ))))

  -- `pop`
  abbrev pub pop : List Atom → List Atom
  pop [] = []
  pop (a ∷ pending) = pending

  -- The loop of `computeRelaxedPlanCost`: the front is processed and then removed.
  unfoldable pub drain : ℕ → List Atom → Extraction R → Result (Extraction R)
  drain zero pending x = err out_of_fuel
  drain (suc fuel) [] x = ok x
  drain (suc fuel) (a ∷ pending) x =
      process_atom a (a ∷ pending) x >>= (λ r. drain fuel (pop r.0) r.1)

  abbrev pub start_extraction : Extraction R
  start_extraction = record { processed = []; relevant = []; plan = subclass.start graph }

  -- `computeRelaxedPlanCost`, and the members it leaves behind
  unfoldable pub compute_relaxed_plan_cost : ℕ → List Atom → Result (ℕ × Extraction R)
  unfolding drain
  compute_relaxed_plan_cost fuel goal_atoms =
      drain fuel goal_atoms start_extraction >>= (λ x. ok (subclass.cost x.plan, x))
