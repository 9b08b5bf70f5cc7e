-- ===== src/RelaxedPlan/Plan.antt =====
-- What a relaxed plan of src/heuristics/relaxed_plan/relaxed_plan_extractor.hxx is good for: its actions
-- reach every goal atom from the seed state.
use planner.Prelude.{
  ℕ, zero, suc, ◌+◌, ◌%◌, ◌^◌, ◌≤◌, ◌<◌, ◌≡◌, ◌∙◌, ap, refl, inl, inr, Bool, true, List, [], ◌∷◌,
  Option, some, arith, all, length, Bool-cases, ltb→lt,
}
use mathlib.Core.Path.{subst}
use planner.Prelude.Outcome.{ok}
use planner.Atom.{Atom}
use planner.Info.{ProblemInfo}
use planner.State.{State, contains}
use planner.RelaxedPlan.Data.{AtomSupport, find, has, RpgData}
use planner.RelaxedPlan.Lookup.{
  reached_before, reached_before-find, reached_before-le, find-reached_before, has-find, all-find,
}
use planner.RelaxedPlan.Layered.{IsLayered, entry_founded, founded-le, all_congr}
use planner.RelaxedPlan.Growth.{Built, Built-IsLayered}
use planner.RelaxedPlan.Extractor.{
  SupportedAction, PlanRegistry, supported_eq, supported_extractor, propositional_extractor,
  layers_size_from, layers_size, Extraction, compute_relaxed_plan_cost, start_extraction,
}
use planner.RelaxedPlan.Registry.{
  RegistryLaws, distinct, in_supporters, supported_laws, in_layer, layers_fit, propositional_laws,
}
use planner.RelaxedPlan.Closure.{settled, is_some, explained, open_size, any-eq-all, settled-pushed}
use planner.RelaxedPlan.Drain.{founded-action, Tracks, drain-Ends}

-- The atoms that are reached from the seed by the supports that a test admits: those of the seed, and those
-- that the graph gets by an admitted action from atoms that are all reached.
mutual
  pub data Reaches (s : State) (graph : RpgData) (admits : AtomSupport → Bool) : Atom → Type 0 where
    in_seed : (a : Atom) → contains s a ≡ true → Reaches s graph admits a
    by_action :
        (a : Atom) (t : AtomSupport)
        → find graph.effects a ≡ some t
        → is_some t.action ≡ true
        → admits t ≡ true
        → AllReached s graph admits t.support
        → Reaches s graph admits a

  pub data AllReached (s : State) (graph : RpgData) (admits : AtomSupport → Bool)
      : List Atom → Type 0 where
    no_atoms : AllReached s graph admits []
    and_atom :
        (a : Atom) (atoms : List Atom)
        → Reaches s graph admits a
        → AllReached s graph admits atoms
        → AllReached s graph admits (a ∷ atoms)

module _ (s : State) (graph : RpgData) (layered : IsLayered s graph) (admits : AtomSupport → Bool)
    (processed : List Atom)
    (closed : all (λ a. explained admits s processed [] (find graph.effects a)) processed
      ≡ true) where
  AllReached-all :
      (n : ℕ)
      → ((a : Atom)
          → settled s processed [] a ≡ true
          → reached_before graph.effects n a ≡ true
          → Reaches s graph admits a)
      → (atoms : List Atom) → all (settled s processed []) atoms ≡ true
      → all (reached_before graph.effects n) atoms ≡ true
      → AllReached s graph admits atoms
  AllReached-all n f [] h k = no_atoms
  AllReached-all n f (a ∷ atoms) h k =
      and_atom a atoms (f a (ground (arith, h)) (ground (arith, k)))
        (AllReached-all n f atoms (ground (arith, h)) (ground (arith, k)))

  explained-parts :
      (t : AtomSupport)
      → explained admits s processed [] (some t) ≡ true
      → (is_some t.action ≡ true)
        × (admits t ≡ true)
        × (all (settled s processed []) t.support ≡ true)
  explained-parts t h = (ground (arith, h), ground (arith, h), ground (arith, h))

  reached_before-Reaches :
      (n : ℕ) (a : Atom)
      → settled s processed [] a ≡ true
      → reached_before graph.effects n a ≡ true
      → Reaches s graph admits a
  reached_before-Reaches zero a h k =
      let (t, found, below) = reached_before-find graph.effects 0 a k in
      absurd (ground (arith, below))
  reached_before-Reaches (suc n) a h k = elim (Bool-cases (contains s a)) [
    | inl e ↦ in_seed a e
    | inr e ↦
        let (t, found, below) = reached_before-find graph.effects (suc n) a k in
        let why =
          any-eq-all (λ b. explained admits s processed [] (find graph.effects b)) a processed
            closed (ground (arith, e, h)) in
        let (acts, admitted, settled_support) =
          explained-parts t (subst (λ o. explained admits s processed [] o ≡ true) found why) in
        let (_, before) =
          founded-action s graph.effects graph.current_layer a t.layer t.action t.support
            (all-find (entry_founded s graph.effects graph.current_layer) graph.effects a t
              layered.entries found)
            e in
        let small : t.layer ≤ n = omega (arith, ltb→lt t.layer (suc n) below) in
        by_action a t found acts admitted (
          AllReached-all n (λ b c d. reached_before-Reaches n b c d) t.support settled_support
            (all_congr (reached_before graph.effects t.layer) (reached_before graph.effects n)
              t.support (λ b c. reached_before-le graph.effects t.layer n b small c) before))
  ]

  pub AllReached-settled :
      (atoms : List Atom)
      → all (settled s processed []) atoms ≡ true
      → all (has graph.effects) atoms ≡ true
      → AllReached s graph admits atoms
  AllReached-settled atoms h k =
      AllReached-all (suc graph.current_layer)
        (λ a b c. reached_before-Reaches (suc graph.current_layer) a b c) atoms h
        (all_congr (has graph.effects) (reached_before graph.effects (suc graph.current_layer))
          atoms
          (λ b c.
            let (t, found) = has-find graph.effects b c in
            find-reached_before graph.effects (suc graph.current_layer) b t found (
              founded-le s graph.effects graph.current_layer b t.layer t.action t.support (
                all-find (entry_founded s graph.effects graph.current_layer) graph.effects b t
                  layered.entries found)))
          k)

-- The rounds that are enough: one for each goal atom and for each supporting atom of the graph.
abbrev pub Enough : RpgData → List Atom → ℕ → Type 0
Enough graph goals fuel = length goals + open_size graph.effects [] < fuel

-- Whatever the subclass, if it keeps its laws.
compute_relaxed_plan_cost-AllReached {ℓ} :
    {R : Type ℓ} (subclass : PlanRegistry R) (s : State) (graph : RpgData)
    (laws : RegistryLaws subclass graph) (goals : List Atom) (fuel : ℕ)
    → IsLayered s graph
    → suc graph.current_layer < 2 ^ 32
    → all (has graph.effects) goals ≡ true
    → Enough graph goals fuel
    → (x : Extraction R) × (compute_relaxed_plan_cost subclass s graph fuel goals
        ≡ ok (subclass.cost x.plan, x))
      × (laws.fits x.plan ≡ true)
      × AllReached s graph (λ t. laws.registered t x.plan) goals
unfolding compute_relaxed_plan_cost
compute_relaxed_plan_cost-AllReached subclass s graph laws goals fuel layered l h enough =
    let start : Tracks subclass s graph laws goals goals (start_extraction subclass s graph) =
      record {
        fits = laws.start_fits;
        goals_settled = settled-pushed s [] [] goals;
        processed_explained = refl;
        pending_reached = h;
      } in
    let (x, e, tracks) =
      drain-Ends subclass s graph laws layered l goals fuel goals
        (start_extraction subclass s graph) start enough in
    rw e (
      x,
      refl,
      tracks.fits,
      AllReached-settled s graph layered (λ t. laws.registered t x.plan) x.processed
          tracks.processed_explained goals tracks.goals_settled h,
    )

-- If the graph was built from the seed, its layers fit in an `unsigned`, it has the goal atoms, and the fuel is above
-- the number of goal atoms and of supporting atoms in the graph, then the extraction with supports returns
-- the size of a set of different actions with their supports, and these reach every goal atom from the seed.
pub supported-AllReached :
    (info : ProblemInfo) (s : State) (graph : RpgData) (goals : List Atom) (fuel : ℕ)
    → Built info s graph
    → suc graph.current_layer < 2 ^ 32
    → all (has graph.effects) goals ≡ true
    → Enough graph goals fuel
    → (x : Extraction (List SupportedAction)) × (compute_relaxed_plan_cost supported_extractor s
          graph fuel goals
        ≡ ok (length x.plan, x))
      × (distinct supported_eq x.plan ≡ true)
      × AllReached s graph (λ t. in_supporters t x.plan) goals
unfolding supported_laws
supported-AllReached info s graph goals fuel built l h enough =
    compute_relaxed_plan_cost-AllReached supported_extractor s graph (supported_laws graph) goals
      fuel (Built-IsLayered info s graph built) l h enough

-- The number of actions in all layers.
abbrev pub num_entries : List (List (Option ℕ)) → ℕ
num_entries [] = 0
num_entries (layer ∷ layers) = length layer + num_entries layers

layers_size_from-num_entries :
    (size : ℕ) (layers : List (List (Option ℕ)))
    → size < 2 ^ 32
    → layers_size_from size layers ≡ (size + num_entries layers) % 2 ^ 32
layers_size_from-num_entries size [] h = omega arith
layers_size_from-num_entries size (layer ∷ layers) h =
    omega
      (arith, layers_size_from-num_entries ((size + length layer) % 2 ^ 32) layers (omega arith))

layers_size-num_entries :
    (layers : List (List (Option ℕ))) → layers_size layers ≡ num_entries layers % 2 ^ 32
layers_size-num_entries layers = omega (arith, layers_size_from-num_entries 0 layers (omega arith))

-- If the graph was built from the seed, its layers fit in an `unsigned`, it has the goal atoms, and the
-- fuel is above the number of goal atoms and of supporting atoms in the graph, then the extraction by layers
-- returns, modulo 2 ^ 32, the number of entries of its sets, one for each layer of the graph and each of
-- different actions, and the actions in their layers reach every goal atom from the seed.
pub propositional-AllReached :
    (info : ProblemInfo) (s : State) (graph : RpgData) (goals : List Atom) (fuel : ℕ)
    → Built info s graph
    → suc graph.current_layer < 2 ^ 32
    → all (has graph.effects) goals ≡ true
    → Enough graph goals fuel
    → (x : Extraction (List (List (Option ℕ)))) × (compute_relaxed_plan_cost propositional_extractor
          s graph fuel goals
        ≡ ok (num_entries x.plan % 2 ^ 32, x))
      × (layers_fit graph x.plan ≡ true)
      × AllReached s graph (λ t. in_layer t x.plan) goals
unfolding propositional_laws
propositional-AllReached info s graph goals fuel built l h enough =
    let (x, run, fit, reached) =
      compute_relaxed_plan_cost-AllReached propositional_extractor s graph
        (propositional_laws graph) goals fuel (Built-IsLayered info s graph built) l h enough in
    (x, run ∙ ap (λ n. ok (n, x)) (layers_size-num_entries x.plan), fit, reached)
