-- ===== src/RelaxedPlan/Drain.antt =====
-- The loop of `computeRelaxedPlanCost` in src/heuristics/relaxed_plan/relaxed_plan_extractor.hxx: with one
-- round for each atom that can enter the queue it returns, and what it leaves explains every goal atom.
use planner.Prelude.{
  ℕ, zero, suc, ◌+◌, ◌^◌, ◌<◌, ◌≡◌, refl, inl, inr, Bool, true, false, ◌&&◌, ◌||◌, List, [], ◌∷◌,
  ◌++◌, Option, none, some, ltb, arith, all, any, length, length-append, Bool-cases,
}
use planner.Prelude.Outcome.{Result, ok}
use planner.Atom.{Atom, eq}
use planner.State.{State, contains}
use planner.RelaxedPlan.Data.{AtomSupport, SupportMap, find, has, RpgData, num_layers}
use planner.RelaxedPlan.Lookup.{reached_before, reached_before-has, has-find, all-find}
use planner.RelaxedPlan.Layered.{IsLayered, founded, entry_founded, founded-le, all_congr}
use planner.RelaxedPlan.Extractor.{PlanRegistry, Extraction, mark_as_relevant, drain}
use planner.RelaxedPlan.Registry.{Registers, RegistryLaws}
use planner.RelaxedPlan.Closure.{
  settled, is_some, explained, open_size, all-append, open_size-find, settled-skip, settled-process,
  settled-pushed,
}

both : {a b : Bool} → a ≡ true → b ≡ true → (a && b) ≡ true
both h k = rw (h, k) refl

pub founded-action :
    (s : State) (m : SupportMap) (n : ℕ) (a : Atom) (layer : ℕ) (action : Option ℕ)
    (atoms : List Atom)
    → founded s m n a layer action atoms ≡ true
    → contains s a ≡ false
    → (is_some action ≡ true) × (all (reached_before m layer) atoms ≡ true)
founded-action s m n a layer none atoms h k = absurd (ground (arith, h, k))
founded-action s m n a layer (some action) atoms h k = (refl, ground (arith, h))

module _ {ℓ} {R : Type ℓ} (subclass : PlanRegistry R) (s : State) (graph : RpgData)
    (laws : RegistryLaws subclass graph) where
  abbrev explained_by : R → List Atom → List Atom → Atom → Bool
  explained_by plan processed pending a =
      explained (λ t. laws.registered t plan) s processed pending (find graph.effects a)

  -- What the loop keeps.
  pub record Tracks (goals : List Atom) (pending : List Atom) (x : Extraction R) : Type 0 where
    pub fits : laws.fits x.plan ≡ true
    pub goals_settled : all (settled s x.processed pending) goals ≡ true
    pub processed_explained : all (explained_by x.plan x.processed pending) x.processed ≡ true
    pub pending_reached : all (has graph.effects) pending ≡ true

  -- The measure that falls in every round.
  abbrev pub rounds : List Atom → List Atom → ℕ
  rounds processed pending = length pending + open_size graph.effects processed

  abbrev pub Ends : List Atom → Result (Extraction R) → Type ℓ
  Ends goals result = (x : Extraction R) × (result ≡ ok x) × Tracks goals [] x

  explained_congr :
      (plan plan' : R) (processed pending processed' pending' : List Atom)
      → ((u : AtomSupport) → laws.registered u plan ≡ true → laws.registered u plan' ≡ true)
      → ((b : Atom) → settled s processed pending b ≡ true → settled s processed' pending' b ≡ true)
      → (o : Option AtomSupport)
      → explained (λ t. laws.registered t plan) s processed pending o ≡ true
      → explained (λ t. laws.registered t plan') s processed' pending' o ≡ true
  explained_congr plan plan' processed pending processed' pending' f g none h = h
  explained_congr plan plan' processed pending processed' pending' f g (some t) h = ground (
    arith,
    f t,
    all_congr (settled s processed pending) (settled s processed' pending') t.support g,
  )

  Tracks-skip :
      (goals : List Atom) (a : Atom) (pending : List Atom) (x : Extraction R)
      → (contains s a || any (eq a) x.processed) ≡ true
      → Tracks goals (a ∷ pending) x
      → Tracks goals pending x
  Tracks-skip goals a pending x h tracks =
      let skip = settled-skip s x.processed pending a in
      record {
        fits = tracks.fits;
        goals_settled =
            all_congr (settled s x.processed (a ∷ pending)) (settled s x.processed pending) goals
              (λ b k. skip b h k) tracks.goals_settled;
        processed_explained =
            all_congr (explained_by x.plan x.processed (a ∷ pending))
              (explained_by x.plan x.processed pending) x.processed
              (λ b k.
                explained_congr x.plan x.plan x.processed (a ∷ pending) x.processed pending
                  (λ u l. l) (λ c l. skip c h l) (find graph.effects b) k)
              tracks.processed_explained;
        pending_reached = ground (arith, tracks.pending_reached);
      }

  abbrev extended : Atom → AtomSupport → R → Extraction R → Extraction R
  extended a t plan x = record {
    processed = a ∷ x.processed;
    relevant = mark_as_relevant t.support x.relevant;
    plan = plan;
  }

  Tracks-process :
      (goals : List Atom) (a : Atom) (pending : List Atom) (x : Extraction R) (t : AtomSupport)
      (plan : R)
      → find graph.effects a ≡ some t
      → is_some t.action ≡ true
      → all (has graph.effects) t.support ≡ true
      → Registers laws.fits laws.registered t x.plan plan
      → Tracks goals (a ∷ pending) x
      → Tracks goals (pending ++ t.support) (extended a t plan x)
  Tracks-process goals a pending x t plan found acts reached registers tracks =
      let process = settled-process s x.processed pending t.support a in
      record {
        fits = registers.still_fits;
        goals_settled =
            all_congr (settled s x.processed (a ∷ pending))
              (settled s (a ∷ x.processed) (pending ++ t.support)) goals (λ b k. process b k)
              tracks.goals_settled;
        processed_explained = rw found (
            both
              (both (both acts registers.registers)
                (settled-pushed s (a ∷ x.processed) pending t.support))
              (all_congr (explained_by x.plan x.processed (a ∷ pending))
                (explained_by plan (a ∷ x.processed) (pending ++ t.support)) x.processed
                (λ b k.
                  explained_congr x.plan plan x.processed (a ∷ pending) (a ∷ x.processed)
                    (pending ++ t.support) registers.keeps (λ c l. process c l)
                    (find graph.effects b) k)
                tracks.processed_explained));
        pending_reached =
            all-append (has graph.effects) pending t.support
              (ground (arith, tracks.pending_reached)) reached;
      }

  -- An atom of the graph that the seed does not contain has an action, a layer that the graph has, and
  -- support that is in the graph.
  found-action :
      IsLayered s graph
      → suc graph.current_layer < 2 ^ 32
      → (a : Atom) (t : AtomSupport) → find graph.effects a ≡ some t
      → contains s a ≡ false
      → (is_some t.action ≡ true)
        × (ltb t.layer (num_layers graph) ≡ true)
        × (all (reached_before graph.effects t.layer) t.support ≡ true)
  found-action layered l a t found absent =
      let entry =
        all-find (entry_founded s graph.effects graph.current_layer) graph.effects a t
          layered.entries found in
      let (acts, before) =
        founded-action s graph.effects graph.current_layer a t.layer t.action t.support entry
          absent in
      let below =
        founded-le s graph.effects graph.current_layer a t.layer t.action t.support entry in
      let next : num_layers graph ≡ suc graph.current_layer = omega arith in
      (acts, rw next below, before)

  -- With enough rounds the loop ends, whatever it started from.
  pub drain-Ends :
      IsLayered s graph
      → suc graph.current_layer < 2 ^ 32
      → (goals : List Atom) (fuel : ℕ) (pending : List Atom) (x : Extraction R)
      → Tracks goals pending x
      → rounds x.processed pending < fuel
      → Ends goals (drain subclass s graph fuel pending x)
  unfolding drain
  drain-Ends layered l goals zero pending x tracks h = absurd (omega arith)
  drain-Ends layered l goals (suc fuel) [] x tracks h = (x, refl, tracks)
  drain-Ends layered l goals (suc fuel) (a ∷ pending) x tracks h =
      elim (Bool-cases (contains s a)) [
        | inl e ↦ rw e (
            drain-Ends layered l goals fuel pending x
              (Tracks-skip goals a pending x (ground (arith, e)) tracks) (omega arith))
        | inr e ↦ elim (Bool-cases (any (eq a) x.processed)) [
          | inl k ↦
              rw (e, k)
                (drain-Ends layered l goals fuel pending x
                  (Tracks-skip goals a pending x (ground (arith, k)) tracks) (omega arith))
          | inr k ↦
              let (t, found) = has-find graph.effects a (ground (arith, tracks.pending_reached)) in
              let (acts, below, before) = found-action layered l a t found e in
              let (plan, registered, registers) = laws.register-ok t x.plan tracks.fits below in
              let reached : all (has graph.effects) t.support ≡ true =
                all_congr (reached_before graph.effects t.layer) (has graph.effects) t.support
                  (λ b. reached_before-has graph.effects t.layer b) before in
              rw (e, k, found, registered)
                (drain-Ends layered l goals fuel (pending ++ t.support) (extended a t plan x)
                  (Tracks-process goals a pending x t plan found acts reached registers tracks)
                  (omega (
                    arith,
                    length-append pending t.support,
                    open_size-find graph.effects a x.processed t found k,
                  )))
        ]
      ]
