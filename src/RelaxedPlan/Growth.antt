-- ===== src/RelaxedPlan/Growth.antt =====
-- The layers of src/heuristics/relaxed_plan/rpg_data.cxx as they are built: the constructor, `add` and
-- `advanceLayer` keep the invariant of the graph.
use planner.Prelude.{
  ℕ, zero, suc, ◌+◌, ◌%◌, ◌^◌, ◌<◌, ◌≡◌, refl, sym, ◌∙◌, inl, inr, Bool, true, false, List, [], ◌∷◌,
  ◌++◌, none, some, ◌==◌, arith, all, length, get_or, set, length-set, length-replicate,
  get_or-set_self, get_or-set_ne, append-nil, if◌then◌else◌, Bool-cases, ==_iff,
}
use mathlib.Core.Path.{subst}
use planner.Prelude.Int.{ℤ, eq_ℤ_self}
use planner.Prelude.Outcome.{ok, ok_injective, >>=-eq-ok}
use planner.Atom.{Atom}
use planner.Info.{ProblemInfo}
use planner.State.{State, num_atoms, get_value, contains}
use planner.RelaxedPlan.Data.{
  AtomSupport, SupportMap, has, insert, RpgData, advance_layer, insert_seed, is_ignored, seeded,
  create_data, create_atom_support, tracked, add,
}
use planner.RelaxedPlan.Lookup.{
  reached_before, layer_size, layer_values-insert, layer_size-insert, keys_differ,
  insert-keys_differ,
}
use planner.RelaxedPlan.Layered.{entry_founded, IsLayered, insert-founded, advance_layer-IsLayered}

-- One round of the constructor's loop.
insert_or_skip-founded :
    (s : State) (v : ℕ) (m : SupportMap) (ignored : Bool)
    → all (entry_founded s m 0) m ≡ true
    → let a : Atom = record { variable = v; value = get_value s v } in
      let m' = if ignored then m else insert m a (create_atom_support 0 none []) in
      all (entry_founded s m' 0) m' ≡ true
unfolding contains
insert_or_skip-founded s v m true h = h
insert_or_skip-founded s v m false h =
    insert-founded s m 0 (record { variable = v; value = get_value s v })
      (create_atom_support 0 none []) h (ground (arith, eq_ℤ_self (get_value s v)))

insert_or_skip-keys_differ :
    (m : SupportMap) (a : Atom) (ignored : Bool)
    → keys_differ m ≡ true
    → keys_differ (if ignored then m else insert m a (create_atom_support 0 none [])) ≡ true
insert_or_skip-keys_differ m a true h = h
insert_or_skip-keys_differ m a false h = insert-keys_differ m a (create_atom_support 0 none []) h

pub insert_seed-founded :
    (info : ProblemInfo) (ignore : Bool) (s : State) (n v : ℕ) (m : SupportMap) {m' : SupportMap}
    → all (entry_founded s m 0) m ≡ true
    → insert_seed info ignore s n v m ≡ ok m'
    → all (entry_founded s m' 0) m' ≡ true
unfolding insert_seed
insert_seed-founded info ignore s zero v m h e =
    subst (λ k. all (entry_founded s k 0) k ≡ true) (ok_injective e) h
insert_seed-founded info ignore s (suc n) v m h e =
    let a : Atom = record { variable = v; value = get_value s v } in
    let (ignored, _, e') = >>=-eq-ok (is_ignored info ignore a) _ e in
    insert_seed-founded info ignore s n (suc v) _ (insert_or_skip-founded s v m ignored h) e'

insert_seed-keys_differ :
    (info : ProblemInfo) (ignore : Bool) (s : State) (n v : ℕ) (m : SupportMap) {m' : SupportMap}
    → keys_differ m ≡ true
    → insert_seed info ignore s n v m ≡ ok m'
    → keys_differ m' ≡ true
unfolding insert_seed
insert_seed-keys_differ info ignore s zero v m h e =
    subst (λ k. keys_differ k ≡ true) (ok_injective e) h
insert_seed-keys_differ info ignore s (suc n) v m h e =
    let a : Atom = record { variable = v; value = get_value s v } in
    let (ignored, _, e') = >>=-eq-ok (is_ignored info ignore a) _ e in
    insert_seed-keys_differ info ignore s n (suc v) _ (insert_or_skip-keys_differ m a ignored h) e'

create_data-IsLayered :
    (info : ProblemInfo) (s : State) (ignore : Bool) {d : RpgData}
    → create_data info s ignore ≡ ok d
    → IsLayered s d
unfolding create_data
create_data-IsLayered info s ignore h =
    let (effects, e, h') = >>=-eq-ok (insert_seed info ignore s (num_atoms s) 0 []) _ h in
    subst (IsLayered s) (ok_injective h') (
      advance_layer-IsLayered s (seeded s effects)
        (insert_seed-founded info ignore s (num_atoms s) 0 [] refl e)
        (insert_seed-keys_differ info ignore s (num_atoms s) 0 [] refl e)
        (length-replicate (num_atoms s) []) (omega arith))

-- The values of a variable after one more value of the variable u.
get_or-set_values :
    (novel : List (List ℤ)) (u v : ℕ) (x : ℤ)
    → u < length novel
    → get_or (set novel u (get_or novel u [] ++ (x ∷ []))) v []
      ≡ get_or novel v [] ++ (if u == v then x ∷ [] else [])
get_or-set_values novel u v x h = elim (Bool-cases (u == v)) [
  | inl e ↦
      rw (e, ← (==_iff u v).0 e) (get_or-set_self novel u (get_or novel u [] ++ (x ∷ [])) [] h)
  | inr e ↦ rw e (
      get_or-set_ne novel u v (get_or novel u [] ++ (x ∷ [])) []
        (λ same. absurd (ground (arith, same, e)))
      ∙ sym (append-nil (get_or novel v [])))
]

suc_mod : (n : ℕ) → suc (n % 2 ^ 32) % 2 ^ 32 ≡ (n + 1) % 2 ^ 32
suc_mod n = omega arith

pub tracked-IsLayered :
    (s : State) (d : RpgData) (a : Atom) (action : ℕ) (support : List Atom)
    → IsLayered s d
    → has d.effects a ≡ false
    → a.variable < length d.novel
    → all (reached_before d.effects d.current_layer) support ≡ true
    → IsLayered s (tracked d a (some action) support)
tracked-IsLayered s d a action support layered new l h =
    let t : AtomSupport = create_atom_support d.current_layer (some action) support in
    let self : (d.current_layer == d.current_layer) ≡ true = ground arith in
    record {
      entries =
          insert-founded s d.effects d.current_layer a t layered.entries
            (ground (arith, h, layered.opened));
      unique = insert-keys_differ d.effects a t layered.unique;
      width =
          length-set d.novel a.variable (get_or d.novel a.variable [] ++ (a.value ∷ []))
          ∙ layered.width;
      novel_values = λ v.
          get_or-set_values d.novel a.variable v a.value l
          ∙ rw
              (
                layered.novel_values v,
                layer_values-insert d.effects a t d.current_layer v new,
                self,
              )
              refl;
      novel_count =
          rw (layered.novel_count, layer_size-insert d.effects a t d.current_layer new, self)
            (suc_mod (layer_size d.effects d.current_layer));
      opened = layered.opened;
    }

pub add-IsLayered :
    (s : State) (d : RpgData) (a : Atom) (action : ℕ) (support : List Atom)
    → IsLayered s d
    → a.variable < num_atoms s
    → all (reached_before d.effects d.current_layer) support ≡ true
    → (d' : RpgData) × (add d a (some action) support ≡ ok d') × IsLayered s d'
unfolding add
add-IsLayered s d a action support layered l h = elim (Bool-cases (has d.effects a)) [
  | inl e ↦ rw e (d, refl, layered)
  | inr e ↦
      let small : a.variable < length d.novel = omega (arith, layered.width) in
      rw e (
        tracked d a (some action) support,
        ground arith,
        tracked-IsLayered s d a action support layered e small h,
      )
]

-- The graphs that a heuristic builds from a seed: it starts from the constructor, adds atoms whose support
-- was reached in earlier layers, and opens new layers.
pub data Built (info : ProblemInfo) (s : State) : RpgData → Type 0 where
  created : {d : RpgData} (ignore : Bool) → create_data info s ignore ≡ ok d → Built info s d
  added :
      {d d' : RpgData} (a : Atom) (action : ℕ) (support : List Atom)
      → Built info s d
      → a.variable < num_atoms s
      → all (reached_before d.effects d.current_layer) support ≡ true
      → add d a (some action) support ≡ ok d'
      → Built info s d'
  advanced :
      {d : RpgData} → Built info s d → suc d.current_layer < 2 ^ 32 → Built info s (advance_layer d)

-- In every graph that is built from a seed state, each atom has layer 0 and holds in the seed, or has a
-- layer up to the current one, an action, and supporting atoms that were reached in earlier layers; the
-- novel atoms, and their number modulo 2 ^ 32, are exactly those first reached in the current layer.
pub Built-IsLayered :
    (info : ProblemInfo) (s : State) (d : RpgData) → Built info s d → IsLayered s d
Built-IsLayered info s d (created ignore e) = create_data-IsLayered info s ignore e
Built-IsLayered info s d (added {d = d₀} a action support built l h e) =
    let (d', e', layered) =
      add-IsLayered s d₀ a action support (Built-IsLayered info s d₀ built) l h in
    subst (IsLayered s) (ok_injective (sym e' ∙ e)) layered
Built-IsLayered info s _ (advanced {d = d₀} built l) =
    let layered = Built-IsLayered info s d₀ built in
    advance_layer-IsLayered s d₀ layered.entries layered.unique layered.width l
