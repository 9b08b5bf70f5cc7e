-- ===== src/RelaxedPlan/Lockstep.antt =====
-- The loop of src/heuristics/relaxed_plan/direct_crpg.cxx builds the relaxed state (src/relaxed_state.cxx)
-- and the data of the graph (src/heuristics/relaxed_plan/rpg_data.cxx) together, layer by layer.
use planner.Prelude.{
  ℕ, zero, suc, ◌+◌, ◌^◌, ◌<◌, ◌≡◌, refl, sym, ◌∙◌, inl, inr, true, false, ◌&&◌, ◌||◌, List, [],
  ◌∷◌, none, some, ◌==◌, ltb, leb, arith, all, length, get_or, Bool-cases, ==_iff,
}
use planner.Prelude.Int.{ℤ, eq_ℤ}
use planner.Prelude.Outcome.{ok, ok_injective, >>=-eq-ok}
use mathlib.Core.Path.{subst}
use planner.Atom.{Atom}
use planner.Info.{ProblemInfo}
use planner.State.{State, num_atoms, get_value}
use planner.Direct.Domain.{member}
use planner.RelaxedPlan.Data.{
  SupportMap, has, insert, RpgData, increment, advance_layer, create_atom_support, insert_seed,
  create_data, tracked, add,
}
use planner.RelaxedPlan.Lookup.{reached_before, has-insert, reached_before-insert_later}
use planner.RelaxedPlan.Layered.{IsLayered, entry_founded, founded-le}
use planner.RelaxedPlan.Growth.{
  Built, created, added, advanced, Built-IsLayered, insert_seed-founded,
}
use planner.RelaxedPlan.RelaxedState.{
  RelaxedState, singletons, relax, accumulate_novel, member-accumulate_novel, reached_before-suc,
}

-- The pairs that the loop can be at: it starts from the seed, adds atoms whose support was reached in
-- earlier layers, and closes a layer by accumulating its novel atoms.
pub data Lockstep (info : ProblemInfo) (s : State) : RelaxedState → RpgData → Type 0 where
  started : {d : RpgData} → create_data info s false ≡ ok d → Lockstep info s (relax s) d
  grown :
      {r : RelaxedState} {d d' : RpgData} (a : Atom) (action : ℕ) (support : List Atom)
      → Lockstep info s r d
      → a.variable < num_atoms s
      → all (reached_before d.effects d.current_layer) support ≡ true
      → add d a (some action) support ≡ ok d'
      → Lockstep info s r d'
  closed :
      {r r' : RelaxedState} {d : RpgData}
      → Lockstep info s r d
      → suc d.current_layer < 2 ^ 32
      → accumulate_novel r d.novel ≡ ok r'
      → Lockstep info s r' (advance_layer d)

pub Lockstep-Built :
    (info : ProblemInfo) (s : State) (r : RelaxedState) (d : RpgData)
    → Lockstep info s r d
    → Built info s d
Lockstep-Built info s _ _ (started e) = created false e
Lockstep-Built info s r _ (grown a action support steps l h e) =
    added a action support (Lockstep-Built info s r _ steps) l h e
Lockstep-Built info s _ _ (closed {r = r} steps l e) = advanced (Lockstep-Built info s r _ steps) l

-- The relaxed state has a domain for each variable, with the values that were reached before layer n.
abbrev pub Represents : State → RelaxedState → SupportMap → ℕ → Type 0
Represents s r m n =
    (length r ≡ num_atoms s)
    × ((v : ℕ) (x : ℤ)
        → member x (get_or r v []) ≡ reached_before m n (record { variable = v; value = x }))

length-singletons : (s : State) (n v : ℕ) → length (singletons s n v) ≡ n
length-singletons s zero v = refl
length-singletons s (suc n) v = ground (arith, length-singletons s n (suc v))

member-singletons :
    (s : State) (n v i : ℕ) (x : ℤ)
    → member x (get_or (singletons s n v) i []) ≡ (ltb i n && eq_ℤ (get_value s (v + i)) x)
member-singletons s zero v i x = ground arith
member-singletons s (suc n) v zero x = let same : v + 0 ≡ v = omega arith in rw same (ground arith)
member-singletons s (suc n) v (suc i) x =
    let same : suc v + i ≡ v + suc i = omega arith in
    rw (← same) (ground (arith, member-singletons s n (suc v) i x))

has-insert_seed :
    (info : ProblemInfo) (s : State) (n v : ℕ) (m : SupportMap) {m' : SupportMap} (u : ℕ) (x : ℤ)
    → insert_seed info false s n v m ≡ ok m'
    → has m' (record { variable = u; value = x }) ≡ (
        has m (record { variable = u; value = x })
        || (leb v u && ltb u (v + n) && eq_ℤ (get_value s u) x))
unfolding insert_seed
has-insert_seed info s zero v m u x h =
    subst
      (λ k. has k (record { variable = u; value = x }) ≡ (
        has m (record { variable = u; value = x })
        || (leb v u && ltb u (v + 0) && eq_ℤ (get_value s u) x)))
      (ok_injective h) (ground arith)
has-insert_seed info s (suc n) v m u x h =
    let a : Atom = record { variable = v; value = get_value s v } in
    let b : Atom = record { variable = u; value = x } in
    has-insert_seed info s n (suc v) (insert m a (create_atom_support 0 none [])) u x h
    ∙ (rw (has-insert m a b (create_atom_support 0 none [])) (elim (Bool-cases (v == u)) [
      | inl e ↦ let same : v ≡ u = (==_iff v u).0 e in rw same (ground arith)
      | inr e ↦ ground (arith, e)
    ]))

reached_before-seed :
    (s : State) (k m : SupportMap) (a : Atom)
    → all (entry_founded s k 0) m ≡ true
    → reached_before m 1 a ≡ has m a
reached_before-seed s k [] a h = refl
reached_before-seed s k ((b, t) ∷ m) a h =
    ground (arith, reached_before-seed s k m a, founded-le s k 0 b t.layer t.action t.support)

relax-Represents :
    (info : ProblemInfo) (s : State) {d : RpgData}
    → create_data info s false ≡ ok d
    → Represents s (relax s) d.effects d.current_layer
unfolding create_data
relax-Represents info s h =
    let (m, e, h') = >>=-eq-ok (insert_seed info false s (num_atoms s) 0 []) _ h in
    let represents : Represents s (relax s) m 1 = (
      length-singletons s (num_atoms s) 0,
      λ v x.
          rw
            (
              reached_before-seed s m m (record { variable = v; value = x })
                  (insert_seed-founded info false s (num_atoms s) 0 [] refl e),
              has-insert_seed info s (num_atoms s) 0 [] v x e,
              member-singletons s (num_atoms s) 0 v x,
            )
            (let same : 0 + v ≡ v = omega arith in rw same (ground arith)),
    ) in
    subst (λ d. Represents s (relax s) d.effects d.current_layer) (ok_injective h') represents

grown-Represents :
    (s : State) (r : RelaxedState) (d d' : RpgData) (a : Atom) (action : ℕ) (support : List Atom)
    → Represents s r d.effects d.current_layer
    → add d a (some action) support ≡ ok d'
    → Represents s r d'.effects d'.current_layer
unfolding add
grown-Represents s r d d' a action support (w, f) e = elim (Bool-cases (has d.effects a)) [
  | inl k ↦
      let same : d ≡ d' = ok_injective (ground (arith, k, e)) in
      subst (λ g. Represents s r g.effects g.current_layer) same (w, f)
  | inr k ↦
      let same : tracked d a (some action) support ≡ d' = ok_injective (ground (arith, k, e)) in
      subst (λ g. Represents s r g.effects g.current_layer) same
        (
          w,
          λ v x.
              f v x
              ∙ sym (
                  reached_before-insert_later d.effects a (record { variable = v; value = x })
                    (create_atom_support d.current_layer (some action) support) d.current_layer
                    (ground arith)),
        )
]

-- Closing a layer does not throw, and the relaxed state then has what was reached up to that layer.
pub accumulate_novel-Represents :
    (s : State) (r : RelaxedState) (d : RpgData)
    → IsLayered s d
    → Represents s r d.effects d.current_layer
    → (r' : RelaxedState) × (accumulate_novel r d.novel ≡ ok r')
      × Represents s r' d.effects (suc d.current_layer)
accumulate_novel-Represents s r d layered (w, f) =
    let (r', e, w', g) = member-accumulate_novel r d.novel (layered.width ∙ sym w) in
    (
      r',
      e,
      (
        w' ∙ w,
        λ v x.
            let a : Atom = record { variable = v; value = x } in
            rw
              (
                reached_before-suc d.effects d.current_layer a layered.unique,
                g v x,
                layered.novel_values v,
                f v x,
              )
              refl,
      ),
    )

closed-Represents :
    (s : State) (r r' : RelaxedState) (d : RpgData)
    → suc d.current_layer < 2 ^ 32
    → accumulate_novel r d.novel ≡ ok r'
    → (r'' : RelaxedState) × (accumulate_novel r d.novel ≡ ok r'')
      × Represents s r'' d.effects (suc d.current_layer)
    → Represents s r' d.effects (increment d.current_layer)
closed-Represents s r r' d l e (r'', e', represents) =
    let next : increment d.current_layer ≡ suc d.current_layer = omega arith in
    let same : r'' ≡ r' = ok_injective (sym e' ∙ e) in
    subst (λ n. Represents s r' d.effects n) (sym next)
      (subst (λ q. Represents s q d.effects (suc d.current_layer)) same represents)

steps-Represents :
    (info : ProblemInfo) (s : State) (r : RelaxedState) (d : RpgData)
    → Lockstep info s r d
    → Represents s r d.effects d.current_layer
steps-Represents info s _ _ (started e) = relax-Represents info s e
steps-Represents info s r d (grown {d = d₀} a action support steps l h e) =
    grown-Represents s r d₀ d a action support (steps-Represents info s r d₀ steps) e
steps-Represents info s r' _ (closed {r = r} {d = d} steps l e) = closed-Represents s r r' d l e (
    accumulate_novel-Represents s r d (Built-IsLayered info s d (Lockstep-Built info s r d steps))
      (steps-Represents info s r d steps))

-- At every step of the loop, the relaxed state has a domain for each variable, which contains a value
-- exactly if the graph reached the atom in a layer below the current one; and accumulating the novel atoms
-- does not throw.
pub Lockstep-Represents :
    (info : ProblemInfo) (s : State) (r : RelaxedState) (d : RpgData)
    → Lockstep info s r d
    → Represents s r d.effects d.current_layer
      × ((r' : RelaxedState) × (accumulate_novel r d.novel ≡ ok r'))
Lockstep-Represents info s r d steps =
    let layered : IsLayered s d = Built-IsLayered info s d (Lockstep-Built info s r d steps) in
    let represents = steps-Represents info s r d steps in
    let (r', e, _) = accumulate_novel-Represents s r d layered represents in (represents, (r', e))
