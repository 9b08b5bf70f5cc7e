-- ===== src/MatchTree/Correct.antt =====
-- src/applicability/match_tree.cxx: the tree as a whole, and the items that it yields.
use planner.Prelude.{
  ℕ, zero, suc, ◌<◌, ◌≡◌, ◌⊎◌, inl, inr, refl, ap, ◌∙◌, Bool, true, false, not, ◌&&◌, ◌||◌, List,
  [], ◌∷◌, arith, ltb, ◌==◌, ==_iff, length, get_or, set, replicate, all, any, Bool-cases,
  length-set, length-replicate, get_or-replicate,
}
use planner.Prelude.Int.{pos}
use planner.Prelude.Outcome.{ok}
use planner.Atom.{Atom}
use planner.State.{State, get_value}
use planner.Whitelist.Intersection.{mem}
use planner.MatchTree.{
  Node, empty_node, leaf_node, Context, has_atom, action_done, create_tree, build_tree, generate,
}
use planner.MatchTree.Required.{unseen, unseen-set, fits}
use planner.MatchTree.Split.{is_known}
use planner.MatchTree.Switch.{Finds, pass_all, create_switch-Finds}

module _ (context : Context) (seen : List Bool) where
  unseen_variable :
      (variables : List ℕ) (w : ℕ)
      → any (λ v. v == w) variables ≡ true
      → get_or seen w false ≡ false
      → any (λ v. not (get_or seen v false)) variables ≡ true
  unseen_variable [] w h k = absurd (cc h)
  unseen_variable (v ∷ variables) w h k = elim (Bool-cases (v == w)) [
    | inl e ↦ let same : v ≡ w = (==_iff v w).0 e in rw (same, k) refl
    | inr e ↦ or_true (not (get_or seen v false)) (unseen_variable variables w (rw e at h) k)
  ]
    where
      or_true : (b : Bool) {c : Bool} → c ≡ true → (b || c) ≡ true
      or_true b h = ground arith

  unseen_atom :
      (ts : List Atom)
      → all (is_known context) ts ≡ true
      → all (λ (t : Atom). get_or seen t.variable false) ts ≡ false
      → any (λ v. not (get_or seen v false)) context.sorted_variables ≡ true
  unseen_atom [] h k = absurd (cc k)
  unseen_atom (t ∷ ts) h k = elim (Bool-cases (get_or seen t.variable false)) [
    | inl e ↦ unseen_atom ts (ground arith) (rw e at k)
    | inr e ↦ unseen_variable context.sorted_variables t.variable (ground arith) e
  ]

  unseen_action :
      (actions : List ℕ)
      → ((a : ℕ) → all (is_known context) (context.required a) ≡ true)
      → all (action_done context seen) actions ≡ false
      → any (λ v. not (get_or seen v false)) context.sorted_variables ≡ true
  unseen_action [] known k = absurd (cc k)
  unseen_action (a ∷ actions) known k = elim (Bool-cases (action_done context seen a)) [
    | inl e ↦ unseen_action actions known (rw e at k)
    | inr e ↦ unseen_atom (context.required a) (known a) e
  ]

module _ (context : Context) (s : State)
    (binary : (v : ℕ) → (context.values v ≡ pos 1 ∷ []) ⊎ (context.values v ≡ pos 0 ∷ pos 1 ∷ []))
    (boolean : (v : ℕ) → (get_value s v ≡ pos 0) ⊎ (get_value s v ≡ pos 1))
    (known : (a : ℕ) → all (is_known context) (context.required a) ≡ true) where
  create_tree-Finds :
      (fuel : ℕ) (seen : List Bool) (actions : List ℕ)
      → all (λ v. ltb v (length seen)) context.sorted_variables ≡ true
      → unseen seen < fuel
      → Finds context s binary boolean known (create_tree context fuel seen actions) seen actions
  unfolding create_tree generate
  create_tree-Finds zero seen actions inside l = absurd (omega arith)
  create_tree-Finds (suc fuel) seen [] inside l = (empty_node, [], refl, refl, λ a. refl)
  create_tree-Finds (suc fuel) seen (b ∷ actions) inside l =
      elim (Bool-cases (all (action_done context seen) (b ∷ actions))) [
        | inl e ↦ (
          leaf_node (b ∷ actions),
          b ∷ actions,
          rw e refl,
          refl,
          pass_all context s binary boolean known seen (b ∷ actions) e,
        )
        | inr e ↦ rw e (
            create_switch-Finds context s binary boolean known (create_tree context fuel) seen
              (b ∷ actions) inside (unseen_action context seen (b ∷ actions) known e)
              (λ p k fresh rest.
                create_tree-Finds fuel (set seen p true) rest (rw (length-set seen p true) inside)
                  (omega (arith, unseen-set seen p k fresh))))
      ]

  unseen-replicate : (n : ℕ) → unseen (replicate n false) ≡ n
  unseen-replicate zero = refl
  unseen-replicate (suc n) = omega (arith, unseen-replicate n)

  fits-replicate :
      (n : ℕ) (atoms ts : List Atom)
      → all (fits (get_value s) atoms (replicate n false)) ts
        ≡ all (λ (t : Atom). has_atom atoms t.variable (get_value s t.variable)) ts
  fits-replicate n atoms [] = refl
  fits-replicate n atoms (t ∷ ts) =
      rw (get_or-replicate n t.variable false, fits-replicate n atoms ts) refl

  first_unseen :
      (n : ℕ) (variables : List ℕ)
      → 0 < length variables
      → any (λ v. not (get_or (replicate n false) v false)) variables ≡ true
  first_unseen n [] h = absurd (omega arith)
  first_unseen n (v ∷ variables) h = rw (get_or-replicate n v false) refl

  -- For Boolean state variables, each with an atom for the value 1 and perhaps one for 0, the
  -- match tree is built, with as much fuel as there are variables, and it yields exactly those of the
  -- given actions for which, for the variable of each required atom, the atom that holds in the state
  -- is a required one. The variables to branch on are at least one, and they include those of all
  -- required atoms, which are atoms of their variables.
  pub generate-build_tree :
      (n : ℕ) (actions : List ℕ)
      → all (λ v. ltb v n) context.sorted_variables ≡ true
      → 0 < length context.sorted_variables
      → (node : Node) × (items : List ℕ) × (build_tree context n actions (replicate n false)
          ≡ ok node)
        × (generate s node ≡ ok items)
        × ((a : ℕ)
            → mem a items ≡ (
                mem a actions
                && all
                    (λ (t : Atom).
                      has_atom (context.required a) t.variable (get_value s t.variable))
                    (context.required a)))
  unfolding build_tree
  generate-build_tree n actions inside some_variable =
      let bounds : all (λ v. ltb v (length (replicate n false))) context.sorted_variables ≡ true =
        rw (length-replicate n false) inside in
      let (node, items, made, gen, at) =
        create_switch-Finds context s binary boolean known (create_tree context n)
          (replicate n false) actions bounds (first_unseen n context.sorted_variables some_variable)
          (λ p k fresh rest.
            create_tree-Finds n (set (replicate n false) p true) rest
              (rw (length-set (replicate n false) p true) bounds)
              (omega (arith, unseen-set (replicate n false) p k fresh, unseen-replicate n))) in
      (
        node,
        items,
        made,
        gen,
        λ a.
            at a
            ∙ ap (λ b. mem a actions && b)
                (fits-replicate n (context.required a) (context.required a)),
      )
