-- ===== src/MatchTree/Switch.antt =====
-- src/applicability/match_tree.cxx: the items that a switch node yields.
use planner.Prelude.{
  ℕ, ◌<◌, ◌≡◌, ◌⊎◌, inl, inr, refl, ◌∙◌, Bool, true, false, not, ◌&&◌, ◌||◌, List, [], ◌∷◌, ◌++◌,
  map, arith, ltb, ◌==◌, ==_iff, length, get_or, set, all, any, if◌then◌else◌, Bool-cases,
}
use planner.Prelude.Int.{ℤ, pos, eq_ℤ}
use planner.Prelude.Outcome.{Result, ok}
use planner.State.{State, get_value}
use planner.Whitelist.Intersection.{mem}
use planner.MatchTree.{
  Node, Nodes, switch_node, no_nodes, and_node, Context, filter, add_zero, create_children,
  action_done, needs, ignores, create_switch, generate, generate_child,
}
use planner.MatchTree.Required.{get_best_variable_lem, done-fits}
use planner.MatchTree.Split.{mem-filter, mem-append, is_known, holds, touches_one, holds-split}

module _ (context : Context) (s : State)
    (binary : (v : ℕ) → (context.values v ≡ pos 1 ∷ []) ⊎ (context.values v ≡ pos 0 ∷ pos 1 ∷ []))
    (boolean : (v : ℕ) → (get_value s v ≡ pos 0) ⊎ (get_value s v ≡ pos 1))
    (known : (a : ℕ) → all (is_known context) (context.required a) ≡ true) where
  -- The test for an action, given the variables seen.
  abbrev pub test : List Bool → ℕ → Bool
  test seen a = holds context s binary boolean known seen a

  -- A tree was made that yields the actions of a list that pass the test.
  abbrev pub Finds : Result Node → List Bool → List ℕ → Type 0
  Finds made seen actions =
      (node : Node) × (items : List ℕ) × (made ≡ ok node)
      × (generate s node ≡ ok items)
      × ((a : ℕ) → mem a items ≡ (mem a actions && test seen a))

  and_left : (b c : Bool) → (b && c) ≡ true → b ≡ true
  and_left b c h = ground arith

  and_right : (b c : Bool) → (b && c) ≡ true → c ≡ true
  and_right b c h = ground arith

  pub pass_all :
      (seen : List Bool) (actions : List ℕ)
      → all (action_done context seen) actions ≡ true
      → (a : ℕ) → mem a actions ≡ (mem a actions && test seen a)
  pass_all seen [] h a = refl
  pass_all seen (b ∷ actions) h a =
      let rest = pass_all seen actions (and_right (action_done context seen b) _ h) a in
      let passes =
        done-fits (get_value s) (context.required b) seen (context.required b)
          (and_left (action_done context seen b) _ h) in
      elim (Bool-cases (b == a)) [
        | inl e ↦ let same : b ≡ a = (==_iff b a).0 e in rw (e, rw same at passes) refl
        | inr e ↦ rw e rest
      ]

  -- The children for the values 0 and 1.
  create_children_lem :
      (build : List ℕ → Result Node) (seen : List Bool) (x : ℤ) (first second : List ℕ)
      → (x ≡ pos 0) ⊎ (x ≡ pos 1)
      → Finds (build first) seen first
      → Finds (build second) seen second
      → (children : Nodes) × (items : List ℕ) × (create_children build (first ∷ second ∷ [])
          ≡ ok children)
        × (generate_child s children x ≡ ok items)
        × ((a : ℕ)
            → mem a items ≡ (mem a (if eq_ℤ x (pos 0) then first else second) && test seen a))
  unfolding generate
  create_children_lem build seen x first second (inl e) (n, is, hn, hs, at)
        (n', is', hn', hs', at') =
      (and_node n (and_node n' no_nodes), is, rw (hn, hn') refl, rw e hs, λ a. rw e (at a))
  create_children_lem build seen x first second (inr e) (n, is, hn, hs, at)
        (n', is', hn', hs', at') =
      (and_node n (and_node n' no_nodes), is', rw (hn, hn') refl, rw e hs', λ a. rw e (at' a))

  -- What the loop of the constructor leaves for the children, and which of it is for the value of the
  -- pivot.
  nothing : (b c : Bool) → false ≡ (b && (c && false))
  nothing b c = ground arith

  small_domain : (p : ℕ) → ltb 2 (length (context.values p)) ≡ false
  small_domain p = elim (binary p) [ inl e ↦ rw e refl | inr e ↦ rw e refl ]

  combine :
      (a d n i h' h : Bool)
      → h ≡ (d || ((n && h') || (i && h')))
      → ((a && d) || (((a && n) && h') || ((a && i) && h'))) ≡ (a && h)
  combine a d n i h' h e = ground arith

  splits_lem :
      (seen : List Bool) (p : ℕ) (actions : List ℕ)
      → (first : List ℕ) × (second : List ℕ) × (add_zero
            (map (λ x. filter (needs context seen p x) actions) (context.values p))
          ≡ first ∷ second ∷ [])
        × ((a : ℕ)
            → mem a (if eq_ℤ (get_value s p) (pos 0) then first else second)
              ≡ (mem a actions && needs context seen p (get_value s p) a))
  splits_lem seen p actions = elim (binary p) [
    | inl e ↦ (
      [],
      filter (needs context seen p (pos 1)) actions,
      rw e refl,
      λ a. elim (boolean p) [
        | inl v ↦
            let none_required =
              (touches_one context s binary boolean known p (context.required a) e (known a)).1 in
            rw (v, none_required) (nothing (mem a actions) (not (action_done context seen a)))
        | inr v ↦ rw v (mem-filter (needs context seen p (pos 1)) a actions)
      ],
    )
    | inr e ↦ (
      filter (needs context seen p (pos 0)) actions,
      filter (needs context seen p (pos 1)) actions,
      rw e refl,
      λ a. elim (boolean p) [
        | inl v ↦ rw v (mem-filter (needs context seen p (pos 0)) a actions)
        | inr v ↦ rw v (mem-filter (needs context seen p (pos 1)) a actions)
      ],
    )
  ]

  pub create_switch-Finds :
      (build : List Bool → List ℕ → Result Node) (seen : List Bool) (actions : List ℕ)
      → all (λ v. ltb v (length seen)) context.sorted_variables ≡ true
      → any (λ v. not (get_or seen v false)) context.sorted_variables ≡ true
      → ((p : ℕ)
          → p < length seen
          → get_or seen p false ≡ false
          → (rest : List ℕ) → Finds (build (set seen p true) rest) (set seen p true) rest)
      → Finds (create_switch context build seen actions) seen actions
  unfolding create_switch generate
  create_switch-Finds build seen actions inside left found =
      let (p, best, l, fresh) = get_best_variable_lem seen context.sorted_variables inside left in
      let (first, second, cut, chosen) = splits_lem seen p actions in
      let (children, items, made, gen, at) =
        create_children_lem (build (set seen p true)) (set seen p true) (get_value s p) first second
          (boolean p) (found p l fresh first) (found p l fresh second) in
      let (default_child, rest, made', gen', at') =
        found p l fresh (filter (ignores context seen p) actions) in
      (
        switch_node p (filter (action_done context seen) actions) children default_child,
        filter (action_done context seen) actions ++ (items ++ rest),
        rw (best, small_domain p, cut, made, made') refl,
        rw (gen, gen') refl,
        λ a.
            mem-append a (filter (action_done context seen) actions) (items ++ rest)
            ∙ rw
                (
                  mem-append a items rest,
                  mem-filter (action_done context seen) a actions,
                  at a,
                  chosen a,
                  at' a,
                  mem-filter (ignores context seen p) a actions,
                )
                (combine (mem a actions) (action_done context seen a)
                  (needs context seen p (get_value s p) a) (ignores context seen p a)
                  (test (set seen p true) a) (test seen a)
                  (holds-split context s binary boolean known seen p a l fresh)),
      )
