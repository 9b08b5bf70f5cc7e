-- ===== src/MatchTree.antt =====
-- src/applicability/match_tree.hxx and match_tree.cxx: the tree that finds the actions whose
-- required atoms hold in a state. An atom index stands for one atom and is modelled by it. Printing is
-- left out.
pub mod Required
pub mod Split
pub mod Switch
pub mod Correct
use planner.Prelude.{
  ℕ, zero, suc, ◌+◌, Bool, true, false, not, ◌&&◌, List, [], ◌∷◌, ◌++◌, map, ltb, ◌==◌, length,
  get_or, set, all, any, if◌then◌else◌,
}
use planner.Prelude.Int.{ℤ, pos, negsuc, eq_ℤ}
use planner.Prelude.Outcome.{Result, ok, err, runtime_error, undefined, out_of_fuel, ◌>>=◌}
use planner.Atom.{Atom}
use planner.State.{State, get_value}

-- `EmptyNode`, `LeafNode` and `SwitchNode`: the pivot, the immediate items, the children by value of
-- the pivot, and the default child
mutual
  pub data Node : Type 0 where
    empty_node : Node
    leaf_node : List ℕ → Node
    switch_node : ℕ → List ℕ → Nodes → Node → Node

  pub data Nodes : Type 0 where
    no_nodes : Nodes
    and_node : Node → Nodes → Nodes

-- `NodeCreationContext`, without the `_seen` flags: the variables in the order in which they are
-- branched on, the atoms that are relevant to the precondition of each action, and the values of the
-- atoms of each variable.
pub record Context : Type 0 where
  pub sorted_variables : List ℕ
  pub required : ℕ → List Atom
  pub values : ℕ → List ℤ

abbrev pub filter : (ℕ → Bool) → List ℕ → List ℕ
filter p [] = []
filter p (x ∷ xs) = if p x then x ∷ filter p xs else filter p xs

-- `required.find(atom) != required.end()`
abbrev pub has_atom : List Atom → ℕ → ℤ → Bool
has_atom atoms v x = any (λ (t : Atom). t.variable == v && eq_ℤ t.value x) atoms

-- The loop of `get_best_variable`
unfoldable pub get_best_variable : List Bool → List ℕ → Result ℕ
get_best_variable seen [] = err runtime_error
get_best_variable seen (v ∷ variables) =
    if not (get_or seen v false) then ok v else get_best_variable seen variables

abbrev is_nil : List ℕ → Bool
is_nil [] = true
is_nil (_ ∷ _) = false

-- Where a variable has one atom only, X=1, there is no child yet for the value 0.
abbrev pub add_zero : List (List ℕ) → List (List ℕ)
add_zero splits = if length splits == 1 then [] ∷ splits else splits

-- The loop that creates the children.
abbrev pub create_children : (List ℕ → Result Node) → List (List ℕ) → Result Nodes
create_children build [] = ok no_nodes
create_children build (actions ∷ splits) = do
  child ← build actions
  children ← create_children build splits
  ok (and_node child children)

module _ (context : Context) where
  -- `action_done`
  abbrev pub action_done : List Bool → ℕ → Bool
  action_done seen a = all (λ (t : Atom). get_or seen t.variable false) (context.required a)

  -- The actions that are not done and require the value x of the pivot, and those for which no value of
  -- the pivot matters: what the loop of the constructor puts into its vectors.
  abbrev pub needs : List Bool → ℕ → ℤ → ℕ → Bool
  needs seen pivot x a = not (action_done seen a) && has_atom (context.required a) pivot x

  abbrev pub ignores : List Bool → ℕ → ℕ → Bool
  ignores seen pivot a =
      not (action_done seen a)
      && not (any (has_atom (context.required a) pivot) (context.values pivot))

  -- `SwitchNode::SwitchNode`; `build` is `create_tree` with given flags. The flag of the pivot is
  -- set for the subtrees only.
  unfoldable pub create_switch :
      (List Bool → List ℕ → Result Node) → List Bool → List ℕ → Result Node
  create_switch build seen actions = do
    pivot ← get_best_variable seen context.sorted_variables
    if ltb 2 (length (context.values pivot)) then err runtime_error else (do
      children ←
          create_children (build (set seen pivot true))
            (add_zero (map (λ x. filter (needs seen pivot x) actions) (context.values pivot)))
      default_child ← build (set seen pivot true) (filter (ignores seen pivot) actions)
      ok (switch_node pivot (filter (action_done seen) actions) children default_child))

  -- `create_tree`, on fuel: each level branches on a variable not seen before.
  unfoldable pub create_tree : ℕ → List Bool → List ℕ → Result Node
  create_tree zero seen actions = err out_of_fuel
  create_tree (suc fuel) seen actions =
      if is_nil actions
      then ok empty_node
      else if all (action_done seen) actions
      then ok (leaf_node actions)
      else create_switch (create_tree fuel) seen actions

  -- The tree of the constructor of `MatchTreeActionManager`, whose root is a switch
  unfoldable pub build_tree : ℕ → List ℕ → List Bool → Result Node
  unfolding create_switch create_tree
  build_tree fuel actions seen = create_switch (create_tree fuel) seen actions

module _ (s : State) where
  -- `generate_applicable_items`; `generate_child` is `_children[val]`.
  unfoldable mutual
    pub generate : Node → Result (List ℕ)
    generate empty_node = ok []
    generate (leaf_node items) = ok items
    generate (switch_node pivot immediate children default_child) = do
      items ← generate_child children (get_value s pivot)
      rest ← generate default_child
      ok (immediate ++ (items ++ rest))

    pub generate_child : Nodes → ℤ → Result (List ℕ)
    generate_child no_nodes x = err undefined
    generate_child (and_node child children) (pos zero) = generate child
    generate_child (and_node child children) (pos (suc n)) = generate_child children (pos n)
    generate_child (and_node child children) (negsuc n) = err undefined

-- `count`
unfoldable mutual
  pub count : Node → ℕ
  count empty_node = 0
  count (leaf_node items) = length items
  count (switch_node pivot immediate children default_child) =
      count_all children + count default_child + length immediate

  pub count_all : Nodes → ℕ
  count_all no_nodes = 0
  count_all (and_node child children) = count child + count_all children
