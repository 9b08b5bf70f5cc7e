-- ===== src/Tests/Trees.antt =====
-- The theorem on the match tree (src/applicability/match_tree.cxx) at a concrete input.
use planner.Prelude.{
  ℕ, zero, suc, ◌≡◌, ◌⊎◌, inl, inr, refl, true, false, ◌&&◌, List, [], ◌∷◌, arith, all,
}
use planner.Prelude.Int.{pos}
use planner.Prelude.Outcome.{ok, ◌>>=◌}
use planner.Atom.{Atom}
use planner.State.{State, get_value}
use planner.Whitelist.Intersection.{mem}
use planner.MatchTree.{
  Node, Context, has_atom, build_tree, create_switch, create_tree, get_best_variable, generate,
}
use planner.MatchTree.Split.{is_known}
use planner.MatchTree.Correct.{generate-build_tree}
use planner.Tests.{atom}

-- Action 0 requires X0=1, action 1 requires X0=1 and X1=1, and the others require nothing.
abbrev requirements : ℕ → List Atom
requirements zero = atom 0 1 ∷ []
requirements (suc zero) = atom 0 1 ∷ atom 1 1 ∷ []
requirements (suc (suc a)) = []

abbrev context : Context
context = record {
  sorted_variables = 0 ∷ 1 ∷ [];
  required = requirements;
  values = λ _. pos 0 ∷ pos 1 ∷ [];
}

-- X0 is true and X1 is false.
abbrev state : State
state = record {
  indexer = record { index = (true, 0) ∷ (true, 1) ∷ []; n_bool = 2; n_int = 0 };
  bool_values = true ∷ false ∷ [];
  int_values = [];
  hash = 0;
}

boolean : (v : ℕ) → (get_value state v ≡ pos 0) ⊎ (get_value state v ≡ pos 1)
unfolding get_value
boolean zero = inr refl
boolean (suc zero) = inl refl
boolean (suc (suc v)) = inl refl

known : (a : ℕ) → all (is_known context) (context.required a) ≡ true
known zero = refl
known (suc zero) = refl
known (suc (suc a)) = refl

generate-build_tree_example :
    (node : Node) × (items : List ℕ) × (build_tree context 2 (0 ∷ 1 ∷ 2 ∷ []) (false ∷ false ∷ [])
      ≡ ok node)
    × (generate state node ≡ ok items)
    × ((a : ℕ)
        → mem a items ≡ (
            mem a (0 ∷ 1 ∷ 2 ∷ [])
            && all
                (λ (t : Atom).
                  has_atom (context.required a) t.variable (get_value state t.variable))
                (context.required a)))
generate-build_tree_example =
    generate-build_tree context state (λ _. inr refl) boolean known 2 (0 ∷ 1 ∷ 2 ∷ []) refl
      (omega arith)

-- Action 2 needs nothing, and action 0 has its atom.
tree_run :
    (build_tree context 2 (0 ∷ 1 ∷ 2 ∷ []) (false ∷ false ∷ []) >>= generate state)
    ≡ ok (2 ∷ 0 ∷ [])
unfolding build_tree create_switch create_tree get_best_variable generate get_value
tree_run = refl
