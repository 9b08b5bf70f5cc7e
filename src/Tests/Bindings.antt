-- ===== src/Tests/Bindings.antt =====
-- The theorems on bindings (src/utils/binding.hxx) at concrete inputs.
use planner.Prelude.{
  ℕ, zero, suc, ◌^◌, ltb→lt, ◌≡◌, ◌⊎◌, inl, inr, refl, true, false, none, some, [], ◌∷◌,
}
use planner.Prelude.Int.{pos}
use planner.Prelude.Outcome.{ok, err, runtime_error}
use planner.Binding.{Binding, unset, set_binding, merge_with}
use planner.Binding.Laws.{IsWellFormed, lookup, lookup-set_binding}
use planner.Binding.Merge.{over, merge_with_ok, merge_with_throws}

abbrev first : Binding
first = record { set_flags = true ∷ false ∷ []; values = pos 7 ∷ pos 0 ∷ [] }

abbrev second : Binding
second = record { set_flags = false ∷ true ∷ []; values = pos 0 ∷ pos 8 ∷ [] }

lookup-set_binding_example :
    (c : Binding) × (set_binding (unset 1) 2 (pos 9) ≡ ok c)
    × (lookup c 2 ≡ some (pos 9))
    × IsWellFormed c
lookup-set_binding_example =
    lookup-set_binding (unset 1) 2 2 (pos 9) refl (inr (ltb→lt 3 (2 ^ 32) refl))

never_both : (j : ℕ) → (lookup first j ≡ none) ⊎ (lookup second j ≡ none)
never_both zero = inr refl
never_both (suc zero) = inl refl
never_both (suc (suc j)) = inl refl

merge_with_ok_example :
    (c : Binding) × (merge_with first second ≡ ok c)
    × IsWellFormed c
    × ((j : ℕ) → lookup c j ≡ over (lookup second j) (lookup first j))
merge_with_ok_example = merge_with_ok first second refl refl refl never_both

merge_with_throws_example : merge_with first first ≡ err runtime_error
merge_with_throws_example = merge_with_throws first first refl refl refl 0 (pos 7) (pos 7) refl refl
