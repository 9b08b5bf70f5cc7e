-- ===== src/Tests/Constraints.antt =====
-- The theorems on the direct constraints (src/constraints/direct) at concrete inputs.
use planner.Prelude.{ℕ, zero, suc, ◌*◌, ◌≡◌, ◌⊎◌, refl, true, List, [], ◌∷◌, arith, All}
use planner.Prelude.Int.{ℤ, pos}
use planner.Prelude.Outcome.{ok}
use planner.Direct.Domain.{FilteringOutput, pruned, unpruned, Domain, Ascending}
use planner.Direct.DomainMap.{DomainMap, Valid}
use planner.Direct.Constraint.{
  lt, neq, related, arc_reduce, reduce, neqx, accepts, narrow, node_reduce,
}
use planner.Direct.Handler
use planner.Direct.Handler.{
  Unary, Binary, NAry, DirectConstraint, unary, binary, n_ary, Handler, index_constraints_by_arity,
  initialize_worklist, binary_filtering, keep_pruning, is_failure, Arc,
}
use planner.Direct.Reduction.{SameFiltering, reduce-arc_reduce}
use planner.Direct.Narrowing.{narrow-node_reduce}
use planner.Direct.Sound.{Within}
use planner.Direct.Fixpoint.{keep_pruning-binary_filtering}
use planner.Direct.Stages.{Preserved}
use planner.Direct.Solution.{Kept, filter-Holds}
use planner.Direct.ArcConsistency.{ArcConsistent, binary_filtering-Consistent}

abbrev one_to_three : Domain
one_to_three = pos 1 ∷ pos 2 ∷ pos 3 ∷ []

one_to_three-Ascending : Ascending one_to_three
one_to_three-Ascending = ((refl, (refl, tt)), ((refl, tt), (tt, tt)))

-- X0 and X1 from 1 to 3, with X0 ≠ 2 and X0 < X1
abbrev domains : DomainMap
domains = (0, one_to_three) ∷ (1, one_to_three) ∷ []

domains-Valid : Valid domains
domains-Valid = (one_to_three-Ascending, refl, (one_to_three-Ascending, refl, tt))

abbrev not_two : Unary
not_two = record { class = neqx (pos 2); variable = 0 }

abbrev smaller : Binary
smaller = record { class = lt; first = 0; second = 1 }

-- A constraint that registers no filtering of its own.
abbrev idle : NAry
idle = record { scope = 0 ∷ []; filter_loaded = λ m. ok (unpruned, m) }

abbrev constraints : List DirectConstraint
constraints = unary not_two ∷ binary smaller ∷ n_ary idle ∷ []

abbrev address : ℕ → ℕ
address i = 8 * i

abbrev solution : ℕ → ℤ
solution zero = pos 1
solution (suc v) = pos 3

solution-Within : Within solution domains
solution-Within zero h = refl
solution-Within (suc zero) h = refl
solution-Within (suc (suc v)) h = absurd (ground arith)

idle-Preserved : Preserved solution idle
idle-Preserved m v w h = ((unpruned, m), refl, refl, v, w, λ u. refl)

filters :
    Handler.filter address 100 (index_constraints_by_arity constraints) domains
    ≡ ok (pruned, (0, pos 1 ∷ []) ∷ (1, pos 2 ∷ pos 3 ∷ []) ∷ [])
unfolding Handler.filter index_constraints_by_arity narrow reduce
filters = refl

filter-Holds_example :
    Kept solution domains
      (Handler.filter address 100 (index_constraints_by_arity constraints) domains)
unfolding index_constraints_by_arity
filter-Holds_example =
    filter-Holds solution address constraints domains 100 domains-Valid solution-Within
      (refl, ((refl, refl), ((refl, tt), tt))) (refl, (refl, (idle-Preserved, tt))) (omega arith)

binary_filtering-Consistent_example :
    (r : FilteringOutput × DomainMap × List Arc) × (binary_filtering address 20
        (smaller ∷ [])
        unpruned
        (initialize_worklist address (smaller ∷ []) 0 [])
        domains
      ≡ ok r)
    × ((is_failure r.0 ≡ true) ⊎ All (ArcConsistent r.1) (smaller ∷ []))
binary_filtering-Consistent_example =
    binary_filtering-Consistent address (smaller ∷ []) domains 20 domains-Valid ((refl, refl), tt)
      (refl, tt) (omega arith)

reduce-arc_reduce_example :
    SameFiltering
      (reduce neq true one_to_three (pos 2 ∷ []))
      (arc_reduce (related neq true) one_to_three (pos 2 ∷ []))
reduce-arc_reduce_example =
    reduce-arc_reduce neq true one_to_three (pos 2 ∷ []) one_to_three-Ascending (tt, tt) refl refl

narrow-node_reduce_example :
    SameFiltering
      (narrow (neqx (pos 2)) one_to_three)
      (node_reduce (accepts (neqx (pos 2))) one_to_three)
narrow-node_reduce_example =
    narrow-node_reduce (neqx (pos 2)) one_to_three one_to_three-Ascending refl

-- After AC3 the loop leaves X1 as the global filtering has left it, though 1 has no support any more.
keep_pruning-binary_filtering_example :
    keep_pruning address 2 1
      (index_constraints_by_arity constraints)
      pruned
      pruned
      []
      ((0, pos 2 ∷ []) ∷ (1, pos 2 ∷ pos 3 ∷ []) ∷ [])
    ≡ ok ((0, pos 2 ∷ []) ∷ (1, pos 2 ∷ pos 3 ∷ []) ∷ [])
unfolding index_constraints_by_arity binary_filtering reduce initialize_worklist
keep_pruning-binary_filtering_example =
    keep_pruning-binary_filtering address 9 (index_constraints_by_arity constraints)
      (initialize_worklist address (smaller ∷ []) 0 []) domains
      ((0, pos 2 ∷ []) ∷ (1, pos 2 ∷ pos 3 ∷ []) ∷ [])
      (pruned, (0, pos 1 ∷ pos 2 ∷ []) ∷ (1, pos 2 ∷ pos 3 ∷ []) ∷ [], []) pruned 0 0 refl refl
