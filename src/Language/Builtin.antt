-- ===== src/Language/Builtin.antt =====
-- src/languages/fstrips/builtin.cxx and formulae.hxx: the arithmetic terms and the predicates.
use planner.Prelude.{Bool, true, false, not, List, [], ◌∷◌, length, any, if◌then◌else◌}
use planner.Prelude.Int.{ℤ, pos, ◌+ℤ◌, ◌-ℤ◌, ◌*ℤ◌, eq_ℤ, ltb_ℤ, leb_ℤ, in_int}
use planner.Prelude.Outcome.{Result, ok, err, undefined, ◌>>=◌}
use planner.Language.Syntax.{
  Operation, addition, subtraction, multiplication, Symbol, eq, neq, lt, leq, gt, geq, alldiff, sum,
  nvalues, external,
}

-- A result of `int` arithmetic, which overflow leaves undefined.
abbrev pub to_int : ℤ → Result ℤ
to_int x = if in_int x then ok x else err undefined

-- `AdditionTerm`, `SubtractionTerm` and `MultiplicationTerm`
unfoldable pub apply_operation : Operation → ℤ → ℤ → Result ℤ
apply_operation addition x y = to_int (x +ℤ y)
apply_operation subtraction x y = to_int (x -ℤ y)
apply_operation multiplication x y = to_int (x *ℤ y)

-- The loop of `AlldiffFormula::_satisfied`, with the values that the set holds.
unfoldable pub alldiff_loop : List ℤ → List ℤ → Bool
alldiff_loop distinct [] = true
alldiff_loop distinct (v ∷ values) =
    if any (eq_ℤ v) distinct then false else alldiff_loop (v ∷ distinct) values

-- `std::accumulate` over all but the last value, compared with the last.
unfoldable pub sum_loop : ℤ → List ℤ → Result Bool
sum_loop total [] = err undefined
sum_loop total (expected ∷ []) = ok (eq_ℤ total expected)
sum_loop total (v ∷ w ∷ values) = do total' ← to_int (total +ℤ v); sum_loop total' (w ∷ values)

-- The distinct values among all but the last, and the last. `NValuesFormula` asserts that the last is
-- positive, and compares it as an unsigned number.
unfoldable pub nvalues_loop : List ℤ → List ℤ → Result Bool
nvalues_loop distinct [] = err undefined
nvalues_loop distinct (expected ∷ []) = ok (eq_ℤ (pos (length distinct)) expected)
nvalues_loop distinct (v ∷ w ∷ values) =
    nvalues_loop (if any (eq_ℤ v) distinct then distinct else v ∷ distinct) (w ∷ values)

abbrev relation : (ℤ → ℤ → Bool) → List ℤ → Result Bool
relation test (x ∷ y ∷ []) = ok (test x y)
relation test _ = err undefined

-- `_satisfied`; the classes assert the number of their subterms.
unfoldable pub satisfied : Symbol → List ℤ → Result Bool
unfolding alldiff_loop sum_loop nvalues_loop
satisfied eq values = relation eq_ℤ values
satisfied neq values = relation (λ x y. not (eq_ℤ x y)) values
satisfied lt values = relation ltb_ℤ values
satisfied leq values = relation leb_ℤ values
satisfied gt values = relation (λ x y. ltb_ℤ y x) values
satisfied geq values = relation (λ x y. leb_ℤ y x) values
satisfied alldiff values = ok (alldiff_loop [] values)
satisfied sum values = sum_loop (pos 0) values
satisfied nvalues values = nvalues_loop [] values
satisfied (external test) values = ok (test values)
