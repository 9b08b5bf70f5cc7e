-- ===== src/Binding.antt =====
-- src/utils/binding.hxx: a possibly partial binding of variables to values.
pub mod Laws
pub mod Merge
use planner.Prelude.{
  ℕ, zero, suc, ◌+◌, ◌%◌, ◌^◌, ◌==◌, ◌&&◌, Bool, true, false, not, Option, none, some, List, [],
  ◌∷◌, ltb, length, get_elem?, get_or, set, replicate, if◌then◌else◌, all,
}
use planner.Prelude.Int.{ℤ, pos}
use planner.Prelude.Outcome.{
  Result, ok, err, runtime_error, out_of_range, undefined, or_throw, ◌>>=◌,
}

-- `_set` and `_values`
pub record Binding : Type 0 where
  pub set_flags : List Bool
  pub values : List ℤ

-- The constructors: the empty binding, n unset variables, and a complete binding of given values.
abbrev pub empty_binding : Binding
empty_binding = record { set_flags = []; values = [] }

abbrev pub unset : ℕ → Binding
unset n = record { set_flags = replicate n false; values = replicate n (pos 0) }

abbrev pub complete : List ℤ → Binding
complete values = record { set_flags = replicate (length values) true; values = values }

-- `vector::resize`: cut off, or filled up with d
abbrev pub resize {ℓ} : {A : Type ℓ} → ℕ → A → List A → List A
resize zero d xs = []
resize (suc n) d [] = d ∷ resize n d []
resize (suc n) d (x ∷ xs) = x ∷ resize n d xs

abbrev pub binds : Binding → ℕ → Bool
binds b v = get_or b.set_flags v false

unfoldable pub value : Binding → ℕ → Result ℤ
value b v =
    if not (binds b v) then err runtime_error else or_throw (get_elem? b.values v) out_of_range

-- `_values[variable] = value` and `_set[variable] = true`
abbrev pub put : Binding → ℕ → ℤ → Result Binding
put b v x =
    if ltb v (length b.set_flags) && ltb v (length b.values)
    then ok (record { set_flags = set b.set_flags v true; values = set b.values v x })
    else err undefined

-- `Binding::set`: resizes the binding if the variable lies beyond its end; the size is an `unsigned`.
unfoldable pub set_binding : Binding → ℕ → ℤ → Result Binding
set_binding b v x =
    let min_size = (v + 1) % 2 ^ 32 in
    if ltb (length b.set_flags) min_size
    then put
        (record {
          set_flags = resize min_size false b.set_flags;
          values = resize min_size (pos 0) b.values;
        })
        v x
    else put b v x

-- One round of `merge_with`, at variable i.
merge_step : Binding → Binding → ℕ → Result Binding
merge_step a b i =
    if binds b i
    then (if binds a i then err runtime_error else (do x ← value b i; set_binding a i x))
    else ok a

merge_loop : ℕ → ℕ → Binding → Binding → Result Binding
merge_loop zero i a b = ok a
merge_loop (suc n) i a b = do a' ← merge_step a b i; merge_loop n (i + 1) a' b

-- `merge_with`, which asserts that the sizes are the same: throws where both bind a variable
unfoldable pub merge_with : Binding → Binding → Result Binding
unfolding merge_loop merge_step value set_binding
merge_with a b =
    if length a.values == length b.values then merge_loop (length a.values) 0 a b else err undefined

unfoldable pub is_complete : Binding → Bool
is_complete b = all (λ f. f) b.set_flags

unfoldable pub get_full_binding : Binding → Result (List ℤ)
unfolding is_complete
get_full_binding b = if not (is_complete b) then err runtime_error else ok b.values
