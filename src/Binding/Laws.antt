-- ===== src/Binding/Laws.antt =====
-- src/utils/binding.hxx: a binding read as a partial map from variables to values.
use planner.Prelude.{
  ℕ, zero, suc, ◌+◌, ◌≤◌, ◌<◌, ◌≡◌, ◌⊎◌, refl, sym, ap, ◌∙◌, inl, inr, Bool, true, Option, none,
  some, List, [], ◌∷◌, arith, ltb, length, get_elem?, get_or, set, if◌then◌else◌, Bool-cases, ◌==◌,
  length-set, ltb→lt, ◌%◌, ◌^◌, false,
}
use planner.Prelude.Int.{ℤ, pos}
use planner.Prelude.Outcome.{ok, err, runtime_error, or_throw}
use planner.Binding.{Binding, resize, binds, value, put, set_binding}

-- Both vectors have the same size.
abbrev pub IsWellFormed : Binding → Type 0
IsWellFormed b = length b.set_flags ≡ length b.values

-- The partial map that a binding stands for.
abbrev pub lookup : Binding → ℕ → Option ℤ
lookup b v = if binds b v then get_elem? b.values v else none

module _ {ℓ} {A : Type ℓ} where
  length-resize : (n : ℕ) (d : A) (xs : List A) → length (resize n d xs) ≡ n
  length-resize zero d xs = refl
  length-resize (suc n) d [] = ap suc (length-resize n d [])
  length-resize (suc n) d (x ∷ xs) = ap suc (length-resize n d xs)

  get_or-resize :
      (n i : ℕ) (d : A) (xs : List A) → length xs ≤ n → get_or (resize n d xs) i d ≡ get_or xs i d
  get_or-resize zero i d [] h = refl
  get_or-resize zero i d (x ∷ xs) h = absurd (omega arith)
  get_or-resize (suc n) zero d [] h = refl
  get_or-resize (suc n) (suc i) d [] h = get_or-resize n i d [] (omega arith)
  get_or-resize (suc n) zero d (x ∷ xs) h = refl
  get_or-resize (suc n) (suc i) d (x ∷ xs) h = get_or-resize n i d xs (omega arith)

  get_elem?-resize :
      (n i : ℕ) (d : A) (xs : List A)
      → i < length xs
      → length xs ≤ n
      → get_elem? (resize n d xs) i ≡ get_elem? xs i
  get_elem?-resize n i d [] k h = absurd (omega arith)
  get_elem?-resize zero i d (x ∷ xs) k h = absurd (omega arith)
  get_elem?-resize (suc n) zero d (x ∷ xs) k h = refl
  get_elem?-resize (suc n) (suc i) d (x ∷ xs) k h =
      get_elem?-resize n i d xs (omega arith) (omega arith)

pub lt_of_binds : (fs : List Bool) (i : ℕ) → get_or fs i false ≡ true → i < length fs
lt_of_binds [] i h = cc
lt_of_binds (f ∷ fs) zero h = omega arith
lt_of_binds (f ∷ fs) (suc i) h = omega (arith, lt_of_binds fs i h)

-- The two vectors written at one position, read as a map.
lookup-write :
    (fs : List Bool) (xs : List ℤ) (v w : ℕ) (x : ℤ)
    → v < length fs
    → length fs ≡ length xs
    → (if get_or (set fs v true) w false then get_elem? (set xs v x) w else none)
      ≡ (if v == w then some x else if get_or fs w false then get_elem? xs w else none)
lookup-write [] xs v w x h e = absurd (omega arith)
lookup-write (f ∷ fs) [] v w x h e = absurd (omega arith)
lookup-write (f ∷ fs) (y ∷ xs) zero zero x h e = refl
lookup-write (f ∷ fs) (y ∷ xs) zero (suc w) x h e = ground arith
lookup-write (f ∷ fs) (y ∷ xs) (suc v) zero x h e = ground arith
lookup-write (f ∷ fs) (y ∷ xs) (suc v) (suc w) x h e =
    ground (arith, lookup-write fs xs v w x (omega arith) (omega arith))

lookup-resize :
    (n w : ℕ) (fs : List Bool) (xs : List ℤ)
    → length fs ≡ length xs
    → length fs ≤ n
    → (if get_or (resize n false fs) w false then get_elem? (resize n (pos 0) xs) w else none)
      ≡ (if get_or fs w false then get_elem? xs w else none)
lookup-resize n w fs xs e h =
    rw (get_or-resize n w false fs h) (elim (Bool-cases (get_or fs w false)) [
      | inl t ↦
          rw t (get_elem?-resize n w (pos 0) xs (omega (arith, lt_of_binds fs w t)) (omega arith))
      | inr f ↦ rw f
    ])

-- A write inside the binding.
put_lem :
    (b : Binding) (v : ℕ) (x : ℤ)
    → IsWellFormed b
    → v < length b.set_flags
    → (c : Binding) × (put b v x ≡ ok c)
      × IsWellFormed c
      × (length b.set_flags ≤ length c.set_flags)
      × ((w : ℕ) → lookup c w ≡ (if v == w then some x else lookup b w))
put_lem b v x h l = (
  record { set_flags = set b.set_flags v true; values = set b.values v x },
  ground (arith, l, h),
  length-set b.set_flags v true ∙ h ∙ sym (length-set b.values v x),
  omega (arith, length-set b.set_flags v true),
  λ w. lookup-write b.set_flags b.values v w x l h,
)

-- The variable lies in the binding, or the size that it asks for is an `unsigned`.
abbrev pub IsInReach : Binding → ℕ → Type 0
IsInReach b v = (v < length b.set_flags) ⊎ (v + 1 < 2 ^ 32)

-- No size wraps around where the binding is resized.
size_fits :
    (b : Binding) (v : ℕ)
    → IsInReach b v
    → ltb (length b.set_flags) ((v + 1) % 2 ^ 32) ≡ true
    → (v + 1) % 2 ^ 32 ≡ v + 1
size_fits b v (inl l) t = absurd (omega (arith, ltb→lt (length b.set_flags) ((v + 1) % 2 ^ 32) t))
size_fits b v (inr l) t = omega arith

inside_unresized :
    (b : Binding) (v : ℕ)
    → IsInReach b v
    → ltb (length b.set_flags) ((v + 1) % 2 ^ 32) ≡ false
    → v < length b.set_flags
inside_unresized b v (inl l) f = l
inside_unresized b v (inr l) f =
    let fits : (v + 1) % 2 ^ 32 ≡ v + 1 = omega arith in
    let f' : ltb (length b.set_flags) (v + 1) ≡ false = rw fits at f in ground (arith, f')

pub set_binding_lem :
    (b : Binding) (v : ℕ) (x : ℤ)
    → IsWellFormed b
    → IsInReach b v
    → (c : Binding) × (set_binding b v x ≡ ok c)
      × IsWellFormed c
      × (length b.set_flags ≤ length c.set_flags)
      × ((w : ℕ) → lookup c w ≡ (if v == w then some x else lookup b w))
unfolding set_binding
set_binding_lem b v x h reach = elim (Bool-cases (ltb (length b.set_flags) ((v + 1) % 2 ^ 32))) [
  | inl t ↦
      let fits = size_fits b v reach t in
      let small : length b.set_flags ≤ v + 1 =
        omega (arith, ltb→lt (length b.set_flags) ((v + 1) % 2 ^ 32) t) in
      let flags = length-resize (v + 1) false b.set_flags in
      let items = length-resize (v + 1) (pos 0) b.values in
      let grown : Binding = record {
        set_flags = resize (v + 1) false b.set_flags;
        values = resize (v + 1) (pos 0) b.values;
      } in
      let (c, e, wf, longer, at) = put_lem grown v x (flags ∙ sym items) (omega (arith, flags)) in
      rw (t, fits)
        (
          c,
          e,
          wf,
          omega (arith, longer, flags, small),
          λ w.
              at w
              ∙ ap (λ (o : Option ℤ). if v == w then some x else o)
                  (lookup-resize (v + 1) w b.set_flags b.values h small),
        )
  | inr f ↦ rw f (put_lem b v x h (inside_unresized b v reach f))
]

pub get_elem?-some : (xs : List ℤ) (i : ℕ) → i < length xs → (x : ℤ) × (get_elem? xs i ≡ some x)
get_elem?-some [] i h = absurd (omega arith)
get_elem?-some (x ∷ xs) zero h = (x, refl)
get_elem?-some (x ∷ xs) (suc i) h = get_elem?-some xs i (omega arith)

-- A well-formed binding has a value for exactly the variables that it binds.
pub lookup_cases :
    (b : Binding) (v : ℕ)
    → IsWellFormed b
    → ((binds b v ≡ false) × (lookup b v ≡ none) × (value b v ≡ err runtime_error))
      ⊎ ((x : ℤ) × (binds b v ≡ true) × (lookup b v ≡ some x) × (value b v ≡ ok x))
unfolding value
lookup_cases b v h = elim (Bool-cases (binds b v)) [
  | inl t ↦
      let (x, e) = get_elem?-some b.values v (omega (arith, lt_of_binds b.set_flags v t)) in
      inr (x, t, rw t e, rw t (rw e refl))
  | inr f ↦ inl (f, rw f refl, rw f refl)
]

-- `value` is the lookup, and throws where there is nothing.
pub value-lookup :
    (b : Binding) (v : ℕ) → IsWellFormed b → value b v ≡ or_throw (lookup b v) runtime_error
value-lookup b v h = elim (lookup_cases b v h) [
  | inl (f, n, e) ↦ rw (n, e) refl
  | inr (x, t, n, e) ↦ rw (n, e) refl
]

-- Setting the variable v of a well-formed binding to x returns a well-formed binding, also where the
-- binding has to grow, if v lies in the binding or v + 1 is an `unsigned`. In the new binding, looking v up
-- gives x, and looking any other variable up gives what it gave before.
pub lookup-set_binding :
    (b : Binding) (v w : ℕ) (x : ℤ)
    → IsWellFormed b
    → IsInReach b v
    → (c : Binding) × (set_binding b v x ≡ ok c)
      × (lookup c w ≡ (if v == w then some x else lookup b w))
      × IsWellFormed c
lookup-set_binding b v w x h reach =
    let (c, e, wf, _, at) = set_binding_lem b v x h reach in (c, e, at w, wf)
