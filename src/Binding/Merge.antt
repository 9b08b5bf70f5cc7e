-- ===== src/Binding/Merge.antt =====
-- src/utils/binding.hxx: `merge_with`.
use planner.Prelude.{
  ℕ, zero, suc, ◌+◌, ◌≤◌, ◌<◌, ◌≡◌, ◌≢◌, ◌⊎◌, refl, sym, ap, ◌∙◌, inl, inr, Option, none, some,
  arith, ltb, length, if◌then◌else◌, ◌==◌, ==_iff, leb, ◌&&◌,
}
use planner.Prelude.Int.{ℤ}
use planner.Prelude.Outcome.{ok, err, runtime_error}
use planner.Binding.{Binding, set_binding, merge_step, merge_loop, merge_with}
use planner.Binding.Laws.{IsWellFormed, lookup, lookup_cases, set_binding_lem, lt_of_binds}

lt_or_eq : (i j : ℕ) → i ≤ j → (i + 1 ≤ j) ⊎ (i ≡ j)
lt_or_eq i j h = ground arith

lt_or_ge : (i j : ℕ) → (i < j) ⊎ (j ≤ i)
lt_or_ge i j = ground arith

-- The first of two values that is there.
abbrev pub over : Option ℤ → Option ℤ → Option ℤ
over none o = o
over (some x) o = some x

-- At most one of the two has a value from position i on.
abbrev Apart : ℕ → Binding → Binding → Type 0
Apart i a b = (j : ℕ) → i ≤ j → (lookup a j ≡ none) ⊎ (lookup b j ≡ none)

-- The three outcomes of a round.
step_cases :
    (a b : Binding) (i : ℕ)
    → IsWellFormed a
    → IsWellFormed b
    → ((lookup b i ≡ none) × (merge_step a b i ≡ ok a))
      ⊎ ((x : ℤ) × (y : ℤ) × (lookup a i ≡ some x)
          × (lookup b i ≡ some y)
          × (merge_step a b i ≡ err runtime_error))
      ⊎ ((y : ℤ) × (lookup a i ≡ none)
          × (lookup b i ≡ some y)
          × (merge_step a b i ≡ set_binding a i y))
unfolding merge_step
step_cases a b i ha hb = elim (lookup_cases b i hb) [
  | inl (f, n, e) ↦ inl (n, rw f refl)
  | inr (y, t, n, e) ↦ elim (lookup_cases a i ha) [
    | inl (f, m, _) ↦ inr (inr (y, m, n, rw (t, f, e) refl))
    | inr (x, s, m, _) ↦ inr (inl (x, y, m, n, rw (t, s) refl))
  ]
]

abbrev merged : ℕ → ℕ → Binding → Binding → ℕ → Option ℤ
merged n i a b j = if leb i j && ltb j (i + n) then over (lookup b j) (lookup a j) else lookup a j

-- One round more, at the level of the values at j: `new` is what the round leaves there.
merged_step :
    (n i j : ℕ) (old added new : Option ℤ)
    → (i ≡ j → new ≡ over added old)
    → (i ≢ j → new ≡ old)
    → (if leb (i + 1) j && ltb j (i + 1 + n) then over added new else new)
      ≡ (if leb i j && ltb j (i + suc n) then over added old else old)
merged_step n i j old added new at off = ground arith

skip_round :
    (n i j : ℕ) (a b : Binding)
    → lookup b i ≡ none
    → merged n (i + 1) a b j ≡ merged (suc n) i a b j
skip_round n i j a b nb =
    merged_step n i j (lookup a j) (lookup b j) (lookup a j)
      (λ e. rw (sym (ap (lookup b) e) ∙ nb) refl) (λ _. refl)

-- A value that a round put at i, when nothing was there.
put_round :
    (n i j : ℕ) (a a' b : Binding) (y : ℤ)
    → lookup b i ≡ some y
    → lookup a' j ≡ (if i == j then some y else lookup a j)
    → merged n (i + 1) a' b j ≡ merged (suc n) i a b j
put_round n i j a a' b y nb at =
    merged_step n i j (lookup a j) (lookup b j) (lookup a' j)
      (λ e. at ∙ rw (sym (ap (lookup b) e) ∙ nb) (ground arith)) (λ h. at ∙ ground arith)

keep-Apart :
    (i : ℕ) (a a' b : Binding) (y : ℤ)
    → Apart i a b
    → ((j : ℕ) → lookup a' j ≡ (if i == j then some y else lookup a j))
    → Apart (i + 1) a' b
keep-Apart i a a' b y apart at j h = ground (arith, at j, apart j)

merge_loop_ok :
    (n i : ℕ) (a b : Binding)
    → IsWellFormed a
    → IsWellFormed b
    → Apart i a b
    → i + n ≤ length a.set_flags
    → (c : Binding) × (merge_loop n i a b ≡ ok c)
      × IsWellFormed c
      × ((j : ℕ) → lookup c j ≡ merged n i a b j)
unfolding merge_loop
merge_loop_ok zero i a b ha hb apart l = (a, refl, ha, λ j. ground arith)
merge_loop_ok (suc n) i a b ha hb apart l = elim (step_cases a b i ha hb) [
  | inl (nb, e) ↦
      let (c, run, wf, at) =
        merge_loop_ok n (i + 1) a b ha hb (λ j k. apart j (omega arith)) (omega arith) in
      (c, rw e run, wf, λ j. at j ∙ skip_round n i j a b nb)
  | inr (inl (x, y, na, nb, e)) ↦
      absurd (elim (apart i (omega arith)) [ inl p ↦ cc (p, na) | inr p ↦ cc (p, nb) ])
  | inr (inr (y, na, nb, e)) ↦
      let (a', e', wf', longer, at') = set_binding_lem a i y ha (inl (omega arith)) in
      let (c, run, wf, at) =
        merge_loop_ok n (i + 1) a' b wf' hb (keep-Apart i a a' b y apart at') (omega arith) in
      (c, rw (e, e') run, wf, λ j. at j ∙ put_round n i j a a' b y nb (at' j))
]

merge_loop_throws :
    (n i j : ℕ) (a b : Binding) (x y : ℤ)
    → IsWellFormed a
    → IsWellFormed b
    → i ≤ j
    → j < i + n
    → lookup a j ≡ some x
    → lookup b j ≡ some y
    → i + n ≤ length a.set_flags
    → merge_loop n i a b ≡ err runtime_error
unfolding merge_loop
merge_loop_throws zero i j a b x y ha hb h k la lb l = absurd (omega arith)
merge_loop_throws (suc n) i j a b x y ha hb h k la lb l = elim (step_cases a b i ha hb) [
  | inl (nb, e) ↦
      rw e
        (merge_loop_throws n (i + 1) j a b x y ha hb (later nb) (omega arith) la lb (omega arith))
  | inr (inl (_, _, na, nb, e)) ↦ rw e refl
  | inr (inr (z, na, nb, e)) ↦
      let (a', e', wf', longer, at') = set_binding_lem a i z ha (inl (omega arith)) in
      rw (e, e')
        (merge_loop_throws n (i + 1) j a' b x y wf' hb (later_a na) (omega arith)
          (at' j ∙ ground (arith, later_a na)) lb (omega arith))
]
  where
    later : lookup b i ≡ none → i + 1 ≤ j
    later nb = elim (lt_or_eq i j h) [ inl l ↦ l | inr e ↦ absurd (cc (nb, lb, ap (lookup b) e)) ]

    later_a : lookup a i ≡ none → i + 1 ≤ j
    later_a na = elim (lt_or_eq i j h) [ inl l ↦ l | inr e ↦ absurd (cc (na, la, ap (lookup a) e)) ]

lookup_beyond : (b : Binding) (j : ℕ) → IsWellFormed b → length b.values ≤ j → lookup b j ≡ none
lookup_beyond b j h k = elim (lookup_cases b j h) [
  | inl (_, n, _) ↦ n
  | inr (x, t, _, _) ↦ absurd (omega (arith, lt_of_binds b.set_flags j t))
]

module _ (a b : Binding) (ha : IsWellFormed a) (hb : IsWellFormed b) where
  same_size :
      length a.values ≡ length b.values → merge_with a b ≡ merge_loop (length a.values) 0 a b
  unfolding merge_with
  same_size size = rw ((==_iff (length a.values) (length b.values)).1 size) refl

  -- Merging two well-formed bindings of the same size that bind no variable both gives a well-formed
  -- binding with the values of both.
  pub merge_with_ok :
      length a.values ≡ length b.values
      → ((j : ℕ) → (lookup a j ≡ none) ⊎ (lookup b j ≡ none))
      → (c : Binding) × (merge_with a b ≡ ok c)
        × IsWellFormed c
        × ((j : ℕ) → lookup c j ≡ over (lookup b j) (lookup a j))
  merge_with_ok size apart =
      let (c, run, wf, at) =
        merge_loop_ok (length a.values) 0 a b ha hb (λ j _. apart j) (omega (arith, ha)) in
      (c, same_size size ∙ run, wf, λ j. ground (arith, at j, lookup_beyond b j hb))

  -- Merging two well-formed bindings of the same size that bind some variable both throws a
  -- runtime error.
  pub merge_with_throws :
      length a.values ≡ length b.values
      → (j : ℕ) (x y : ℤ) → lookup a j ≡ some x
      → lookup b j ≡ some y
      → merge_with a b ≡ err runtime_error
  merge_with_throws size j x y la lb =
      same_size size
      ∙ merge_loop_throws (length a.values) 0 j a b x y ha hb (omega arith) inside la lb
          (omega (arith, ha))
    where
      inside : j < 0 + length a.values
      inside = elim (lt_or_ge j (length a.values)) [
        | inl l ↦ omega arith
        | inr g ↦ absurd (cc (la, lookup_beyond a j ha g))
      ]
