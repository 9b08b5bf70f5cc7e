-- ===== src/State/Equality.antt =====
-- src/state.hxx: `operator==` of states.
use planner.Prelude.{
  ℕ, zero, suc, ◌<◌, ◌≡◌, ◌↔◌, refl, sym, ap, ◌∙◌, inl, inr, Bool, true, false, List, [], ◌∷◌,
  arith, length, get_or, Bool-cases, ==_iff, list_eq, bool_eq, bool_eq_iff,
}
use planner.Prelude.Int.{ℤ, pos, eq_ℤ, eq_ℤ_iff}
use planner.State.{State, of_bool, read, get_value, eq}
use planner.State.Index.{rank}
use planner.State.Access.{IsValid, get_value-read}
use planner.State.Updates.{IsHashed}

pub list_eq_iff {ℓ} :
    {A : Type ℓ} (e : A → A → Bool) (laws : (a b : A) → (e a b ≡ true) ↔ (a ≡ b)) (xs ys : List A)
    → (list_eq e xs ys ≡ true) ↔ (xs ≡ ys)
list_eq_iff e laws [] [] = (λ _. refl, λ _. refl)
list_eq_iff e laws [] (y ∷ ys) = (λ h. cc, λ h. cc)
list_eq_iff e laws (x ∷ xs) [] = (λ h. cc, λ h. cc)
list_eq_iff e laws (x ∷ xs) (y ∷ ys) = ground (arith, laws x y, list_eq_iff e laws xs ys)

-- Every position up to the count of its kind belongs to a variable.
unrank :
    (b : Bool) (flags : List Bool) (i : ℕ)
    → i < rank b flags (length flags)
    → (v : ℕ) × (v < length flags) × (get_or flags v false ≡ b) × (rank b flags v ≡ i)
unrank b [] i h = absurd (omega arith)
unrank b (f ∷ flags) zero h = elim (Bool-cases (bool_eq f b)) [
  | inl m ↦ (0, omega arith, (bool_eq_iff f b).0 m, refl)
  | inr n ↦
      let (v, l, e, r) = unrank b flags zero (ground arith) in (suc v, omega arith, e, ground arith)
]
unrank b (f ∷ flags) (suc i) h = elim (Bool-cases (bool_eq f b)) [
  | inl m ↦
      let (v, l, e, r) = unrank b flags i (ground arith) in (suc v, omega arith, e, ground arith)
  | inr n ↦
      let (v, l, e, r) = unrank b flags (suc i) (ground arith) in
      (suc v, omega arith, e, ground arith)
]

ext {ℓ} :
    {A : Type ℓ} (d : A) (xs ys : List A)
    → length xs ≡ length ys
    → ((i : ℕ) → i < length xs → get_or xs i d ≡ get_or ys i d)
    → xs ≡ ys
ext d [] [] h e = refl
ext d [] (y ∷ ys) h e = absurd (omega arith)
ext d (x ∷ xs) [] h e = absurd (omega arith)
ext d (x ∷ xs) (y ∷ ys) h e =
    cc (e 0 (omega arith), ext d xs ys (omega arith) (λ i k. e (suc i) (omega arith)))

of_bool-injective : (a b : Bool) → of_bool a ≡ of_bool b → a ≡ b
of_bool-injective true true h = refl
of_bool-injective false false h = refl
of_bool-injective true false h = cc
of_bool-injective false true h = cc

module _ (flags : List Bool) (s t : State) (vs : IsValid flags s) (vt : IsValid flags t) where
  abbrev SameValues : Type 0
  SameValues = (v : ℕ) → v < length flags → get_value s v ≡ get_value t v

  same_slot :
      SameValues
      → (v : ℕ) → v < length flags
      → read s (get_or flags v false, rank (get_or flags v false) flags v)
        ≡ read t (get_or flags v false, rank (get_or flags v false) flags v)
  same_slot same v h = cc (
    get_value-read flags s vs v h,
    get_value-read flags t vt v h,
    same v h,
    ap (read s) (vs.indexed.slots v h),
    ap (read t) (vt.indexed.slots v h),
  )

  same_at :
      SameValues
      → (b : Bool) (i v : ℕ) → v < length flags
      → get_or flags v false ≡ b
      → rank b flags v ≡ i
      → read s (b, i) ≡ read t (b, i)
  same_at same b i v h e r = rw (← r) (rw (← e) (same_slot same v h))

  same_bools : SameValues → s.bool_values ≡ t.bool_values
  same_bools same =
      ext false s.bool_values t.bool_values
        (omega (arith, vs.bool_size, vt.bool_size, vs.indexed.bools, vt.indexed.bools))
        λ i k.
          let (v, l, e, r) = unrank true flags i (omega (arith, vs.bool_size, vs.indexed.bools)) in
          of_bool-injective _ _ (same_at same true i v l e r)

  same_ints : SameValues → s.int_values ≡ t.int_values
  same_ints same =
      ext (pos 0) s.int_values t.int_values
        (omega (arith, vs.int_size, vt.int_size, vs.indexed.ints, vt.indexed.ints))
        λ i k.
          let (v, l, e, r) = unrank false flags i (omega (arith, vs.int_size, vs.indexed.ints)) in
          same_at same false i v l e r

  read_cong :
      s.bool_values ≡ t.bool_values
      → s.int_values ≡ t.int_values
      → (e : Bool × ℕ) → read s e ≡ read t e
  read_cong p q (true, i) = ap (λ (l : List Bool). of_bool (get_or l i false)) p
  read_cong p q (false, i) = ap (λ (l : List ℤ). get_or l i (pos 0)) q

  values_of_vectors : s.bool_values ≡ t.bool_values → s.int_values ≡ t.int_values → SameValues
  values_of_vectors p q v h =
      get_value-read flags s vs v h
      ∙ ap (read s) (vs.indexed.slots v h)
      ∙ read_cong p q (get_or flags v false, rank (get_or flags v false) flags v)
      ∙ sym (get_value-read flags t vt v h ∙ ap (read t) (vt.indexed.slots v h))

  bools_iff : (list_eq bool_eq s.bool_values t.bool_values ≡ true) ↔ (s.bool_values ≡ t.bool_values)
  bools_iff = list_eq_iff bool_eq bool_eq_iff s.bool_values t.bool_values

  ints_iff : (list_eq eq_ℤ s.int_values t.int_values ≡ true) ↔ (s.int_values ≡ t.int_values)
  ints_iff = list_eq_iff eq_ℤ eq_ℤ_iff s.int_values t.int_values

  -- Two valid states of the same variables that are equal by `==` give every variable the same value.
  pub eq-same_value : (v : ℕ) → v < length flags → eq s t ≡ true → get_value s v ≡ get_value t v
  eq-same_value v h e =
      values_of_vectors (bools_iff.0 (ground arith)) (ints_iff.0 (ground arith)) v h

  -- Two valid states of the same variables, whose hashes are those of their values, are equal by `==`,
  -- which looks at the hashes first, if every variable has the same value in both.
  pub same_values-eq :
      (f : List Bool → List ℤ → ℕ)
      → IsHashed f s
      → IsHashed f t
      → ((v : ℕ) → v < length flags → get_value s v ≡ get_value t v)
      → eq s t ≡ true
  same_values-eq f hs ht same = ground (
    arith,
    bools_iff.1 (same_bools same),
    ints_iff.1 (same_ints same),
    (==_iff s.hash t.hash).1 (
        hs
        ∙ ap (f s.bool_values) (same_ints same)
        ∙ ap (λ (l : List Bool). f l t.int_values) (same_bools same)
        ∙ sym ht),
  )
