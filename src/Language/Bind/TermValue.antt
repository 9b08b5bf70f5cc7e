-- ===== src/Language/Bind/TermValue.antt =====
-- src/languages/fstrips/operations/binding.cxx: the value of a term before and after binding.
use planner.Prelude.{
  ℕ, suc, ◌≤◌, ◌≡◌, refl, sym, ap, ◌∙◌, ◌⊎◌, inl, inr, Bool, true, false, some, List, [], ◌∷◌, ◌++◌,
  arith, ◌==◌, length, if◌then◌else◌, Bool-cases,
}
use planner.Prelude.Int.{ℤ}
use planner.Prelude.Outcome.{Result, ok, ◌>>=◌, >>=-eq-ok, ok_injective}
use planner.Info.{ProblemInfo, is_bounded_type, resolve_state_variable}
use planner.Binding.{Binding}
use planner.Binding.Laws.{IsWellFormed, lookup, lookup_cases}
use planner.Language.Syntax.{
  Operation, Term, Terms, constant, int_constant, state_variable, bound_variable, arithmetic,
  user_defined_static, fluent_headed, nil, cons, num_terms,
}
use planner.Language.Builtin.{apply_operation}
use planner.Language.Interpret.{Assignment, fetch, interpret_term, interpret_subterms}
use planner.Language.Bind.{constant_value, fold_operation, bind_fluent, bind_term, bind_subterms}

-- c has the values of b, and perhaps more.
abbrev pub Extends : Binding → Binding → Type 0
Extends b c = (v : ℕ) (x : ℤ) → lookup b v ≡ some x → lookup c v ≡ some x

module _ (info : ProblemInfo) (a : Assignment) (b c : Binding) (hb : IsWellFormed b)
    (hc : IsWellFormed c) (extends : Extends b c) where
  -- The constants found are the values of their terms, if they are as many as the terms.
  abbrev pub AgreesWith : Terms × List ℤ → List ℤ → Type 0
  AgreesWith (ts, constants) xs =
      (interpret_subterms info a ts c ≡ ok xs)
      × (length constants ≤ num_terms ts)
      × (length constants ≡ num_terms ts → constants ≡ xs)

  pub constant_value_cases :
      (t : Term)
      → (constant_value t ≡ [])
        ⊎ ((y : ℤ) × (constant_value t ≡ y ∷ []) × (interpret_term info a t c ≡ ok y))
  unfolding interpret_term
  constant_value_cases (constant x) = inr (x, refl, refl)
  constant_value_cases (int_constant x) = inr (x, refl, refl)
  constant_value_cases (state_variable _ _ _) = inl refl
  constant_value_cases (bound_variable _) = inl refl
  constant_value_cases (arithmetic _ _ _) = inl refl
  constant_value_cases (user_defined_static _ _) = inl refl
  constant_value_cases (fluent_headed _ _) = inl refl

  same_value :
      (t t' : Term) (x : ℤ)
      → ok t ≡ ok t'
      → interpret_term info a t c ≡ ok x
      → interpret_term info a t' c ≡ ok x
  same_value t t' x e h = ap (λ (u : Term). interpret_term info a u c) (sym (ok_injective e)) ∙ h

  arithmetic_value :
      (op : Operation) (l r : Term) (x y z : ℤ)
      → interpret_term info a l c ≡ ok x
      → interpret_term info a r c ≡ ok y
      → apply_operation op x y ≡ ok z
      → interpret_term info a (arithmetic op l r) c ≡ ok z
  unfolding interpret_term
  arithmetic_value op l r x y z hl hr hz = rw (hl, hr) hz

  int_constant_value :
      (m : Result ℤ) (t : Term) (z : ℤ)
      → m ≡ ok z
      → (m >>= λ w. ok (int_constant w)) ≡ ok t
      → interpret_term info a t c ≡ ok z
  unfolding interpret_term
  int_constant_value m t z hm ht =
      same_value (int_constant z) t z
        (sym (ap (λ (k : Result ℤ). k >>= λ w. ok (int_constant w)) hm) ∙ ht) refl

  fold_operation_value :
      (op : Operation) (l r t : Term) (x y z : ℤ)
      → interpret_term info a l c ≡ ok x
      → interpret_term info a r c ≡ ok y
      → apply_operation op x y ≡ ok z
      → fold_operation (arithmetic op) (apply_operation op) l r ≡ ok t
      → interpret_term info a t c ≡ ok z
  unfolding fold_operation
  fold_operation_value op l r t x y z hl hr hz ht = elim (constant_value_cases l) [
    | inl n ↦
        same_value (arithmetic op l r) t z (rw (n, fold_operation) at ht)
          (arithmetic_value op l r x y z hl hr hz)
    | inr (x', n, k) ↦ elim (constant_value_cases r) [
      | inl m ↦
          same_value (arithmetic op l r) t z (rw (n, m, fold_operation) at ht)
            (arithmetic_value op l r x y z hl hr hz)
      | inr (y', m, k') ↦
          int_constant_value (apply_operation op x' y') t z
            (rw (ok_injective (sym k ∙ hl), ok_injective (sym k' ∙ hr)) hz)
            (rw (n, m, fold_operation) at ht)
    ]
  ]

  bind_fluent_value :
      (symbol : ℕ) (ts : Terms) (constants xs : List ℤ) (t : Term) (v : ℕ) (x : ℤ)
      → AgreesWith (ts, constants) xs
      → resolve_state_variable info symbol xs ≡ ok v
      → fetch a v ≡ ok x
      → bind_fluent info b symbol (ts, constants) ≡ ok t
      → interpret_term info a t c ≡ ok x
  unfolding bind_fluent interpret_term
  bind_fluent_value symbol ts constants xs t v x (hs, small, agree) hv hx e =
      elim (Bool-cases (length constants == num_terms ts)) [
        | inl full ↦
            same_value (state_variable v symbol ts) t x (rw (full, agree (ground arith), hv) at e)
              hx
        | inr part ↦ same_value (fluent_headed symbol ts) t x (rw part at e) (rw (hs, hv) hx)
      ]

  variable_value :
      (bounded : Bool) (z x : ℤ)
      → z ≡ x
      → interpret_term info a (if bounded then int_constant z else constant z) c ≡ ok x
  unfolding interpret_term
  variable_value true z x h = ap ok h
  variable_value false z x h = ap ok h

  more_constants :
      (t : Term) (x : ℤ) (n : ℕ) (constants xs : List ℤ)
      → interpret_term info a t c ≡ ok x
      → length constants ≤ n
      → (length constants ≡ n → constants ≡ xs)
      → (length (constant_value t ++ constants) ≤ suc n)
        × (length (constant_value t ++ constants) ≡ suc n → constant_value t ++ constants ≡ x ∷ xs)
  more_constants t x n constants xs h small agree = elim (constant_value_cases t) [
    | inl e ↦ rw e (omega arith, λ k. absurd (omega arith))
    | inr (y, e, k) ↦
        rw e (omega arith, λ q. rw (ok_injective (sym k ∙ h), agree (omega arith)) refl)
  ]

  mutual
    unfolding interpret_term bind_term

    term_value :
        (t t' : Term) (x : ℤ)
        → interpret_term info a t c ≡ ok x
        → bind_term info b t ≡ ok t'
        → interpret_term info a t' c ≡ ok x
    term_value (constant y) t' x h e = same_value (constant y) t' x e h
    term_value (int_constant y) t' x h e = same_value (int_constant y) t' x e h
    term_value (state_variable v symbol ts) t' x h e =
        same_value (state_variable v symbol ts) t' x e h
    term_value (bound_variable y) t' x h e = elim (lookup_cases b y.id hb) [
      | inl (f, n, k) ↦ same_value (bound_variable y) t' x (rw f at e) h
      | inr (z, s, n, k) ↦ elim (lookup_cases c y.id hc) [
        | inl (f, m, k') ↦ absurd (cc (m, extends y.id z n))
        | inr (w, s', m, k') ↦
            same_value (if is_bounded_type info y.type then int_constant z else constant z) t' x
              (rw (s, k) at e)
              (variable_value (is_bounded_type info y.type) z x
                (cc (m, extends y.id z n, rw (s', k') at h)))
      ]
    ]
    term_value (arithmetic op l r) t' x h e =
        let (u, hu, h') = >>=-eq-ok (interpret_term info a l c) _ h in
        let (v, hv, hz) = >>=-eq-ok (interpret_term info a r c) _ h' in
        let (l', el, e') = >>=-eq-ok (bind_term info b l) _ e in
        let (r', er, ef) = >>=-eq-ok (bind_term info b r) _ e' in
        fold_operation_value op l' r' t' u v x (term_value l l' u hu el) (term_value r r' v hv er)
          hz ef
    term_value (user_defined_static symbol ts) t' x h e =
        let (xs, hs, h') = >>=-eq-ok (interpret_subterms info a ts c) _ h in
        let (bound, es, e') = >>=-eq-ok (bind_subterms info b ts) _ e in
        let agree = subterms_value ts bound xs hs es in
        same_value (user_defined_static symbol bound.0) t' x e' (rw (agree.0) h')
    term_value (fluent_headed symbol ts) t' x h e =
        let (xs, hs, h') = >>=-eq-ok (interpret_subterms info a ts c) _ h in
        let (v, hv, hx) = >>=-eq-ok (resolve_state_variable info symbol xs) _ h' in
        let (bound, es, e') = >>=-eq-ok (bind_subterms info b ts) _ e in
        bind_fluent_value symbol bound.0 bound.1 xs t' v x (subterms_value ts bound xs hs es) hv hx
          e'

    pub subterms_value :
        (ts : Terms) (bound : Terms × List ℤ) (xs : List ℤ)
        → interpret_subterms info a ts c ≡ ok xs
        → bind_subterms info b ts ≡ ok bound
        → AgreesWith bound xs
    subterms_value nil bound xs h e =
        rw (← ok_injective e, ← ok_injective h) (refl, omega arith, λ _. refl)
    subterms_value (cons t ts) bound xs h e =
        let (x, hx, h') = >>=-eq-ok (interpret_term info a t c) _ h in
        let (ys, hs, h'') = >>=-eq-ok (interpret_subterms info a ts c) _ h' in
        let (t', et, e') = >>=-eq-ok (bind_term info b t) _ e in
        let (rest, es, e'') = >>=-eq-ok (bind_subterms info b ts) _ e' in
        let ih = subterms_value ts rest ys hs es in
        let iht = term_value t t' x hx et in
        let (small, agree) = more_constants t' x (num_terms rest.0) rest.1 ys iht ih.1 ih.2 in
        rw (← ok_injective e'', ← ok_injective h'') (rw (iht, ih.0) refl, small, agree)

  -- Binding a term keeps its value: if a term has a value under a well-formed binding c, and it is bound
  -- under a well-formed binding b that c extends, then the bound term has the same value under c.
  pub interpret_term-bind_term :
      (t t' : Term) (x : ℤ)
      → interpret_term info a t c ≡ ok x
      → bind_term info b t ≡ ok t'
      → interpret_term info a t' c ≡ ok x
  interpret_term-bind_term t t' x h e = term_value t t' x h e
