-- ===== src/Language/Bind/Returns.antt =====
-- src/languages/fstrips/operations/binding.cxx: a term that has a value under a binding can be bound under
-- any part of that binding, so that no exception comes from it.
use planner.Prelude.{
  ℕ, ◌≡◌, refl, sym, ◌∙◌, inl, inr, List, [], ◌++◌, arith, ◌==◌, length, if◌then◌else◌, Bool-cases,
}
use planner.Prelude.Int.{ℤ}
use planner.Prelude.Outcome.{ok, >>=-eq-ok, ok_injective}
use planner.Info.{ProblemInfo, is_bounded_type, resolve_state_variable}
use planner.Binding.{Binding}
use planner.Binding.Laws.{IsWellFormed, lookup_cases}
use planner.Language.Syntax.{
  Operation, Term, Terms, constant, int_constant, state_variable, bound_variable, arithmetic,
  user_defined_static, fluent_headed, nil, cons, num_terms,
}
use planner.Language.Builtin.{apply_operation}
use planner.Language.Interpret.{Assignment, interpret_term, interpret_subterms, interpret_variable}
use planner.Language.Bind.{constant_value, fold_operation, bind_fluent, bind_term, bind_subterms}
use planner.Language.Bind.TermValue.{
  Extends, AgreesWith, constant_value_cases, interpret_term-bind_term, subterms_value,
}

module _ (info : ProblemInfo) (a : Assignment) (b c : Binding) (hb : IsWellFormed b)
    (hc : IsWellFormed c) (extends : Extends b c) where
  fold_operation_returns :
      (op : Operation) (l r : Term) (x y z : ℤ)
      → interpret_term info a l c ≡ ok x
      → interpret_term info a r c ≡ ok y
      → apply_operation op x y ≡ ok z
      → (t : Term) × (fold_operation (arithmetic op) (apply_operation op) l r ≡ ok t)
  unfolding fold_operation
  fold_operation_returns op l r x y z hl hr hz =
      elim (constant_value_cases info a b c hb hc extends l) [
        | inl n ↦ (arithmetic op l r, rw (n, fold_operation) refl)
        | inr (x', n, k) ↦ elim (constant_value_cases info a b c hb hc extends r) [
          | inl m ↦ (arithmetic op l r, rw (n, m, fold_operation) refl)
          | inr (y', m, k') ↦ (
            int_constant z,
            rw (n, m, fold_operation, ok_injective (sym k ∙ hl), ok_injective (sym k' ∙ hr), hz)
                refl,
          )
        ]
      ]

  -- What a function symbol with bound subterms becomes still stands for the same variable.
  bind_fluent_returns :
      (symbol : ℕ) (ts : Terms) (constants xs : List ℤ) (v : ℕ)
      → AgreesWith info a b c hb hc extends (ts, constants) xs
      → resolve_state_variable info symbol xs ≡ ok v
      → (t : Term) × (bind_fluent info b symbol (ts, constants) ≡ ok t)
        × (interpret_variable info a t c ≡ ok v)
  unfolding bind_fluent interpret_variable
  bind_fluent_returns symbol ts constants xs v (hs, small, agree) hv =
      elim (Bool-cases (length constants == num_terms ts)) [
        | inl full ↦ (state_variable v symbol ts, rw (full, agree (ground arith), hv) refl, refl)
        | inr part ↦ (fluent_headed symbol ts, rw part refl, rw (hs, hv) refl)
      ]

  mutual
    unfolding interpret_term bind_term

    pub bind_term_returns :
        (t : Term) (x : ℤ)
        → interpret_term info a t c ≡ ok x
        → (t' : Term) × (bind_term info b t ≡ ok t')
    bind_term_returns (constant y) x h = (constant y, refl)
    bind_term_returns (int_constant y) x h = (int_constant y, refl)
    bind_term_returns (state_variable v symbol ts) x h = (state_variable v symbol ts, refl)
    bind_term_returns (bound_variable y) x h = elim (lookup_cases b y.id hb) [
      | inl (f, n, k) ↦ (bound_variable y, rw f refl)
      | inr (z, s, n, k) ↦
          (if is_bounded_type info y.type then int_constant z else constant z, rw (s, k) refl)
    ]
    bind_term_returns (arithmetic op l r) x h =
        let (u, hu, h') = >>=-eq-ok (interpret_term info a l c) _ h in
        let (v, hv, hz) = >>=-eq-ok (interpret_term info a r c) _ h' in
        let (l', el) = bind_term_returns l u hu in
        let (r', er) = bind_term_returns r v hv in
        let (t', e) =
          fold_operation_returns op l' r' u v x
            (interpret_term-bind_term info a b c hb hc extends l l' u hu el)
            (interpret_term-bind_term info a b c hb hc extends r r' v hv er) hz in
        (t', rw (el, er) e)
    bind_term_returns (user_defined_static symbol ts) x h =
        let (xs, hs, h') = >>=-eq-ok (interpret_subterms info a ts c) _ h in
        let (bound, es) = bind_subterms_returns ts xs hs in
        (user_defined_static symbol bound.0, rw es refl)
    bind_term_returns (fluent_headed symbol ts) x h =
        let (xs, hs, h') = >>=-eq-ok (interpret_subterms info a ts c) _ h in
        let (v, hv, hx) = >>=-eq-ok (resolve_state_variable info symbol xs) _ h' in
        let (bound, es) = bind_subterms_returns ts xs hs in
        let (t', e, _) =
          bind_fluent_returns symbol bound.0 bound.1 xs v
            (subterms_value info a b c hb hc extends ts bound xs hs es) hv in
        (t', rw es e)

    bind_subterms_returns :
        (ts : Terms) (xs : List ℤ)
        → interpret_subterms info a ts c ≡ ok xs
        → (bound : Terms × List ℤ) × (bind_subterms info b ts ≡ ok bound)
    bind_subterms_returns nil xs h = ((nil, []), refl)
    bind_subterms_returns (cons t ts) xs h =
        let (x, hx, h') = >>=-eq-ok (interpret_term info a t c) _ h in
        let (ys, hs, h'') = >>=-eq-ok (interpret_subterms info a ts c) _ h' in
        let (t', et) = bind_term_returns t x hx in
        let (rest, es) = bind_subterms_returns ts ys hs in
        ((cons t' rest.0, constant_value t' ++ rest.1), rw (et, es) refl)

  -- A term that stands for a variable can be bound, and still stands for it.
  pub bind_variable_returns :
      (t : Term) (v : ℕ)
      → interpret_variable info a t c ≡ ok v
      → (t' : Term) × (bind_term info b t ≡ ok t') × (interpret_variable info a t' c ≡ ok v)
  unfolding interpret_variable bind_term
  bind_variable_returns (state_variable w symbol ts) v h = (state_variable w symbol ts, refl, h)
  bind_variable_returns (fluent_headed symbol ts) v h =
      let (xs, hs, hv) = >>=-eq-ok (interpret_subterms info a ts c) _ h in
      let (bound, es) = bind_subterms_returns ts xs hs in
      let (t', e, k) =
        bind_fluent_returns symbol bound.0 bound.1 xs v
          (subterms_value info a b c hb hc extends ts bound xs hs es) hv in
      (t', rw es e, k)
  bind_variable_returns (constant y) v h = absurd (cc h)
  bind_variable_returns (int_constant y) v h = absurd (cc h)
  bind_variable_returns (bound_variable y) v h = absurd (cc h)
  bind_variable_returns (arithmetic op l r) v h = absurd (cc h)
  bind_variable_returns (user_defined_static symbol ts) v h = absurd (cc h)
