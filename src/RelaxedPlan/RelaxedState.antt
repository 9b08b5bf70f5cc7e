-- ===== src/RelaxedPlan/RelaxedState.antt =====
-- src/relaxed_state.hxx and relaxed_state.cxx: for each state variable the set of the values it may have.
use planner.Prelude.{
  ℕ, zero, suc, ◌≡◌, refl, inl, inr, true, false, ◌||◌, List, [], ◌∷◌, arith, length, get_or,
  if◌then◌else◌, Bool-cases,
}
use planner.Prelude.Int.{ℤ, eq_ℤ, ltb_ℤ}
use planner.Prelude.Outcome.{Result, ok, err, out_of_range, ◌>>=◌}
use planner.Atom.{Atom, eq, eq_iff}
use planner.State.{State, num_atoms, get_value}
use planner.Direct.Domain.{Domain, member}
use planner.RelaxedPlan.Data.{SupportMap, has}
use planner.RelaxedPlan.Lookup.{reached_before, layer_values, keys_differ}

-- `flat_set::insert` of one value, and of a range
abbrev pub insert_value : ℤ → Domain → Domain
insert_value y [] = y ∷ []
insert_value y (x ∷ xs) =
    if ltb_ℤ x y then x ∷ insert_value y xs else if eq_ℤ x y then x ∷ xs else y ∷ x ∷ xs

abbrev pub insert_values : List ℤ → Domain → Domain
insert_values [] d = d
insert_values (y ∷ ys) d = insert_values ys (insert_value y d)

-- `_domains`
abbrev pub RelaxedState : Type 0
RelaxedState = List Domain

-- The loop of the constructor over the variables from v on; n of them are left.
abbrev pub singletons : State → ℕ → ℕ → RelaxedState
singletons s zero v = []
singletons s (suc n) v = insert_value (get_value s v) [] ∷ singletons s n (suc v)

abbrev pub relax : State → RelaxedState
relax s = singletons s (num_atoms s) 0

-- The loop of `accumulate`, which reads the domains by `at`: the domains of the variables before the one
-- that is reached are done.
unfoldable pub accumulate_novel : RelaxedState → List (List ℤ) → Result RelaxedState
accumulate_novel domains [] = ok domains
accumulate_novel [] (values ∷ atoms) = err out_of_range
accumulate_novel (d ∷ domains) (values ∷ atoms) =
    accumulate_novel domains atoms >>= (λ rest. ok (insert_values values d ∷ rest))

pub member-insert_value :
    (x y : ℤ) (d : Domain) → member x (insert_value y d) ≡ (eq_ℤ y x || member x d)
member-insert_value x y [] = ground arith
member-insert_value x y (z ∷ zs) = ground (arith, member-insert_value x y zs)

pub member-insert_values :
    (x : ℤ) (ys : List ℤ) (d : Domain) → member x (insert_values ys d) ≡ (member x ys || member x d)
member-insert_values x [] d = refl
member-insert_values x (y ∷ ys) d =
    ground (arith, member-insert_values x ys (insert_value y d), member-insert_value x y d)

member-accumulated :
    (values : List ℤ) (atoms : List (List ℤ)) (d : Domain) (domains rest : RelaxedState)
    → ((v : ℕ) (x : ℤ)
        → member x (get_or rest v [])
          ≡ (member x (get_or atoms v []) || member x (get_or domains v [])))
    → (v : ℕ) (x : ℤ)
    → member x (get_or (insert_values values d ∷ rest) v [])
      ≡ (member x (get_or (values ∷ atoms) v []) || member x (get_or (d ∷ domains) v []))
member-accumulated values atoms d domains rest f zero x = member-insert_values x values d
member-accumulated values atoms d domains rest f (suc v) x = f v x

-- What the domains contain after the novel values were accumulated.
pub member-accumulate_novel :
    (domains : RelaxedState) (atoms : List (List ℤ))
    → length atoms ≡ length domains
    → (domains' : RelaxedState) × (accumulate_novel domains atoms ≡ ok domains')
      × (length domains' ≡ length domains)
      × ((v : ℕ) (x : ℤ)
          → member x (get_or domains' v [])
            ≡ (member x (get_or atoms v []) || member x (get_or domains v [])))
unfolding accumulate_novel
member-accumulate_novel domains [] h = (domains, refl, refl, λ v x. refl)
member-accumulate_novel [] (values ∷ atoms) h = absurd (omega arith)
member-accumulate_novel (d ∷ domains) (values ∷ atoms) h =
    let (rest, e, w, f) = member-accumulate_novel domains atoms (omega arith) in
    rw e (
      insert_values values d ∷ rest,
      refl,
      ground (arith, w),
      member-accumulated values atoms d domains rest f,
    )

-- An atom without an entry is in no layer.
member-layer_values :
    (m : SupportMap) (n : ℕ) (a : Atom)
    → has m a ≡ false
    → member a.value (layer_values m n a.variable) ≡ false
member-layer_values [] n a h = refl
member-layer_values ((b, t) ∷ m) n a h = ground (arith, member-layer_values m n a)

reached_before-has_not :
    (m : SupportMap) (n : ℕ) (a : Atom) → has m a ≡ false → reached_before m n a ≡ false
reached_before-has_not [] n a h = refl
reached_before-has_not ((b, t) ∷ m) n a h = ground (arith, reached_before-has_not m n a)

-- An atom was reached up to layer n if it was first reached there, or before.
pub reached_before-suc :
    (m : SupportMap) (n : ℕ) (a : Atom)
    → keys_differ m ≡ true
    → reached_before m (suc n) a
      ≡ (member a.value (layer_values m n a.variable) || reached_before m n a)
reached_before-suc [] n a h = refl
reached_before-suc ((b, t) ∷ m) n a h = elim (Bool-cases (eq b a)) [
  | inl e ↦
      let name : b ≡ a = (eq_iff b a).0 e in
      let absent : has m a ≡ false = rw (← name) (ground (arith, h)) in
      ground (arith, e, member-layer_values m n a absent)
  | inr e ↦ ground (arith, e, h, reached_before-suc m n a)
]
