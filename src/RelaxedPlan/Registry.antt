-- ===== src/RelaxedPlan/Registry.antt =====
-- What the two subclasses of src/heuristics/relaxed_plan/relaxed_plan_extractor.hxx promise to the
-- extraction, and that each of them keeps it.
use planner.Prelude.{
  ℕ, zero, suc, ◌<◌, ◌≡◌, refl, inl, inr, Bool, true, not, ◌&&◌, List, [], ◌∷◌, Option, none, some,
  ◌==◌, ltb, arith, all, any, length, get_or, set, replicate, length-set, length-replicate,
  get_or-set_self, get_or-set_ne, list_eq, Bool-cases, ltb→lt, ==_iff,
}
use planner.Prelude.Outcome.{ok}
use planner.Atom.{eq, eq_self}
use planner.RelaxedPlan.Data.{AtomSupport, RpgData, num_layers}
use planner.RelaxedPlan.Extractor.{
  insert_new, action_eq, SupportedAction, supported_eq, PlanRegistry, supported_extractor,
  propositional_extractor,
}

-- The plan `plan'` was made of `plan` by registering t.
pub record Registers {ℓ} {R : Type ℓ} (fits : R → Bool) (registered : AtomSupport → R → Bool)
    (t : AtomSupport) (plan plan' : R) : Type 0 where
  pub still_fits : fits plan' ≡ true
  pub registers : registered t plan' ≡ true
  pub keeps : (u : AtomSupport) → registered u plan ≡ true → registered u plan' ≡ true

-- A subclass registers every support whose layer the graph has, and forgets none.
pub record RegistryLaws {ℓ} {R : Type ℓ} (subclass : PlanRegistry R) (graph : RpgData)
    : Type ℓ where
  pub fits : R → Bool
  pub registered : AtomSupport → R → Bool
  pub start_fits : fits (subclass.start graph) ≡ true
  pub register-ok :
      (t : AtomSupport) (plan : R)
      → fits plan ≡ true
      → ltb t.layer (num_layers graph) ≡ true
      → (plan' : R) × (subclass.register t plan ≡ ok plan') × Registers fits registered t plan plan'

any-insert_new {ℓ} :
    {A : Type ℓ} (same : A → A → Bool) (p : A → Bool) (x : A) (xs : List A)
    → any p xs ≡ true
    → any p (insert_new same x xs) ≡ true
any-insert_new same p x xs h = ground arith

any-insert_new_self {ℓ} :
    {A : Type ℓ} (same : A → A → Bool) (x : A) (xs : List A)
    → same x x ≡ true
    → any (same x) (insert_new same x xs) ≡ true
any-insert_new_self same x xs h = ground arith

list_eq_self {ℓ} :
    {A : Type ℓ} (same : A → A → Bool) (xs : List A)
    → ((x : A) → same x x ≡ true)
    → list_eq same xs xs ≡ true
list_eq_self same [] h = refl
list_eq_self same (x ∷ xs) h = ground (arith, h x, list_eq_self same xs h)

action_eq_self : (a : Option ℕ) → action_eq a a ≡ true
action_eq_self none = refl
action_eq_self (some a) = ground arith

supported_eq_self : (a : SupportedAction) → supported_eq a a ≡ true
supported_eq_self a =
    ground (arith, action_eq_self a.action, list_eq_self eq a.support (λ x. eq_self x))

-- No two items are the same.
abbrev pub distinct {ℓ} : {A : Type ℓ} → (A → A → Bool) → List A → Bool
distinct same [] = true
distinct same (x ∷ xs) = not (any (same x) xs) && distinct same xs

distinct-insert_new {ℓ} :
    {A : Type ℓ} (same : A → A → Bool) (x : A) (xs : List A)
    → distinct same xs ≡ true
    → distinct same (insert_new same x xs) ≡ true
distinct-insert_new same x xs h = ground arith

all-set {ℓ} :
    {A : Type ℓ} (p : A → Bool) (xs : List A) (i : ℕ) (x : A)
    → all p xs ≡ true
    → p x ≡ true
    → all p (set xs i x) ≡ true
all-set p [] i x h k = h
all-set p (y ∷ ys) zero x h k = ground (arith, h, k)
all-set p (y ∷ ys) (suc i) x h k = ground (arith, all-set p ys i x)

all-get_or {ℓ} :
    {A : Type ℓ} (p : A → Bool) (xs : List A) (i : ℕ) (d : A)
    → all p xs ≡ true
    → p d ≡ true
    → p (get_or xs i d) ≡ true
all-get_or p [] i d h k = k
all-get_or p (y ∷ ys) zero d h k = ground (arith, h)
all-get_or p (y ∷ ys) (suc i) d h k = all-get_or p ys i d (ground (arith, h)) k

all-replicate {ℓ} :
    {A : Type ℓ} (p : A → Bool) (n : ℕ) (x : A) → p x ≡ true → all p (replicate n x) ≡ true
all-replicate p zero x h = refl
all-replicate p (suc n) x h = ground (arith, all-replicate p n x)

-- The action with its support is in the set.
abbrev pub in_supporters : AtomSupport → List SupportedAction → Bool
in_supporters t = any (supported_eq (record { action = t.action; support = t.support }))

-- The plan that registering leaves.
abbrev pub RegisterOk {ℓ} :
    {R : Type ℓ} (subclass : PlanRegistry R)
    → (R → Bool)
    → (AtomSupport → R → Bool)
    → AtomSupport
    → R
    → Type ℓ
RegisterOk {R = R} subclass fits registered t plan =
    (plan' : R) × (subclass.register t plan ≡ ok plan') × Registers fits registered t plan plan'

pub supported-register :
    (t : AtomSupport) (plan : List SupportedAction)
    → distinct supported_eq plan ≡ true
    → RegisterOk supported_extractor (distinct supported_eq) in_supporters t plan
supported-register t plan h =
    let a : SupportedAction = record { action = t.action; support = t.support } in
    (
      insert_new supported_eq a plan,
      refl,
      record {
        still_fits = distinct-insert_new supported_eq a plan h;
        registers = any-insert_new_self supported_eq a plan (supported_eq_self a);
        keeps = λ u k.
            any-insert_new supported_eq
              (supported_eq (record { action = u.action; support = u.support })) a plan k;
      },
    )

unfoldable pub supported_laws : (graph : RpgData) → RegistryLaws supported_extractor graph
supported_laws graph = record {
  fits = distinct supported_eq;
  registered = in_supporters;
  start_fits = refl;
  register-ok = λ t plan h l. supported-register t plan h;
}

-- The action is in the set of its layer.
abbrev pub in_layer : AtomSupport → List (List (Option ℕ)) → Bool
in_layer t layers = any (action_eq t.action) (get_or layers t.layer [])

in_layer-set :
    (t u : AtomSupport) (layers : List (List (Option ℕ)))
    → t.layer < length layers
    → in_layer u layers ≡ true
    → in_layer u (set layers t.layer (insert_new action_eq t.action (get_or layers t.layer [])))
      ≡ true
in_layer-set t u layers l h =
    let added : List (Option ℕ) = insert_new action_eq t.action (get_or layers t.layer []) in
    elim (Bool-cases (t.layer == u.layer)) [
      | inl e ↦
          let same : t.layer ≡ u.layer = (==_iff t.layer u.layer).0 e in
          rw (← same, get_or-set_self layers t.layer added [] l)
            (any-insert_new action_eq (action_eq u.action) t.action (get_or layers t.layer [])
              (rw same h))
      | inr e ↦
          rw
            (get_or-set_ne layers t.layer u.layer added []
              (λ same. absurd (ground (arith, same, e))))
            h
    ]

-- There is a set for each layer of the graph.
abbrev pub layers_fit : RpgData → List (List (Option ℕ)) → Bool
layers_fit graph layers = (length layers == num_layers graph) && all (distinct action_eq) layers

pub start-layers_fit : (graph : RpgData) → layers_fit graph (replicate (num_layers graph) []) ≡ true
start-layers_fit graph =
    rw (length-replicate {A = List (Option ℕ)} (num_layers graph) [])
      (ground (arith, all-replicate (distinct action_eq) (num_layers graph) [] refl))

pub propositional-register :
    (graph : RpgData) (t : AtomSupport) (layers : List (List (Option ℕ)))
    → layers_fit graph layers ≡ true
    → ltb t.layer (num_layers graph) ≡ true
    → RegisterOk propositional_extractor (layers_fit graph) in_layer t layers
propositional-register graph t layers h l =
    let added : List (Option ℕ) = insert_new action_eq t.action (get_or layers t.layer []) in
    let inside : t.layer < length layers = omega (
      arith,
      ltb→lt t.layer (num_layers graph) l,
      (==_iff (length layers) (num_layers graph)).0 (ground (arith, h)),
    ) in
    (
      set layers t.layer added,
      ground (arith, inside),
      record {
        still_fits = rw (length-set layers t.layer added) (
            ground (
              arith,
              h,
              all-set (distinct action_eq) layers t.layer added,
              distinct-insert_new action_eq t.action (get_or layers t.layer []),
              all-get_or (distinct action_eq) layers t.layer [],
            ));
        registers = rw (get_or-set_self layers t.layer added [] inside) (
            any-insert_new_self action_eq t.action (get_or layers t.layer [])
              (action_eq_self t.action));
        keeps = λ u k. in_layer-set t u layers inside k;
      },
    )

unfoldable pub propositional_laws : (graph : RpgData) → RegistryLaws propositional_extractor graph
propositional_laws graph = record {
  fits = layers_fit graph;
  registered = in_layer;
  start_fits = start-layers_fit graph;
  register-ok = propositional-register graph;
}
