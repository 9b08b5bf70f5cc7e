-- ===== src/AtomIndex/Entries.antt =====
-- The entries of the index of src/utils/atom_index.cxx: what an addition changes and what is found after it.
use planner.Prelude.{
  ℕ, zero, suc, ◌<◌, ◌≡◌, ◌⊎◌, refl, sym, ◌∙◌, ap, inl, inr, Bool, true, false, List, [], ◌∷◌, ◌++◌,
  Option, none, some, arith, length, get_elem?, get_or, set, if◌then◌else◌, Bool-cases,
}
use planner.Prelude.Int.{ℤ, eq_ℤ, eq_ℤ_iff}
use planner.Prelude.Outcome.{
  Error, ok, out_of_range, undefined, or_throw, ◌>>=◌, >>=-eq-ok, ok_injective,
}
use planner.Atom.{Atom}
use planner.Info.{ProblemInfo, is_predicate}
use planner.AtomIndex.{find_entry, insert_entry, AtomIndex, change_at, add_tuple, add, to_index}

-- What `add` does to the atoms.
pub record Enters (idx : ℕ) (a : Atom) (x x' : AtomIndex) : Type 0 where
  pub atoms : x'.atom_index ≡ x.atom_index ++ (a ∷ [])
  pub entries :
      x'.atom_index_inv
      ≡ set x.atom_index_inv a.variable
          (insert_entry eq_ℤ (get_or x.atom_index_inv a.variable []) a.value idx)
  pub flag : x'.indexes_negated_literals ≡ x.indexes_negated_literals
  pub inside : a.variable < length x.atom_index_inv

pub or_throw-cons {ℓ} :
    {A : Type ℓ} (o : Option A) (g : A → List A) (x : A)
    → (or_throw o out_of_range >>= (λ y. ok (x ∷ g y)))
      ≡ (or_throw o out_of_range >>= (λ y. ok (g y)) >>= (λ zs. ok (x ∷ zs)))
or_throw-cons none g x = refl
or_throw-cons (some y) g x = refl

pub change_at-ok {ℓ} :
    {A : Type ℓ} (xs : List A) (i : ℕ) (f : A → A) (d : A) {ys : List A}
    → change_at xs i f ≡ ok ys
    → (ys ≡ set xs i (f (get_or xs i d))) × (i < length xs)
change_at-ok [] i f d h = absurd cc
change_at-ok (x ∷ xs) zero f d h = (sym (ok_injective h), omega arith)
change_at-ok (x ∷ xs) (suc i) f d h =
    let (ys', e, k) =
      >>=-eq-ok (change_at xs i f) (λ zs. ok (x ∷ zs))
        (sym (or_throw-cons (get_elem? xs i) (λ y. set xs i (f y)) x) ∙ h) in
    let (same, inside) = change_at-ok xs i f d e in
    (sym (ok_injective k) ∙ ap (λ zs. x ∷ zs) same, omega arith)

pub add-Enters :
    (info : ProblemInfo) (symbol : ℕ) (tuple : List ℤ) (idx : ℕ) (a : Atom) (x : AtomIndex)
    {x' : AtomIndex}
    → add info symbol tuple idx a x ≡ ok x'
    → Enters idx a x x'
unfolding add
add-Enters info symbol tuple idx a x h =
    let (predicate, _, h1) = >>=-eq-ok (is_predicate info symbol) _ h in
    let (tuples, _, h2) = >>=-eq-ok (add_tuple predicate symbol tuple idx a x) _ h1 in
    let (atoms, e, h3) =
      >>=-eq-ok (change_at x.atom_index_inv a.variable (λ m. insert_entry eq_ℤ m a.value idx)) _
        h2 in
    let (variables, _, h4) =
      >>=-eq-ok (change_at x.variable_to_atom_index a.variable (λ indexes. indexes ++ (idx ∷ []))) _
        h3 in
    let same = sym (ok_injective h4) in
    let (entries, inside) = change_at-ok x.atom_index_inv a.variable _ [] e in
    record {
      atoms = ap (λ y. y.atom_index) same;
      entries = ap (λ y. y.atom_index_inv) same ∙ entries;
      flag = ap (λ y. y.indexes_negated_literals) same;
      inside = inside;
    }

pub find_entry-insert_entry :
    (m : List (ℤ × ℕ)) (k value : ℤ) (i j : ℕ)
    → find_entry eq_ℤ (insert_entry eq_ℤ m k i) value ≡ some j
    → (find_entry eq_ℤ m value ≡ some j) ⊎ ((k ≡ value) × (i ≡ j))
find_entry-insert_entry [] k value i j h = elim (Bool-cases (eq_ℤ k value)) [
  | inl e ↦ inr ((eq_ℤ_iff k value).0 e, ground (arith, e, h))
  | inr e ↦ absurd (ground (arith, e, h))
]
find_entry-insert_entry ((l, p) ∷ m) k value i j h = elim (Bool-cases (eq_ℤ l k)) [
  | inl e ↦ inl (ground (arith, e, h))
  | inr e ↦ elim (Bool-cases (eq_ℤ l value)) [
    | inl f ↦ inl (ground (arith, e, f, h))
    | inr f ↦ elim (find_entry-insert_entry m k value i j (ground (arith, e, f, h))) [
      | inl q ↦ inl (ground (arith, f, q))
      | inr q ↦ inr q
    ]
  ]
]

pub find_entry-kept :
    (m : List (ℤ × ℕ)) (k value : ℤ) (i j : ℕ)
    → find_entry eq_ℤ m value ≡ some j
    → find_entry eq_ℤ (insert_entry eq_ℤ m k i) value ≡ some j
find_entry-kept [] k value i j h = absurd cc
find_entry-kept ((l, p) ∷ m) k value i j h =
    ground (arith, h, find_entry-kept m k value i j, eq_ℤ_iff l k, eq_ℤ_iff l value)

pub find_entry-added :
    (m : List (ℤ × ℕ)) (k : ℤ) (i : ℕ)
    → (j : ℕ) × (find_entry eq_ℤ (insert_entry eq_ℤ m k i) k ≡ some j)
find_entry-added [] k i = (i, ground (arith, eq_ℤ_iff k k))
find_entry-added ((l, p) ∷ m) k i = elim (Bool-cases (eq_ℤ l k)) [
  | inl e ↦ (p, ground (arith, e))
  | inr e ↦ let (j, f) = find_entry-added m k i in (j, ground (arith, e, f))
]

pub get_elem?-append_last {ℓ} :
    {A : Type ℓ} (xs : List A) (x : A) (i : ℕ) {y : A}
    → get_elem? (xs ++ (x ∷ [])) i ≡ some y
    → (get_elem? xs i ≡ some y) ⊎ ((x ≡ y) × (i ≡ length xs))
get_elem?-append_last [] x zero h = inr (cc, refl)
get_elem?-append_last [] x (suc i) h = absurd cc
get_elem?-append_last (z ∷ zs) x zero h = inl h
get_elem?-append_last (z ∷ zs) x (suc i) h = elim (get_elem?-append_last zs x i h) [
  | inl e ↦ inl e
  | inr (e, k) ↦ inr (e, ap suc k)
]

pub get_elem?-append {ℓ} :
    {A : Type ℓ} (xs ys : List A) (i : ℕ) {y : A}
    → get_elem? xs i ≡ some y
    → get_elem? (xs ++ ys) i ≡ some y
get_elem?-append [] ys i h = absurd cc
get_elem?-append (z ∷ zs) ys zero h = h
get_elem?-append (z ∷ zs) ys (suc i) h = get_elem?-append zs ys i h

pub get_elem?-last {ℓ} :
    {A : Type ℓ} (xs : List A) (x : A) → get_elem? (xs ++ (x ∷ [])) (length xs) ≡ some x
get_elem?-last [] x = refl
get_elem?-last (z ∷ zs) x = get_elem?-last zs x

pub or_throw-ok {ℓ} :
    {A : Type ℓ} (o : Option A) (missing : Error) {y : A} → or_throw o missing ≡ ok y → o ≡ some y
or_throw-ok none missing h = absurd cc
or_throw-ok (some x) missing h = ap some (ok_injective h)

pub to_index-entry :
    (inv : List (List (ℤ × ℕ))) (v : ℕ) (value : ℤ) (j : ℕ)
    → to_index inv v value ≡ ok j
    → find_entry eq_ℤ (get_or inv v []) value ≡ some j
to_index-entry [] v value j h = absurd cc
to_index-entry (m ∷ inv) zero value j h = or_throw-ok (find_entry eq_ℤ m value) undefined h
to_index-entry (m ∷ inv) (suc v) value j h = to_index-entry inv v value j h

pub entry-to_index :
    (inv : List (List (ℤ × ℕ))) (v : ℕ) (value : ℤ) (j : ℕ)
    → find_entry eq_ℤ (get_or inv v []) value ≡ some j
    → to_index inv v value ≡ ok j
entry-to_index [] v value j h = absurd cc
entry-to_index (m ∷ inv) zero value j h = rw h refl
entry-to_index (m ∷ inv) (suc v) value j h = entry-to_index inv v value j h

pub if-cases {ℓ} :
    {A : Type ℓ} (b : Bool) {x y z : A} → (if b then x else y) ≡ z → (x ≡ z) ⊎ (y ≡ z)
if-cases true h = inl h
if-cases false h = inr h
