-- ===== src/AtomIndex/Listing.antt =====
-- `compute_all_reachable_tuples` of src/utils/atom_index.cxx: what it lists for each symbol.
use planner.Prelude.{
  ℕ, zero, suc, ◌+◌, ◌≤◌, ◌<◌, ◌≡◌, refl, sym, ◌∙◌, ap, inl, inr, List, [], ◌∷◌, ◌++◌, Option, some,
  map, ◌==◌, arith, length, get_elem?, get_or, set, get_or-set_self, get_or-set_ne, Bool-cases,
  ==_iff,
}
use mathlib.Core.Path.{subst}
use planner.Prelude.Int.{ℤ}
use planner.Prelude.Outcome.{ok, out_of_range, or_throw, >>=-eq-ok, ok_injective}
use planner.Atom.{Atom}
use planner.Info.{ProblemInfo, num_variables, get_type_objects}
use planner.AtomIndex.{reachable_loop}
use planner.AtomIndex.Entries.{get_elem?-append, or_throw-ok}

-- The tuple, with its value, is listed for the symbol.
abbrev pub Listed : List (List (List ℤ × ℤ)) → ℕ → List ℤ × ℤ → Type 0
Listed tuples symbol p = (k : ℕ) × (get_elem? (get_or tuples symbol []) k ≡ some p)

get_elem?-append_right {ℓ} :
    {A : Type ℓ} (xs ys : List A) (k : ℕ) → get_elem? (xs ++ ys) (length xs + k) ≡ get_elem? ys k
get_elem?-append_right [] ys k = ap (get_elem? ys) (omega arith)
get_elem?-append_right (x ∷ xs) ys k =
    let same : suc (length xs) + k ≡ suc (length xs + k) = omega arith in
    rw same (get_elem?-append_right xs ys k)

get_elem?-map {ℓ κ} :
    {A : Type ℓ} {B : Type κ} (f : A → B) (xs : List A) (k : ℕ) {x : A}
    → get_elem? xs k ≡ some x
    → get_elem? (map f xs) k ≡ some (f x)
get_elem?-map f [] k h = absurd cc
get_elem?-map f (y ∷ ys) zero {x} h = let same : y ≡ x = cc in rw same refl
get_elem?-map f (y ∷ ys) (suc k) h = get_elem?-map f ys k h

get_elem?-get_or {ℓ} :
    {A : Type ℓ} (xs : List A) (k : ℕ) (d : A) {x : A}
    → get_elem? xs k ≡ some x
    → (get_or xs k d ≡ x) × (k < length xs)
get_elem?-get_or [] k d h = absurd cc
get_elem?-get_or (y ∷ ys) zero d {x} h = (cc, omega arith)
get_elem?-get_or (y ∷ ys) (suc k) d h = let (e, l) = get_elem?-get_or ys k d h in (e, omega arith)

-- What is listed stays listed when tuples are appended for a symbol.
Listed-append :
    (tuples : List (List (List ℤ × ℤ))) (s t : ℕ) (more : List (List ℤ × ℤ)) (p : List ℤ × ℤ)
    → s < length tuples
    → Listed tuples t p
    → Listed (set tuples s (get_or tuples s [] ++ more)) t p
Listed-append tuples s t more p l (k, h) = elim (Bool-cases (s == t)) [
  | inl e ↦
      let same : s ≡ t = (==_iff s t).0 e in
      (
        k,
        rw (← same, get_or-set_self tuples s (get_or tuples s [] ++ more) [] l)
            (get_elem?-append (get_or tuples s []) more k (rw same h)),
      )
  | inr e ↦ (
    k,
    rw
        (get_or-set_ne tuples s t (get_or tuples s [] ++ more) []
          (λ same. absurd (ground (arith, same, e))))
        h,
  )
]

-- One round of the loop over the variables.
record Round (info : ProblemInfo) (n v : ℕ) (tuples result : List (List (List ℤ × ℤ)))
    : Type 0 where
  pub symbol : ℕ
  pub arguments : List ℤ
  pub type : ℕ
  pub objects : List ℤ
  pub of_variable : get_elem? info.variable_data v ≡ some (symbol, arguments)
  pub of_type : get_elem? info.variable_types v ≡ some type
  pub of_objects : get_type_objects info type ≡ ok objects
  pub inside : symbol < length tuples
  pub rest :
      reachable_loop info n
        (suc v)
        (set tuples symbol (get_or tuples symbol [] ++ map (λ value. (arguments, value)) objects))
      ≡ ok result

reachable_loop-Round :
    (info : ProblemInfo) (n v : ℕ) (tuples : List (List (List ℤ × ℤ)))
    {result : List (List (List ℤ × ℤ))}
    → reachable_loop info (suc n) v tuples ≡ ok result
    → Round info n v tuples result
reachable_loop-Round info n v tuples h =
    let ((symbol, arguments), e1, h1) =
      >>=-eq-ok (or_throw (get_elem? info.variable_data v) out_of_range) _ h in
    let (symbol_tuples, e2, h2) =
      >>=-eq-ok (or_throw (get_elem? tuples symbol) out_of_range) _ h1 in
    let (type, e3, h3) = >>=-eq-ok (or_throw (get_elem? info.variable_types v) out_of_range) _ h2 in
    let (objects, e4, h4) = >>=-eq-ok (get_type_objects info type) _ h3 in
    let (read, inside) =
      get_elem?-get_or tuples symbol [] (or_throw-ok (get_elem? tuples symbol) out_of_range e2) in
    record {
      symbol = symbol;
      arguments = arguments;
      type = type;
      objects = objects;
      of_variable = or_throw-ok (get_elem? info.variable_data v) out_of_range e1;
      of_type = or_throw-ok (get_elem? info.variable_types v) out_of_range e3;
      of_objects = e4;
      inside = inside;
      rest = rw read h4;
    }

reachable_loop-kept :
    (info : ProblemInfo) (n v : ℕ) (tuples : List (List (List ℤ × ℤ)))
    {result : List (List (List ℤ × ℤ))} (t : ℕ) (p : List ℤ × ℤ)
    → reachable_loop info n v tuples ≡ ok result
    → Listed tuples t p
    → Listed result t p
reachable_loop-kept info zero v tuples t p h l = subst (λ ts. Listed ts t p) (ok_injective h) l
reachable_loop-kept info (suc n) v tuples t p h l =
    let round = reachable_loop-Round info n v tuples h in
    reachable_loop-kept info n (suc v) _ t p round.rest (
      Listed-append tuples round.symbol t (map (λ value. (round.arguments, value)) round.objects) p
        round.inside l)

-- A value of the type of a variable, and the symbol and the arguments of the variable.
pub record PossibleAtom (info : ProblemInfo) (symbol : ℕ) (arguments : List ℤ) (a : Atom)
    : Type 0 where
  pub type : ℕ
  pub objects : List ℤ
  pub position : ℕ
  pub known : a.variable < num_variables info
  pub of_variable : get_elem? info.variable_data a.variable ≡ some (symbol, arguments)
  pub of_type : get_elem? info.variable_types a.variable ≡ some type
  pub of_objects : get_type_objects info type ≡ ok objects
  pub of_value : get_elem? objects position ≡ some a.value

-- The round of a variable lists all its values.
Round-Listed :
    (info : ProblemInfo) (symbol : ℕ) (arguments : List ℤ) (a : Atom) (n : ℕ)
    (tuples : List (List (List ℤ × ℤ))) {result : List (List (List ℤ × ℤ))}
    → PossibleAtom info symbol arguments a
    → Round info n a.variable tuples result
    → Listed result symbol (arguments, a.value)
Round-Listed info symbol arguments a n tuples possible round =
    let same_data : ◌≡◌ {A = Option (ℕ × List ℤ)} (some (round.symbol, round.arguments))
        (some (symbol, arguments)) =
      sym round.of_variable ∙ possible.of_variable in
    let same_symbol : round.symbol ≡ symbol = cc in
    let same_arguments : round.arguments ≡ arguments = cc in
    let same_type : some round.type ≡ some possible.type = sym round.of_type ∙ possible.of_type in
    let type : round.type ≡ possible.type = cc in
    let objects : round.objects ≡ possible.objects =
      ok_injective (sym round.of_objects ∙ (rw type possible.of_objects)) in
    let more = map (λ value. (round.arguments, value)) round.objects in
    let all_listed = set tuples round.symbol (get_or tuples round.symbol [] ++ more) in
    let here : Listed all_listed round.symbol (round.arguments, a.value) = (
      length (get_or tuples round.symbol []) + possible.position,
      rw
          (
            get_or-set_self tuples round.symbol (get_or tuples round.symbol [] ++ more) []
                round.inside,
            get_elem?-append_right (get_or tuples round.symbol []) more possible.position,
          )
          (get_elem?-map (λ value. (round.arguments, value)) round.objects possible.position
            (rw objects possible.of_value)),
    ) in
    reachable_loop-kept info n (suc a.variable) all_listed symbol (arguments, a.value) round.rest
      (rw (← same_symbol, ← same_arguments) here)

pub reachable_loop-Listed :
    (info : ProblemInfo) (symbol : ℕ) (arguments : List ℤ) (a : Atom) (n v : ℕ)
    (tuples : List (List (List ℤ × ℤ))) {result : List (List (List ℤ × ℤ))}
    → PossibleAtom info symbol arguments a
    → v ≤ a.variable
    → a.variable < v + n
    → reachable_loop info n v tuples ≡ ok result
    → Listed result symbol (arguments, a.value)
reachable_loop-Listed info symbol arguments a zero v tuples possible l k h = absurd (omega arith)
reachable_loop-Listed info symbol arguments a (suc n) v tuples {result} possible l k h =
    let round = reachable_loop-Round info n v tuples h in
    elim (Bool-cases (v == a.variable)) [
      | inl e ↦
          let same : v ≡ a.variable = (==_iff v a.variable).0 e in
          Round-Listed info symbol arguments a n tuples possible
            (subst (λ u. Round info n u tuples result) same round)
      | inr e ↦
          reachable_loop-Listed info symbol arguments a n (suc v) _ possible (ground (arith, e, l))
            (omega arith) round.rest
    ]
