-- ===== src/CartesianIterator/Rank.antt =====
-- src/utils/cartesian_iterator.cxx: the start of the iterator and its steps.
use planner.Prelude.{
  ==_iff, length-set, get_or-set_self, get_or-set_ne, ◌-◌, ℕ, zero, suc, ◌+◌, ◌*◌, ◌≤◌, ◌<◌, ◌≡◌,
  ◌⊎◌, inl, inr, refl, ap, ◌∙◌, true, false, List, [], ◌∷◌, arith, ◌==◌, length, get_or, set,
  Bool-cases,
}
use planner.Prelude.Int.{ℤ, pos}
use planner.CartesianIterator.{Iterator, start_loop, start, move_to, advance_iterator, next}

-- The number of elements of a product.
abbrev pub size : List (List ℤ) → ℕ
size [] = 1
size (d ∷ values) = length d * size values

-- How many elements the position i of the iterator steps over.
abbrev pub weight : List (List ℤ) → ℕ → ℕ
weight [] i = 1
weight (d ∷ values) zero = size values
weight (d ∷ values) (suc i) = weight values i

-- The rank of the positions in lexicographic order.
abbrev pub rank : List ℕ → List (List ℤ) → ℕ
rank [] values = 0
rank (p ∷ ps) [] = 0
rank (p ∷ ps) (d ∷ values) = p * size values + rank ps values

rank-set :
    (ps : List ℕ) (values : List (List ℤ)) (i v : ℕ)
    → i < length ps
    → length ps ≡ length values
    → rank (set ps i v) values + get_or ps i 0 * weight values i
      ≡ rank ps values + v * weight values i
rank-set [] values i v h e = absurd (omega arith)
rank-set (p ∷ ps) [] i v h e = absurd (omega arith)
rank-set (p ∷ ps) (d ∷ values) zero v h e = omega arith
rank-set (p ∷ ps) (d ∷ values) (suc i) v h e =
    omega (arith, rank-set ps values i v (omega arith) (omega arith))

weight-step :
    (values : List (List ℤ)) (i : ℕ)
    → suc i < length values
    → weight values i ≡ length (get_or values (suc i) []) * weight values (suc i)
weight-step [] i h = absurd (omega arith)
weight-step (d ∷ []) i h = absurd (omega arith)
weight-step (d ∷ c ∷ values) zero h = refl
weight-step (d ∷ c ∷ values) (suc i) h = weight-step (c ∷ values) i (omega arith)

first_full :
    (ps : List ℕ) (values : List (List ℤ))
    → 0 < length values
    → length ps ≡ length values
    → get_or ps 0 0 + 1 ≡ length (get_or values 0 [])
    → size values ≤ rank ps values + weight values 0
first_full ps [] h e k = absurd (omega arith)
first_full [] (d ∷ values) h e k = absurd (omega arith)
first_full (p ∷ ps) (d ∷ values) h e k = rw (← k) (omega arith)

mul_mono : (a b c : ℕ) → a ≤ b → a * c ≤ b * c
mul_mono zero b c h = omega arith
mul_mono (suc a) zero c h = absurd (omega arith)
mul_mono (suc a) (suc b) c h = omega (arith, mul_mono a b c (omega arith))

rank-size :
    (ps : List ℕ) (values : List (List ℤ))
    → length ps ≡ length values
    → ((i : ℕ) → i < length values → get_or ps i 0 < length (get_or values i []))
    → rank ps values < size values
rank-size [] [] e h = omega arith
rank-size [] (d ∷ values) e h = absurd (omega arith)
rank-size (p ∷ ps) [] e h = absurd (omega arith)
rank-size (p ∷ ps) (d ∷ values) e h = omega (
  arith,
  rank-size ps values (omega arith) (λ i k. h (suc i) (omega arith)),
  mul_mono (suc p) (length d) (size values) (omega (arith, h 0 (omega arith))),
)

weight_last : (values : List (List ℤ)) → 0 < length values → weight values (length values - 1) ≡ 1
weight_last [] h = absurd (omega arith)
weight_last (d ∷ []) h = refl
weight_last (d ∷ c ∷ values) h =
    let down : length (d ∷ c ∷ values) - 1 ≡ suc (length (c ∷ values) - 1) = omega arith in
    rw down (weight_last (c ∷ values) (omega arith))

-- An iterator that stands at an element: each position is within its domain, and the element has the
-- values at the positions.
pub record IsAt (values : List (List ℤ)) (it : Iterator) : Type 0 where
  pub size_positions : length it.positions ≡ length values
  pub size_element : length it.element ≡ length values
  pub inside : (i : ℕ) → i < length values → get_or it.positions i 0 < length (get_or values i [])
  pub current :
      (i : ℕ)
      → i < length values
      → get_or it.element i (pos 0) ≡ get_or (get_or values i []) (get_or it.positions i 0) (pos 0)

module _ (values : List (List ℤ)) where
  move_to-IsAt :
      (it : Iterator) (i p : ℕ)
      → IsAt values it
      → i < length values
      → p < length (get_or values i [])
      → IsAt values (move_to values it i p)
  move_to-IsAt it i p at l k = record {
    size_positions = length-set it.positions i p ∙ at.size_positions;
    size_element = length-set it.element i _ ∙ at.size_element;
    inside = λ j h. elim (Bool-cases (i == j)) [
      | inl e ↦
          let same : i ≡ j = (==_iff i j).0 e in
          rw (← same, get_or-set_self it.positions i p 0 (omega (arith, at.size_positions))) k
      | inr e ↦
          rw (get_or-set_ne it.positions i j p 0 (λ q. cc (e, (==_iff i j).1 q))) (at.inside j h)
    ];
    current = λ j h. elim (Bool-cases (i == j)) [
      | inl e ↦
          let same : i ≡ j = (==_iff i j).0 e in
          rw
            (
              ← same,
              get_or-set_self it.positions i p 0 (omega (arith, at.size_positions)),
              get_or-set_self it.element i (get_or (get_or values i []) p (pos 0)) (pos 0)
                  (omega (arith, at.size_element)),
            )
            refl
      | inr e ↦
          rw
            (
              get_or-set_ne it.positions i j p 0 (λ q. cc (e, (==_iff i j).1 q)),
              get_or-set_ne it.element i j (get_or (get_or values i []) p (pos 0)) (pos 0)
                  (λ q. cc (e, (==_iff i j).1 q)),
            )
            (at.current j h)
    ];
  }

  -- The outcomes of advancing at the position i.
  abbrev Advanced : ℕ → Iterator → Iterator → Type 0
  Advanced i it next =
      ((next.ended ≡ false)
        × IsAt values next
        × (rank next.positions values ≡ rank it.positions values + weight values i))
      ⊎ ((next.ended ≡ true) × (size values ≤ rank it.positions values + weight values i))

  advance_iterator_lem :
      (i : ℕ) (it : Iterator)
      → i < length values
      → IsAt values it
      → it.ended ≡ false
      → Advanced i it (advance_iterator values i it)
  unfolding advance_iterator
  advance_iterator_lem zero it l at e =
      let moved =
        rank-set it.positions values 0 (get_or it.positions 0 0 + 1)
          (omega (arith, at.size_positions)) at.size_positions in
      elim (Bool-cases (get_or it.positions 0 0 + 1 == length (get_or values 0 []))) [
        | inr f ↦ rw f (
            inl (e, move_to-IsAt it 0 _ at l (ground (arith, at.inside 0 l)), omega (arith, moved)))
        | inl f ↦ rw f (
            inr (
              refl,
              first_full it.positions values l at.size_positions
                  ((==_iff (get_or it.positions 0 0 + 1) _).0 f),
            ))
      ]
  advance_iterator_lem (suc i) it l at e =
      let p = get_or it.positions (suc i) 0 in
      let moved =
        rank-set it.positions values (suc i) (p + 1) (omega (arith, at.size_positions))
          at.size_positions in
      let reset =
        rank-set it.positions values (suc i) 0 (omega (arith, at.size_positions))
          at.size_positions in
      elim (Bool-cases (p + 1 == length (get_or values (suc i) []))) [
        | inr f ↦ rw f (
            inl (
              e,
              move_to-IsAt it (suc i) _ at l (ground (arith, at.inside (suc i) l)),
              omega (arith, moved),
            ))
        | inl f ↦
            let full : p + 1 ≡ length (get_or values (suc i) []) = (==_iff (p + 1) _).0 f in
            let step = rw (← full) at (weight-step values i l) in
            rw f
              (elim (advance_iterator_lem i (move_to values it (suc i) 0) (omega arith)
                (move_to-IsAt it (suc i) 0 at l (omega (arith, at.inside (suc i) l))) e) [
                  | inl (g, at', r) ↦ inl (g, at', omega (arith, r, reset, step))
                  | inr (g, r) ↦ inr (g, omega (arith, r, reset, step))
                ])
      ]

  -- If an iterator stands at an element of a product of at least one domain, the next step either goes
  -- to the element whose rank in lexicographic order is one higher, or ends the iterator, at the last
  -- element.
  pub next_lem :
      (it : Iterator)
      → 0 < length values
      → IsAt values it
      → it.ended ≡ false
      → (((next values it).ended ≡ false)
          × IsAt values (next values it)
          × (rank (next values it).positions values ≡ rank it.positions values + 1))
        ⊎ (((next values it).ended ≡ true) × (rank it.positions values + 1 ≡ size values))
  unfolding next
  next_lem it l at e =
      let below = rank-size it.positions values at.size_positions at.inside in
      let one = weight_last values l in
      rw at.size_positions (elim (advance_iterator_lem (length values - 1) it (omega arith) at e) [
        | inl (f, at', r) ↦ inl (f, at', omega (arith, r, one))
        | inr (f, r) ↦ inr (f, omega (arith, r, one, below))
      ])

start_loop_lem :
    (values : List (List ℤ))
    → (((start_loop values).ended ≡ false)
        × IsAt values (start_loop values)
        × (rank (start_loop values).positions values ≡ 0))
      ⊎ (((start_loop values).ended ≡ true) × (size values ≡ 0))
start_loop_lem [] = inl (
  refl,
  record {
    size_positions = refl;
    size_element = refl;
    inside = λ i h. absurd (omega arith);
    current = λ i h. absurd (omega arith);
  },
  refl,
)
start_loop_lem ([] ∷ values) = inr (refl, omega arith)
start_loop_lem ((x ∷ xs) ∷ values) = elim (start_loop_lem values) [
  | inr (e, z) ↦ inr (e, rw z (omega arith))
  | inl (e, at, r) ↦ inl (
    e,
    record {
      size_positions = ap suc at.size_positions;
      size_element = ap suc at.size_element;
      inside = λ i h. cons_inside x xs values at i h;
      current = λ i h. cons_current x xs values at i h;
    },
    omega (arith, r),
  )
]
  where
    cons_inside :
        (x : ℤ) (xs : List ℤ) (values : List (List ℤ))
        → IsAt values (start_loop values)
        → (i : ℕ) → i < suc (length values)
        → get_or (0 ∷ (start_loop values).positions) i 0 < length (get_or ((x ∷ xs) ∷ values) i [])
    cons_inside x xs values at zero h = omega arith
    cons_inside x xs values at (suc i) h = at.inside i (omega arith)

    cons_current :
        (x : ℤ) (xs : List ℤ) (values : List (List ℤ))
        → IsAt values (start_loop values)
        → (i : ℕ) → i < suc (length values)
        → get_or (x ∷ (start_loop values).element) i (pos 0)
          ≡ get_or
              (get_or ((x ∷ xs) ∷ values) i [])
              (get_or (0 ∷ (start_loop values).positions) i 0)
              (pos 0)
    cons_current x xs values at zero h = refl
    cons_current x xs values at (suc i) h = at.current i (omega arith)

-- An iterator over at least one domain starts at the element of rank 0, or has ended because the product
-- has no elements.
pub start_lem :
    (values : List (List ℤ))
    → 0 < length values
    → (((start values).ended ≡ false)
        × IsAt values (start values)
        × (rank (start values).positions values ≡ 0))
      ⊎ (((start values).ended ≡ true) × (size values ≡ 0))
unfolding start
start_lem [] h = absurd (omega arith)
start_lem (d ∷ values) h = start_loop_lem (d ∷ values)
