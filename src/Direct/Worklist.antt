-- ===== src/Direct/Worklist.antt =====
-- The worklist of `binaryFiltering` (src/constraints/direct/csp_handler.cxx): its arcs stay in range,
-- and one pruned domain adds at most one arc for each constraint.
use planner.Prelude.{
  ℕ, ◌+◌, ◌*◌, ◌≤◌, ◌<◌, ◌≡◌, inl, inr, true, false, List, [], ◌∷◌, ◌==◌, arith, length, All,
  Bool-cases,
}
use planner.Direct.Handler.{
  Binary, Arc, same_arc, arc_less, insert_arc, reinsert, insert_related, initialize_worklist,
}

abbrev pub InRange : ℕ → List Arc → Type 0
InRange n = All (λ (w : Arc). w.0 < n)

module _ (address : ℕ → ℕ) where
  insert_arc-All :
      (n : ℕ) (a : Arc) (ws : List Arc)
      → a.0 < n
      → InRange n ws
      → InRange n (insert_arc address a ws)
  unfolding insert_arc
  insert_arc-All n a [] h k = (h, tt)
  insert_arc-All n a (w ∷ ws) h (k, l) = elim (Bool-cases (same_arc a w)) [
    | inl e ↦ rw e (k, l)
    | inr e ↦ elim (Bool-cases (arc_less address w a)) [
      | inl f ↦ rw (e, f) (h, (k, l))
      | inr f ↦ rw (e, f) (k, insert_arc-All n a ws h l)
    ]
  ]

  length-insert_arc : (a : Arc) (ws : List Arc) → length (insert_arc address a ws) ≤ length ws + 1
  unfolding insert_arc
  length-insert_arc a [] = omega arith
  length-insert_arc a (w ∷ ws) = ground (arith, length-insert_arc a ws)

  reinsert-All :
      (b : Binary) (i n current v : ℕ) (ws : List Arc)
      → i < n
      → InRange n ws
      → InRange n (reinsert address b i current v ws)
  unfolding reinsert
  reinsert-All b i n current v ws l h = elim (Bool-cases (i == current)) [
    | inl e ↦ rw e h
    | inr e ↦ elim (Bool-cases (v == b.first)) [
      | inl f ↦ rw (e, f) (insert_arc-All n (i, true) ws l h)
      | inr f ↦ elim (Bool-cases (v == b.second)) [
        | inl g ↦ rw (e, f, g) (insert_arc-All n (i, false) ws l h)
        | inr g ↦ rw (e, f, g) h
      ]
    ]
  ]

  length-reinsert :
      (b : Binary) (i current v : ℕ) (ws : List Arc)
      → length (reinsert address b i current v ws) ≤ length ws + 1
  unfolding reinsert
  length-reinsert b i current v ws =
      ground (arith, length-insert_arc (i, true) ws, length-insert_arc (i, false) ws)

  pub insert_related-All :
      (bs : List Binary) (i n current v : ℕ) (ws : List Arc)
      → i + length bs ≡ n
      → InRange n ws
      → InRange n (insert_related address bs i current v ws)
  unfolding insert_related
  insert_related-All [] i n current v ws e h = h
  insert_related-All (b ∷ bs) i n current v ws e h =
      insert_related-All bs (i + 1) n current v (reinsert address b i current v ws) (omega arith)
        (reinsert-All b i n current v ws (omega arith) h)

  pub length-insert_related :
      (bs : List Binary) (i current v : ℕ) (ws : List Arc)
      → length (insert_related address bs i current v ws) ≤ length ws + length bs
  unfolding insert_related
  length-insert_related [] i current v ws = omega arith
  length-insert_related (b ∷ bs) i current v ws = omega (
    arith,
    length-insert_related bs (i + 1) current v (reinsert address b i current v ws),
    length-reinsert b i current v ws,
  )

  pub initialize_worklist-All :
      (bs : List Binary) (i n : ℕ) (ws : List Arc)
      → i + length bs ≡ n
      → InRange n ws
      → InRange n (initialize_worklist address bs i ws)
  unfolding initialize_worklist
  initialize_worklist-All [] i n ws e h = h
  initialize_worklist-All (b ∷ bs) i n ws e h =
      initialize_worklist-All bs (i + 1) n _ (omega arith) (
        insert_arc-All n (i, true) (insert_arc address (i, false) ws) (omega arith)
          (insert_arc-All n (i, false) ws (omega arith) h))

  pub length-initialize_worklist :
      (bs : List Binary) (i : ℕ) (ws : List Arc)
      → length (initialize_worklist address bs i ws) ≤ length ws + 2 * length bs
  unfolding initialize_worklist
  length-initialize_worklist [] i ws = omega arith
  length-initialize_worklist (b ∷ bs) i ws =
      let first = insert_arc address (i, false) ws in
      omega (
        arith,
        length-initialize_worklist bs (i + 1) (insert_arc address (i, true) first),
        length-insert_arc (i, true) first,
        length-insert_arc (i, false) ws,
      )
