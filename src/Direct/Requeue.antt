-- ===== src/Direct/Requeue.antt =====
-- Which arcs the loop of `binaryFiltering` (src/constraints/direct/csp_handler.cxx) puts back into the
-- worklist.
use planner.Prelude.{
  ℕ, zero, suc, ◌+◌, ◌≡◌, refl, inl, inr, Bool, true, false, List, [], ◌∷◌, ◌==◌, arith, any,
  get_elem?, some, Bool-cases,
}
use planner.Direct.Handler.{
  Binary, other, Arc, same_arc, arc_less, insert_arc, reinsert, insert_related, initialize_worklist,
}

abbrev pub queued : Arc → List Arc → Bool
queued a = any (same_arc a)

pub same_arc_self : (j : ℕ) (t : Bool) → same_arc (j, t) (j, t) ≡ true
same_arc_self j true = ground arith
same_arc_self j false = ground arith

same_arc_trans :
    (j : ℕ) (t : Bool) (a b : Arc) → same_arc (j, t) a ≡ true → same_arc (j, t) b ≡ same_arc a b
same_arc_trans j t (i, s) (k, u) h = ground arith

module _ (address : ℕ → ℕ) where
  queued-insert_arc_self :
      (j : ℕ) (t : Bool) (ws : List Arc) → queued (j, t) (insert_arc address (j, t) ws) ≡ true
  unfolding insert_arc
  queued-insert_arc_self j t [] = rw (same_arc_self j t)
  queued-insert_arc_self j t (w ∷ ws) = elim (Bool-cases (same_arc (j, t) w)) [
    | inl e ↦ rw (e, e)
    | inr e ↦ elim (Bool-cases (arc_less address w (j, t))) [
      | inl f ↦ rw (e, f, same_arc_self j t)
      | inr f ↦ rw (e, f, e) (queued-insert_arc_self j t ws)
    ]
  ]

  queued-insert_arc :
      (a b : Arc) (ws : List Arc) → queued a ws ≡ true → queued a (insert_arc address b ws) ≡ true
  unfolding insert_arc
  queued-insert_arc a b [] h = cc
  queued-insert_arc a b (w ∷ ws) h = elim (Bool-cases (same_arc b w)) [
    | inl e ↦ rw e h
    | inr e ↦ elim (Bool-cases (arc_less address w b)) [
      | inl f ↦ rw (e, f) (ground arith)
      | inr f ↦ elim (Bool-cases (same_arc a w)) [
        | inl g ↦ rw (e, f, g) refl
        | inr g ↦ rw (e, f, g) (queued-insert_arc a b ws (rw g at h))
      ]
    ]
  ]

  queued-reinsert :
      (a : Arc) (b : Binary) (i current v : ℕ) (ws : List Arc)
      → queued a ws ≡ true
      → queued a (reinsert address b i current v ws) ≡ true
  unfolding reinsert
  queued-reinsert a b i current v ws h = elim (Bool-cases (i == current)) [
    | inl e ↦ rw e h
    | inr e ↦ elim (Bool-cases (v == b.first)) [
      | inl f ↦ rw (e, f) (queued-insert_arc a (i, true) ws h)
      | inr f ↦ elim (Bool-cases (v == b.second)) [
        | inl g ↦ rw (e, f, g) (queued-insert_arc a (i, false) ws h)
        | inr g ↦ rw (e, f, g) h
      ]
    ]
  ]

  pub queued-insert_related :
      (a : Arc) (bs : List Binary) (i current v : ℕ) (ws : List Arc)
      → queued a ws ≡ true
      → queued a (insert_related address bs i current v ws) ≡ true
  unfolding insert_related
  queued-insert_related a [] i current v ws h = h
  queued-insert_related a (b ∷ bs) i current v ws h =
      queued-insert_related a bs (i + 1) current v (reinsert address b i current v ws)
        (queued-reinsert a b i current v ws h)

  -- The arc whose other variable is v is put back, unless it is one of the current constraint.
  reinsert-other :
      (b : Binary) (t : Bool) (i current v : ℕ) (ws : List Arc)
      → (i == current) ≡ false
      → (b.first == b.second) ≡ false
      → other b t ≡ v
      → queued (i, t) (reinsert address b i current v ws) ≡ true
  unfolding reinsert
  reinsert-other b true i current v ws e d h =
      let f : (v == b.first) ≡ true = ground arith in rw (e, f) (queued-insert_arc_self i true ws)
  reinsert-other b false i current v ws e d h =
      let f : (v == b.first) ≡ false = ground arith in
      let g : (v == b.second) ≡ true = ground arith in
      rw (e, f, g) (queued-insert_arc_self i false ws)

  pub insert_related-other :
      (bs : List Binary) (k i j current v : ℕ) (b : Binary) (t : Bool) (ws : List Arc)
      → get_elem? bs k ≡ some b
      → i + k ≡ j
      → (j == current) ≡ false
      → (b.first == b.second) ≡ false
      → other b t ≡ v
      → queued (j, t) (insert_related address bs i current v ws) ≡ true
  unfolding insert_related
  insert_related-other [] k i j current v b t ws at e n d h = cc
  insert_related-other (c ∷ bs) zero i j current v b t ws at e n d h =
      let same : c ≡ b = cc in
      let here : i ≡ j = omega arith in
      rw (same, here)
        (queued-insert_related (j, t) bs (j + 1) current v (reinsert address b j current v ws)
          (reinsert-other b t j current v ws n d h))
  insert_related-other (c ∷ bs) (suc k) i j current v b t ws at e n d h =
      insert_related-other bs k (i + 1) j current v b t (reinsert address c i current v ws) at
        (omega arith) n d h

  queued-initialize_worklist :
      (a : Arc) (bs : List Binary) (i : ℕ) (ws : List Arc)
      → queued a ws ≡ true
      → queued a (initialize_worklist address bs i ws) ≡ true
  unfolding initialize_worklist
  queued-initialize_worklist a [] i ws h = h
  queued-initialize_worklist a (b ∷ bs) i ws h =
      queued-initialize_worklist a bs (i + 1) _
        (queued-insert_arc a (i, true) _ (queued-insert_arc a (i, false) ws h))

  -- At the start every arc is in the worklist.
  pub initialize_worklist_all :
      (bs : List Binary) (k i j : ℕ) (b : Binary) (t : Bool) (ws : List Arc)
      → get_elem? bs k ≡ some b
      → i + k ≡ j
      → queued (j, t) (initialize_worklist address bs i ws) ≡ true
  unfolding initialize_worklist
  initialize_worklist_all [] k i j b t ws at e = cc
  initialize_worklist_all (c ∷ bs) zero i j b true ws at e =
      let here : i ≡ j = omega arith in
      rw here (
        queued-initialize_worklist (j, true) bs (j + 1) _
          (queued-insert_arc_self j true (insert_arc address (j, false) ws)))
  initialize_worklist_all (c ∷ bs) zero i j b false ws at e =
      let here : i ≡ j = omega arith in
      rw here (
        queued-initialize_worklist (j, false) bs (j + 1) _
          (queued-insert_arc (j, false) (j, true) _ (queued-insert_arc_self j false ws)))
  initialize_worklist_all (c ∷ bs) (suc k) i j b t ws at e =
      initialize_worklist_all bs k (i + 1) j b t _ at (omega arith)
