-- ===== src/AtomIndex/Growth.antt =====
-- The index of src/utils/atom_index.cxx: its entries agree with its atoms while it grows.
use planner.Prelude.{
  ℕ, suc, ◌≡◌, ◌⊎◌, refl, sym, ◌∙◌, ap, inl, inr, Bool, false, List, [], ◌∷◌, ◌++◌, Option, none,
  some, ◌==◌, arith, length, length-append, get_elem?, get_or, get_or-set_self, get_or-set_ne,
  replicate, get_or-replicate, Bool-cases, ==_iff,
}
use mathlib.Core.Path.{subst}
use planner.Prelude.Int.{ℤ, eq_ℤ}
use planner.Prelude.Outcome.{ok}
use planner.Atom.{Atom}
use planner.Info.{ProblemInfo, num_variables}
use planner.AtomIndex.{find_entry, insert_entry, AtomIndex, add, empty_index}
use planner.AtomIndex.Entries.{
  Enters, add-Enters, find_entry-insert_entry, find_entry-kept, find_entry-added,
  get_elem?-append_last, get_elem?-append, get_elem?-last,
}

-- The index as it grows: each new atom gets the next number.
pub data Indexed (info : ProblemInfo) (negated : Bool) : ℕ × AtomIndex → Type 0 where
  start_empty : Indexed info negated (0, empty_index info negated)
  added :
      {idx : ℕ} {x x' : AtomIndex} (symbol : ℕ) (tuple : List ℤ) (a : Atom)
      → Indexed info negated (idx, x)
      → add info symbol tuple idx a x ≡ ok x'
      → Indexed info negated (suc idx, x')

-- What the map of the variable v has for a value, where a missing map is empty.
abbrev pub entry_of : AtomIndex → ℕ → ℤ → Option ℕ
entry_of x v value = find_entry eq_ℤ (get_or x.atom_index_inv v []) value

length-atom_index :
    (info : ProblemInfo) (negated : Bool) (r : ℕ × AtomIndex)
    → Indexed info negated r
    → length r.1.atom_index ≡ r.0
length-atom_index info negated _ start_empty = refl
length-atom_index info negated _ (added {idx = idx} {x = x} symbol tuple a indexed e) =
    rw
      (
        (add-Enters info symbol tuple idx a x e).atoms,
        length-append x.atom_index (a ∷ []),
        length-atom_index info negated (idx, x) indexed,
      )
      (omega arith)

-- The map of a variable after an atom was added.
entry_of-added :
    (idx : ℕ) (a : Atom) (x x' : AtomIndex) (v : ℕ) (value : ℤ)
    → Enters idx a x x'
    → (entry_of x' v value ≡ entry_of x v value) × ((a.variable == v) ≡ false)
      ⊎ (entry_of x' v value
          ≡ find_entry eq_ℤ (insert_entry eq_ℤ (get_or x.atom_index_inv v []) a.value idx) value)
        × (a.variable ≡ v)
entry_of-added idx a x x' v value enters = elim (Bool-cases (a.variable == v)) [
  | inl e ↦
      let same : a.variable ≡ v = (==_iff a.variable v).0 e in
      let changed = insert_entry eq_ℤ (get_or x.atom_index_inv a.variable []) a.value idx in
      inr (
        rw
            (
              enters.entries,
              ← same,
              get_or-set_self x.atom_index_inv a.variable changed [] enters.inside,
            )
            refl,
        same,
      )
  | inr e ↦
      let changed = insert_entry eq_ℤ (get_or x.atom_index_inv a.variable []) a.value idx in
      inl (
        rw
            (
              enters.entries,
              get_or-set_ne x.atom_index_inv a.variable v changed []
                  (λ same. absurd (ground (arith, same, e))),
            )
            refl,
        e,
      )
]

pub entry_of-atom :
    (info : ProblemInfo) (negated : Bool) (r : ℕ × AtomIndex) (v : ℕ) (value : ℤ) (j : ℕ)
    → Indexed info negated r
    → entry_of r.1 v value ≡ some j
    → get_elem? r.1.atom_index j ≡ some (record { variable = v; value = value })
entry_of-atom info negated _ v value j start_empty h =
    let no_entries : get_or (replicate (num_variables info) []) v [] ≡ [] =
      get_or-replicate (num_variables info) v [] in
    let nothing : none ≡ some j = sym (ap (λ m. find_entry eq_ℤ m value) no_entries) ∙ h in
    absurd (ground (arith, nothing))
entry_of-atom info negated _ v value j
      (added {idx = idx} {x = x} {x' = x'} symbol tuple a indexed e) h =
    let enters : Enters idx a x x' = add-Enters info symbol tuple idx a x e in
    let before : get_elem? x.atom_index j ≡ some (record { variable = v; value = value })
        → get_elem? x'.atom_index j ≡ some (record { variable = v; value = value }) =
      λ k. rw enters.atoms (get_elem?-append x.atom_index (a ∷ []) j k) in
    elim (entry_of-added idx a x x' v value enters) [
      | inl (same, _) ↦
          before (entry_of-atom info negated (idx, x) v value j indexed (sym same ∙ h))
      | inr (same, at) ↦
          elim (find_entry-insert_entry (get_or x.atom_index_inv v []) a.value value idx j
            (sym same ∙ h)) [
              | inl old ↦ before (entry_of-atom info negated (idx, x) v value j indexed old)
              | inr (is_value, is_last) ↦
                  rw
                    (
                      enters.atoms,
                      ← is_last,
                      ← at,
                      ← is_value,
                      ← length-atom_index info negated (idx, x) indexed,
                    )
                    (get_elem?-last x.atom_index a)
            ]
    ]

pub atom-entry_of :
    (info : ProblemInfo) (negated : Bool) (r : ℕ × AtomIndex) (i : ℕ) (b : Atom)
    → Indexed info negated r
    → get_elem? r.1.atom_index i ≡ some b
    → (j : ℕ) × (entry_of r.1 b.variable b.value ≡ some j)
atom-entry_of info negated _ i b start_empty h = absurd cc
atom-entry_of info negated _ i b (added {idx = idx} {x = x} {x' = x'} symbol tuple a indexed e) h =
    let enters : Enters idx a x x' = add-Enters info symbol tuple idx a x e in
    let h' : get_elem? (x.atom_index ++ (a ∷ [])) i ≡ some b =
      sym (ap (λ atoms. get_elem? atoms i) enters.atoms) ∙ h in
    elim (get_elem?-append_last x.atom_index a i h') [
      | inl old ↦
          let (j, f) = atom-entry_of info negated (idx, x) i b indexed old in
          elim (entry_of-added idx a x x' b.variable b.value enters) [
            | inl (same, _) ↦ (j, same ∙ f)
            | inr (same, _) ↦ (
              j,
              same
                  ∙ find_entry-kept (get_or x.atom_index_inv b.variable []) a.value b.value idx j f,
            )
          ]
      | inr (new, _) ↦
          subst (λ c. (j : ℕ) × (entry_of x' c.variable c.value ≡ some j)) new
            (elim (entry_of-added idx a x x' a.variable a.value enters) [
              | inl (_, ne) ↦ absurd (ground (arith, ne))
              | inr (same, _) ↦
                  let (j, f) =
                    find_entry-added (get_or x.atom_index_inv a.variable []) a.value idx in
                  (j, same ∙ f)
            ])
    ]
