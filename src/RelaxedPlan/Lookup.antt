-- ===== src/RelaxedPlan/Lookup.antt =====
-- The map of reached atoms of src/heuristics/relaxed_plan/rpg_data.cxx: what is found after an insertion.
use planner.Prelude.{
  ℕ, ◌+◌, ◌≡◌, refl, inl, inr, Bool, true, false, not, ◌&&◌, ◌||◌, List, [], ◌∷◌, ◌++◌, ◌≤◌, some,
  ◌==◌, ltb, arith, all, if◌then◌else◌, Bool-cases,
}
use planner.Prelude.Int.{ℤ}
use planner.Atom.{Atom, eq, eq_iff}
use planner.RelaxedPlan.Data.{AtomSupport, SupportMap, find, has, insert}

-- The atom was reached in a layer below n.
abbrev pub reached_before : SupportMap → ℕ → Atom → Bool
reached_before [] n a = false
reached_before ((b, t) ∷ m) n a = if eq b a then ltb t.layer n else reached_before m n a

-- The values of the variable v in the atoms that were first reached in layer n.
abbrev pub layer_values : SupportMap → ℕ → ℕ → List ℤ
layer_values [] n v = []
layer_values ((b, t) ∷ m) n v =
    if t.layer == n && b.variable == v then b.value ∷ layer_values m n v else layer_values m n v

-- The number of atoms that were first reached in layer n.
abbrev pub layer_size : SupportMap → ℕ → ℕ
layer_size [] n = 0
layer_size ((b, t) ∷ m) n = (if t.layer == n then 1 else 0) + layer_size m n

pub all-insert :
    (p : Atom × AtomSupport → Bool) (m : SupportMap) (a : Atom) (t : AtomSupport)
    → all p m ≡ true
    → p (a, t) ≡ true
    → all p (insert m a t) ≡ true
all-insert p [] a t h k = ground arith
all-insert p ((b, u) ∷ m) a t h k = ground (arith, all-insert p m a t)

pub find-insert_self :
    (m : SupportMap) (a : Atom) (t : AtomSupport) → has m a ≡ false → find (insert m a t) a ≡ some t
find-insert_self [] a t h = ground (arith, eq_iff a a)
find-insert_self ((b, u) ∷ m) a t h = ground (arith, find-insert_self m a t)

pub find-insert_ne :
    (m : SupportMap) (a b : Atom) (t : AtomSupport)
    → eq a b ≡ false
    → find (insert m a t) b ≡ find m b
find-insert_ne [] a b t h = ground arith
find-insert_ne ((c, u) ∷ m) a b t h = ground (arith, find-insert_ne m a b t, eq_iff c a, eq_iff c b)

pub reached_before-insert :
    (m : SupportMap) (a : Atom) (t : AtomSupport) (n : ℕ) (b : Atom)
    → reached_before m n b ≡ true
    → reached_before (insert m a t) n b ≡ true
reached_before-insert [] a t n b h = cc
reached_before-insert ((c, u) ∷ m) a t n b h = ground (arith, reached_before-insert m a t n b)

pub reached_before-le :
    (m : SupportMap) (n k : ℕ) (b : Atom)
    → n ≤ k
    → reached_before m n b ≡ true
    → reached_before m k b ≡ true
reached_before-le [] n k b l h = h
reached_before-le ((c, u) ∷ m) n k b l h = ground (arith, reached_before-le m n k b)

pub find-reached_before :
    (m : SupportMap) (n : ℕ) (b : Atom) (t : AtomSupport)
    → find m b ≡ some t
    → ltb t.layer n ≡ true
    → reached_before m n b ≡ true
find-reached_before [] n b t h k = absurd cc
find-reached_before ((c, u) ∷ m) n b t h k = elim (Bool-cases (eq c b)) [
  | inl e ↦ let same : u ≡ t = ground (arith, e, h) in rw (e, same) k
  | inr e ↦ ground (arith, e, find-reached_before m n b t (ground (arith, e, h)) k)
]

pub reached_before-find :
    (m : SupportMap) (n : ℕ) (b : Atom)
    → reached_before m n b ≡ true
    → (t : AtomSupport) × (find m b ≡ some t) × (ltb t.layer n ≡ true)
reached_before-find [] n b h = absurd cc
reached_before-find ((c, u) ∷ m) n b h = elim (Bool-cases (eq c b)) [
  | inl e ↦ rw e (u, refl, ground (arith, e, h))
  | inr e ↦ rw e (reached_before-find m n b (ground (arith, e, h)))
]

pub has-find :
    (m : SupportMap) (b : Atom) → has m b ≡ true → (t : AtomSupport) × (find m b ≡ some t)
has-find [] b h = absurd cc
has-find ((c, u) ∷ m) b h = elim (Bool-cases (eq c b)) [
  | inl e ↦ rw e (u, refl)
  | inr e ↦ rw e (has-find m b (ground (arith, e, h)))
]

pub layer_values-insert :
    (m : SupportMap) (a : Atom) (t : AtomSupport) (n v : ℕ)
    → has m a ≡ false
    → layer_values (insert m a t) n v
      ≡ layer_values m n v ++ (if t.layer == n && a.variable == v then a.value ∷ [] else [])
layer_values-insert [] a t n v h = ground arith
layer_values-insert ((b, u) ∷ m) a t n v h = ground (arith, layer_values-insert m a t n v)

pub layer_size-insert :
    (m : SupportMap) (a : Atom) (t : AtomSupport) (n : ℕ)
    → has m a ≡ false
    → layer_size (insert m a t) n ≡ layer_size m n + (if t.layer == n then 1 else 0)
layer_size-insert [] a t n h = ground arith
layer_size-insert ((b, u) ∷ m) a t n h = ground (arith, layer_size-insert m a t n)

-- An entry that is found satisfies what all entries do.
pub all-find :
    (p : Atom × AtomSupport → Bool) (m : SupportMap) (a : Atom) (t : AtomSupport)
    → all p m ≡ true
    → find m a ≡ some t
    → p (a, t) ≡ true
all-find p [] a t h k = absurd cc
all-find p ((b, u) ∷ m) a t h k = elim (Bool-cases (eq b a)) [
  | inl e ↦
      let same : u ≡ t = ground (arith, e, k) in
      let name : b ≡ a = (eq_iff b a).0 e in rw (← same, ← name) (ground (arith, h))
  | inr e ↦ all-find p m a t (ground (arith, h)) (ground (arith, e, k))
]

pub reached_before-has :
    (m : SupportMap) (n : ℕ) (a : Atom) → reached_before m n a ≡ true → has m a ≡ true
reached_before-has [] n a h = cc
reached_before-has ((b, u) ∷ m) n a h = ground (arith, reached_before-has m n a)

-- No atom has two entries.
abbrev pub keys_differ : SupportMap → Bool
keys_differ [] = true
keys_differ ((b, t) ∷ m) = not (has m b) && keys_differ m

pub has-insert :
    (m : SupportMap) (a b : Atom) (t : AtomSupport) → has (insert m a t) b ≡ (has m b || eq a b)
has-insert [] a b t = ground arith
has-insert ((c, u) ∷ m) a b t = elim (Bool-cases (eq c a)) [
  | inl e ↦ let same : c ≡ a = (eq_iff c a).0 e in rw (e, same) (ground arith)
  | inr e ↦ rw e (ground (arith, has-insert m a b t))
]

pub insert-keys_differ :
    (m : SupportMap) (a : Atom) (t : AtomSupport)
    → keys_differ m ≡ true
    → keys_differ (insert m a t) ≡ true
insert-keys_differ [] a t h = refl
insert-keys_differ ((b, u) ∷ m) a t h = elim (Bool-cases (eq b a)) [
  | inl e ↦ rw e h
  | inr e ↦
      rw (e, has-insert m a b t)
        (ground (arith, e, h, insert-keys_differ m a t, eq_iff a b, eq_iff b a))
]

-- An atom that is first reached in layer n or later changes nothing below n.
pub reached_before-insert_later :
    (m : SupportMap) (a b : Atom) (t : AtomSupport) (n : ℕ)
    → ltb t.layer n ≡ false
    → reached_before (insert m a t) n b ≡ reached_before m n b
reached_before-insert_later [] a b t n h = ground arith
reached_before-insert_later ((c, u) ∷ m) a b t n h =
    ground (arith, reached_before-insert_later m a b t n h)
