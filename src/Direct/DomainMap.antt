-- ===== src/Direct/DomainMap.antt =====
-- `DomainMap` of src/fs_types.hxx: a map from variables to shared domains. The pointers of a map are
-- distinct, so a domain is found and changed through its variable, also where a constraint holds it in
-- its cached projection.
use planner.Prelude.{
  ℕ, ◌+◌, ◌≡◌, refl, inl, inr, Bool, true, false, List, [], ◌∷◌, Option, none, some, ◌==◌, arith,
  length, if◌then◌else◌, Bool-cases,
}
use planner.Direct.Domain.{Domain, Ascending, is_empty}

abbrev pub DomainMap : Type 0
DomainMap = List (ℕ × Domain)

-- `find(v)`
abbrev pub find : DomainMap → ℕ → Option Domain
find [] v = none
find ((u, d) ∷ m) v = if u == v then some d else find m v

abbrev pub has : DomainMap → ℕ → Bool
has [] v = false
has ((u, d) ∷ m) v = if u == v then true else has m v

-- The domain that a pointer to the domain of v refers to, and an assignment to it.
abbrev pub read : DomainMap → ℕ → Domain
read [] v = []
read ((u, d) ∷ m) v = if u == v then d else read m v

abbrev pub write : DomainMap → ℕ → Domain → DomainMap
write [] v e = []
write ((u, d) ∷ m) v e = if u == v then (u, e) ∷ m else (u, d) ∷ write m v e

-- The number of values in all domains.
abbrev pub total : DomainMap → ℕ
total [] = 0
total ((u, d) ∷ m) = length d + total m

-- Every domain is in ascending order and has a value.
abbrev pub Valid : DomainMap → Type 0
Valid [] = Unit
Valid ((u, d) ∷ m) = Ascending d × (is_empty d ≡ false) × Valid m

pub find-has : (m : DomainMap) (v : ℕ) → has m v ≡ true → find m v ≡ some (read m v)
find-has [] v h = cc
find-has ((u, d) ∷ m) v h = ground (arith, find-has m v)

pub has-find : (m : DomainMap) (v : ℕ) (d : Domain) → find m v ≡ some d → has m v ≡ true
has-find [] v e h = cc
has-find ((u, d) ∷ m) v e h = ground (arith, has-find m v e)

pub has-write : (m : DomainMap) (v w : ℕ) (e : Domain) → has (write m v e) w ≡ has m w
has-write [] v w e = refl
has-write ((u, d) ∷ m) v w e = ground (arith, has-write m v w e)

pub read-write_self :
    (m : DomainMap) (v : ℕ) (e : Domain) → has m v ≡ true → read (write m v e) v ≡ e
read-write_self [] v e h = cc
read-write_self ((u, d) ∷ m) v e h = ground (arith, read-write_self m v e)

pub read-write_ne :
    (m : DomainMap) (v w : ℕ) (e : Domain) → (v == w) ≡ false → read (write m v e) w ≡ read m w
read-write_ne [] v w e h = refl
read-write_ne ((u, d) ∷ m) v w e h = ground (arith, read-write_ne m v w e)

pub write-read : (m : DomainMap) (v : ℕ) → write m v (read m v) ≡ m
write-read [] v = refl
write-read ((u, d) ∷ m) v = ground (arith, write-read m v)

pub total-write :
    (m : DomainMap) (v : ℕ) (e : Domain)
    → has m v ≡ true
    → total (write m v e) + length (read m v) ≡ total m + length e
total-write [] v e h = cc
total-write ((u, d) ∷ m) v e h = ground (arith, total-write m v e)

pub read-Ascending : (m : DomainMap) (v : ℕ) → Valid m → Ascending (read m v)
read-Ascending [] v h = tt
read-Ascending ((u, d) ∷ m) v (a, b, c) = elim (Bool-cases (u == v)) [
  | inl e ↦ rw e a
  | inr e ↦ rw e (read-Ascending m v c)
]

pub read-filled : (m : DomainMap) (v : ℕ) → Valid m → has m v ≡ true → is_empty (read m v) ≡ false
read-filled [] v h k = cc
read-filled ((u, d) ∷ m) v (a, b, c) k = ground (arith, read-filled m v c)

pub write-Valid :
    (m : DomainMap) (v : ℕ) (e : Domain)
    → Valid m
    → Ascending e
    → is_empty e ≡ false
    → Valid (write m v e)
write-Valid [] v e h k l = tt
write-Valid ((u, d) ∷ m) v e (a, b, c) k l = elim (Bool-cases (u == v)) [
  | inl q ↦ rw q (k, l, c)
  | inr q ↦ rw q (a, b, write-Valid m v e c k l)
]
