-- ===== src/Direct/Consistency.antt =====
-- The AC3 loop of src/constraints/direct/csp_handler.cxx makes every arc consistent.
use planner.Prelude.{
  ℕ, ◌≡◌, refl, sym, ap, ◌∙◌, inl, inr, Bool, true, false, not, [], ◌∷◌, ◌==◌, ==_iff, arith, all,
  any, Bool-cases,
}
use planner.Prelude.Int.{ℤ, eq_ℤ, eq_ℤ_iff}
use planner.Direct.Domain.{Domain, member, filter, member-filter, all-filter, all-filter_of_all}
use planner.Direct.DomainMap.{DomainMap, has, read, write, read-write_self, read-write_ne}
use planner.Direct.Constraint.{BinaryClass, related}
use planner.Direct.Handler.{Binary, filtered, other}
use planner.Direct.Arc.{supported}
use planner.Direct.Sound.{any-member}
use planner.Direct.Loop.{Covered, Covered-filtered, kept}

-- Every value of the filtered variable has a support.
abbrev pub Consistent : Binary → Bool → DomainMap → Type 0
Consistent b side m = all (supported b side m) (read m (filtered b side)) ≡ true

all-member : (p : ℤ → Bool) (x : ℤ) (d : Domain) → all p d ≡ true → member x d ≡ true → p x ≡ true
all-member p x [] h k = cc
all-member p x (y ∷ ys) h k = ground (arith, eq_ℤ_iff y x, all-member p x ys)

all_of_member :
    (p : ℤ → Bool) (d : Domain) → ((x : ℤ) → member x d ≡ true → p x ≡ true) → all p d ≡ true
all_of_member p [] h = refl
all_of_member p (y ∷ ys) h =
    let self : eq_ℤ y y ≡ true = ground arith in
    rw (h y (rw self refl)) (all_of_member p ys (λ x k. h x (ground arith)))

any-witness :
    (p : ℤ → Bool) (d : Domain) → any p d ≡ true → (x : ℤ) × (member x d ≡ true) × (p x ≡ true)
any-witness p [] h = cc
any-witness p (y ∷ ys) h = elim (Bool-cases (p y)) [
  | inl e ↦ (y, ground arith, e)
  | inr e ↦ let (x, k, l) = any-witness p ys (ground arith) in (x, ground arith, l)
]

related_swap :
    (c : BinaryClass) (side : Bool) (x y : ℤ) → related c (not side) y x ≡ related c side x y
related_swap c true x y = refl
related_swap c false x y = refl

other-not : (b : Binary) (side : Bool) → other b (not side) ≡ filtered b side
other-not b true = refl
other-not b false = refl

filtered-not : (b : Binary) (side : Bool) → filtered b (not side) ≡ other b side
filtered-not b true = refl
filtered-not b false = refl

abbrev pub Proper : Binary → Type 0
Proper b = (b.first == b.second) ≡ false

pub distinct : (b : Binary) (side : Bool) → Proper b → (filtered b side == other b side) ≡ false
distinct b true h = ground arith
distinct b false h = h

-- The same, on given domains.
abbrev Supports : BinaryClass → Bool → Domain → Domain → Type 0
Supports c side d z = all (λ x. any (related c side x) z) d ≡ true

Consistent-of :
    (b : Binary) (side : Bool) (m : DomainMap) (d z : Domain)
    → read m (filtered b side) ≡ d
    → read m (other b side) ≡ z
    → Supports b.class side d z
    → Consistent b side m
Consistent-of b side m d z e f h = (λ i. all (λ x. any (related b.class side x) (f i)) (e i)) ∙ h

-- What supported a value was itself supported by it.
Supports-opposite :
    (c : BinaryClass) (side : Bool) (d z : Domain)
    → Supports c (not side) z d
    → Supports c (not side) z (filter (λ x. any (related c side x) z) d)
Supports-opposite c side d z h =
    let p : ℤ → Bool = λ x. any (related c side x) z in
    all_of_member (λ y. any (related c (not side) y) (filter p d)) z
      (λ y k.
        let (x, l, r) =
          any-witness (related c (not side) y) d
            (all-member (λ w. any (related c (not side) w) d) y z h k) in
        let back : p x ≡ true =
          any-member (related c side x) y z k (sym (related_swap c side x y) ∙ r) in
        any-member (related c (not side) y) x (filter p d) (member-filter p x d l back) r)

-- One pruned domain, seen from each arc.
module _ (b : Binary) (side : Bool) (m : DomainMap) (cover : Covered m b) (proper : Proper b) where
  pruned_map : DomainMap
  pruned_map = write m (filtered b side) (kept b side m)

  pruned_domain : read pruned_map (filtered b side) ≡ kept b side m
  unfolding pruned_map
  pruned_domain =
      read-write_self m (filtered b side) (kept b side m) (Covered-filtered m b side cover)

  other_domain : read pruned_map (other b side) ≡ read m (other b side)
  unfolding pruned_map
  other_domain =
      read-write_ne m (filtered b side) (other b side) (kept b side m) (distinct b side proper)

  -- The arc itself is consistent afterwards.
  pub self-Consistent : Consistent b side (write m (filtered b side) (kept b side m))
  unfolding pruned_map
  self-Consistent =
      Consistent-of b side pruned_map (kept b side m) (read m (other b side)) pruned_domain
        other_domain (all-filter (supported b side m) (read m (filtered b side)))

  -- The opposite arc stays consistent.
  pub opposite-Consistent :
      Consistent b (not side) m
      → Consistent b (not side) (write m (filtered b side) (kept b side m))
  unfolding pruned_map
  opposite-Consistent h =
      let d = read m (filtered b side) in
      let z = read m (other b side) in
      let before : Supports b.class (not side) z d =
        (λ i.
          all (λ y. any (related b.class (not side) y) (read m (sym (other-not b side) i)))
            (read m (sym (filtered-not b side) i)))
        ∙ h in
      Consistent-of b (not side) pruned_map z (kept b side m)
        (ap (read pruned_map) (filtered-not b side) ∙ other_domain)
        (ap (read pruned_map) (other-not b side) ∙ pruned_domain)
        (Supports-opposite b.class side d z before)

-- Other arcs whose other variable is not the pruned one stay consistent.
pub other-Consistent :
    (c : Binary) (t : Bool) (m : DomainMap) (v : ℕ) (p : ℤ → Bool)
    → has m v ≡ true
    → (v == other c t) ≡ false
    → Consistent c t m
    → Consistent c t (write m v (filter p (read m v)))
other-Consistent c t m v p here ne h =
    let m' = write m v (filter p (read m v)) in
    let same_other = read-write_ne m v (other c t) (filter p (read m v)) ne in
    elim (Bool-cases (v == filtered c t)) [
      | inl e ↦
          let same : v ≡ filtered c t = (==_iff v (filtered c t)).0 e in
          Consistent-of c t m' (filter p (read m v)) (read m (other c t))
            (ap (read m') (sym same) ∙ read-write_self m v (filter p (read m v)) here) same_other
            (all-filter_of_all p (supported c t m) (read m v)
              (ap (λ u. all (supported c t m) (read m u)) same ∙ h))
      | inr e ↦
          Consistent-of c t m' (read m (filtered c t)) (read m (other c t))
            (read-write_ne m v (filtered c t) (filter p (read m v)) e) same_other h
    ]
