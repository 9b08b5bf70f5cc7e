-- ===== src/RelaxedPlan/Closure.antt =====
-- The loop of src/heuristics/relaxed_plan/relaxed_plan_extractor.hxx: it ends, and what it leaves explains
-- every goal atom.
use planner.Prelude.{
  ℕ, ◌+◌, ◌≤◌, ◌≡◌, refl, inl, inr, Bool, true, false, ◌&&◌, ◌||◌, List, [], ◌∷◌, ◌++◌, Option,
  none, some, arith, all, any, length, if◌then◌else◌, Bool-cases,
}
use planner.Atom.{Atom, eq, eq_iff, eq_self}
use planner.State.{State, contains}
use planner.RelaxedPlan.Data.{AtomSupport, SupportMap, find}

-- The atom holds in the seed, was processed, or waits in the queue.
abbrev pub settled : State → List Atom → List Atom → Atom → Bool
settled s processed pending b = contains s b || any (eq b) processed || any (eq b) pending

abbrev pub is_some {ℓ} : {A : Type ℓ} → Option A → Bool
is_some none = false
is_some (some a) = true

-- The atom has an action that is registered, and all that supports it is settled.
abbrev pub explained :
    (AtomSupport → Bool) → State → List Atom → List Atom → Option AtomSupport → Bool
explained registered s processed pending none = false
explained registered s processed pending (some t) =
    is_some t.action && registered t && all (settled s processed pending) t.support

-- The sizes of the supports that may still be added to the queue.
abbrev pub open_size : SupportMap → List Atom → ℕ
open_size [] processed = 0
open_size ((b, t) ∷ m) processed =
    (if any (eq b) processed then 0 else length t.support) + open_size m processed

any-append {ℓ} :
    {A : Type ℓ} (p : A → Bool) (xs ys : List A) → any p (xs ++ ys) ≡ (any p xs || any p ys)
any-append p [] ys = refl
any-append p (x ∷ xs) ys = ground (arith, any-append p xs ys)

pub all-append {ℓ} :
    {A : Type ℓ} (p : A → Bool) (xs ys : List A)
    → all p xs ≡ true
    → all p ys ≡ true
    → all p (xs ++ ys) ≡ true
all-append p [] ys h k = k
all-append p (x ∷ xs) ys h k = ground (arith, all-append p xs ys)

pub any-eq-all :
    (q : Atom → Bool) (a : Atom) (xs : List Atom)
    → all q xs ≡ true
    → any (eq a) xs ≡ true
    → q a ≡ true
any-eq-all q a [] h k = cc
any-eq-all q a (x ∷ xs) h k = elim (Bool-cases (eq a x)) [
  | inl e ↦ let same : a ≡ x = (eq_iff a x).0 e in rw same (ground (arith, h))
  | inr e ↦ any-eq-all q a xs (ground (arith, h)) (ground (arith, e, k))
]

open_size-le :
    (m : SupportMap) (a : Atom) (processed : List Atom)
    → open_size m (a ∷ processed) ≤ open_size m processed
open_size-le [] a processed = omega arith
open_size-le ((b, t) ∷ m) a processed = ground (arith, open_size-le m a processed)

pub open_size-find :
    (m : SupportMap) (a : Atom) (processed : List Atom) (t : AtomSupport)
    → find m a ≡ some t
    → any (eq a) processed ≡ false
    → open_size m (a ∷ processed) + length t.support ≤ open_size m processed
open_size-find [] a processed t h k = absurd cc
open_size-find ((b, u) ∷ m) a processed t h k = elim (Bool-cases (eq b a)) [
  | inl e ↦
      let same : u ≡ t = ground (arith, e, h) in
      let name : b ≡ a = (eq_iff b a).0 e in
      rw (same, name, k, eq_self a) (omega (arith, open_size-le m a processed))
  | inr e ↦ ground (arith, e, open_size-find m a processed t (ground (arith, e, h)) k)
]

-- The front of the queue needs nothing further, if it is in the seed or was processed.
pub settled-skip :
    (s : State) (processed pending : List Atom) (a b : Atom)
    → (contains s a || any (eq a) processed) ≡ true
    → settled s processed (a ∷ pending) b ≡ true
    → settled s processed pending b ≡ true
settled-skip s processed pending a b h k = elim (Bool-cases (eq b a)) [
  | inl e ↦ let same : b ≡ a = (eq_iff b a).0 e in rw same (ground (arith, h))
  | inr e ↦ ground (arith, e, k)
]

pub settled-process :
    (s : State) (processed pending support : List Atom) (a b : Atom)
    → settled s processed (a ∷ pending) b ≡ true
    → settled s (a ∷ processed) (pending ++ support) b ≡ true
settled-process s processed pending support a b k =
    rw (any-append (eq b) pending support) (ground (arith, k))

all-any-eq :
    (q : Atom → Bool) (xs : List Atom)
    → ((b : Atom) → any (eq b) xs ≡ true → q b ≡ true)
    → all q xs ≡ true
all-any-eq q [] f = refl
all-any-eq q (x ∷ xs) f =
    ground (arith, f x, eq_self x, all-any-eq q xs (λ b h. f b (ground (arith, h))))

-- What is pushed on the queue is settled.
pub settled-pushed :
    (s : State) (processed pending support : List Atom)
    → all (settled s processed (pending ++ support)) support ≡ true
settled-pushed s processed pending support =
    all-any-eq (settled s processed (pending ++ support)) support
      (λ b h. rw (any-append (eq b) pending support) (ground (arith, h)))
