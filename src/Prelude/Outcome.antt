-- ===== src/Prelude/Outcome.antt =====
-- What a C++ function that may throw comes back with.
use mathlib.Core.Path.{◌≡◌, refl}
use mathlib.Core.Option.{Option, none, some}
use mathlib.Core.Logic.{◌⊎◌, inl, inr}

-- The exceptions of the sources: `std::runtime_error`, `std::out_of_range` of the checked `at`
-- accessors, and `UnimplementedFeatureException`. `undefined` stands for signed overflow and for reads
-- past the end of a vector, which C++ leaves undefined; `out_of_fuel` is never thrown: it marks a loop of
-- a model that was given too few rounds.
pub data Error : Type 0 where
  runtime_error : Error
  out_of_range : Error
  unimplemented : Error
  undefined : Error
  out_of_fuel : Error

-- A returned value, or a thrown exception.
pub data Result {κ} (X : Type κ) : Type κ where
  err : Error → Result X
  ok : X → Result X

module _ {κ} {X : Type κ} where
  pub ok_injective : {x y : X} → ok x ≡ ok y → x ≡ y
  ok_injective h = cc

  pub Result-cases : (r : Result X) → ((x : X) × (r ≡ ok x)) ⊎ ((e : Error) × (r ≡ err e))
  Result-cases (err e) = inr (e, refl)
  Result-cases (ok x) = inl (x, refl)

  -- `v.at(i)` throws where the index, or the key of a map, is missing.
  abbrev pub or_throw : Option X → Error → Result X
  or_throw (some x) missing = ok x
  or_throw none missing = err missing

-- What follows a call runs on the value that the call returned, and an exception goes on.
infixl 5 ◌>>=◌
abbrev pub ◌>>=◌ {κ ℓ} : {X : Type κ} {Y : Type ℓ} → Result X → (X → Result Y) → Result Y
err thrown >>= next = err thrown
ok x >>= next = next x

-- If the whole returns, so did the call.
pub >>=-eq-ok {κ ℓ} :
    {X : Type κ} {Y : Type ℓ} (r : Result X) (next : X → Result Y) {y : Y}
    → (r >>= next) ≡ ok y
    → (x : X) × (r ≡ ok x) × (next x ≡ ok y)
>>=-eq-ok (err thrown) next e = cc
>>=-eq-ok (ok x) next e = (x, refl, e)
