-- ===== src/State/Access.antt =====
-- src/state.cxx: reads and writes of a state variable.
use planner.Prelude.{
  ℕ, ◌<◌, ◌≡◌, ◌≢◌, refl, sym, ap, ◌∙◌, ◌⊎◌, inl, inr, Bool, true, false, List, arith, ◌==◌, length,
  get_or, if◌then◌else◌, length-set, get_or-set_self, get_or-set_ne, Bool-cases, ==_iff,
}
use planner.Prelude.Int.{ℤ}
use planner.State.{State, of_bool, to_bool, read, write, slot, get_value, set_value}
use planner.State.Index.{rank, rank-lt, rank-le, rank-total, IsIndexer, n_vars_split}

-- A state over variables with the given flags: its vectors have the sizes of the indexer.
pub record IsValid (flags : List Bool) (s : State) : Type 0 where
  pub indexed : IsIndexer flags s.indexer
  pub bool_size : length s.bool_values ≡ s.indexer.n_bool
  pub int_size : length s.int_values ≡ s.indexer.n_int

-- What a variable of the given kind holds after x is stored: a Boolean holds only 0 and 1.
abbrev pub stored : Bool → ℤ → ℤ
stored true x = of_bool (to_bool x)
stored false x = x

-- A position within its vector.
abbrev Fits : State → Bool × ℕ → Type 0
Fits s (true, i) = i < length s.bool_values
Fits s (false, i) = i < length s.int_values

read-write_self :
    (s : State) (e : Bool × ℕ) (x : ℤ) → Fits s e → read (write s e x) e ≡ stored e.0 x
read-write_self s (true, i) x h = ap of_bool (get_or-set_self s.bool_values i (to_bool x) false h)
read-write_self s (false, i) x h = get_or-set_self s.int_values i x _ h

read-write_ne : (s : State) (e d : Bool × ℕ) (x : ℤ) → e ≢ d → read (write s e x) d ≡ read s d
read-write_ne s (true, i) (true, j) x h =
    ap of_bool (get_or-set_ne s.bool_values i j (to_bool x) false (λ p. h (λ k. (true, p k))))
read-write_ne s (false, i) (false, j) x h =
    get_or-set_ne s.int_values i j x _ (λ p. h (λ k. (false, p k)))
read-write_ne s (true, i) (false, j) x h = refl
read-write_ne s (false, i) (true, j) x h = refl

write-IsValid :
    (flags : List Bool) (s : State) (e : Bool × ℕ) (x : ℤ)
    → IsValid flags s
    → IsValid flags (write s e x) × (slot (write s e x) ≡ slot s)
write-IsValid flags s (true, i) x h = (
  record {
    indexed = h.indexed;
    bool_size = length-set s.bool_values i (to_bool x) ∙ h.bool_size;
    int_size = h.int_size;
  },
  refl,
)
write-IsValid flags s (false, i) x h = (
  record {
    indexed = h.indexed;
    bool_size = h.bool_size;
    int_size = length-set s.int_values i x ∙ h.int_size;
  },
  refl,
)

lt_or_lt : (v w : ℕ) → v ≢ w → (v < w) ⊎ (w < v)
lt_or_lt v w h = ground arith

module _ (flags : List Bool) (s : State) (valid : IsValid flags s) where
  -- With no variable of the other kind, the entry of a variable is its own index.
  slot-bool : (v : ℕ) → v < length flags → length flags ≡ s.indexer.n_bool → slot s v ≡ (true, v)
  slot-bool v h e = elim (Bool-cases (get_or flags v false)) [
    | inl t ↦ ground (
      arith,
      valid.indexed.slots v h,
      valid.indexed.ints,
      n_vars_split valid.indexed,
      rank-total flags v (omega arith),
      rank-le false flags v (length flags) (omega arith),
    )
    | inr f ↦ absurd (
        omega (
          arith,
          valid.indexed.ints,
          n_vars_split valid.indexed,
          rank-lt false flags v (length flags) h h f,
        ))
  ]

  slot-int : (v : ℕ) → v < length flags → length flags ≡ s.indexer.n_int → slot s v ≡ (false, v)
  slot-int v h e = elim (Bool-cases (get_or flags v false)) [
    | inr f ↦ ground (
      arith,
      valid.indexed.slots v h,
      valid.indexed.bools,
      n_vars_split valid.indexed,
      rank-total flags v (omega arith),
      rank-le true flags v (length flags) (omega arith),
    )
    | inl t ↦ absurd (
        omega (
          arith,
          valid.indexed.bools,
          n_vars_split valid.indexed,
          rank-lt true flags v (length flags) h h t,
        ))
  ]

  -- The shortcuts of `get` for states of one kind give what the index gives.
  -- Reading a known variable of a valid state, with the shortcuts for states that are all Boolean or
  -- all integer, gives what the entry of the variable in the index points at.
  pub get_value-read : (v : ℕ) → v < length flags → get_value s v ≡ read s (slot s v)
  unfolding get_value
  get_value-read v h = ground (arith, valid.indexed.size, slot-bool v h, slot-int v h)

  pub set_value-write : (v : ℕ) (x : ℤ) → v < length flags → set_value s v x ≡ write s (slot s v) x
  unfolding set_value
  set_value-write v x h = ground (arith, valid.indexed.size, slot-bool v h, slot-int v h)

  slot-Fits : (v : ℕ) → v < length flags → Fits s (slot s v)
  slot-Fits v h = rw (valid.indexed.slots v h) (go (get_or flags v false) refl)
    where
      go : (b : Bool) → get_or flags v false ≡ b → Fits s (b, rank b flags v)
      go true e =
          omega
            (arith, valid.indexed.bools, valid.bool_size, rank-lt true flags v (length flags) h h e)
      go false e =
          omega
            (arith, valid.indexed.ints, valid.int_size, rank-lt false flags v (length flags) h h e)

  slot-lt : (v w : ℕ) → v < w → w < length flags → slot s v ≢ slot s w
  slot-lt v w h k e = ground (
    arith,
    valid.indexed.slots v (omega arith),
    valid.indexed.slots w k,
    rank-lt (get_or flags v false) flags v w h (omega arith) refl,
  )

  slot-ne : (v w : ℕ) → v ≢ w → v < length flags → w < length flags → slot s v ≢ slot s w
  slot-ne v w h j k e = elim (lt_or_lt v w h) [
    | inl l ↦ slot-lt v w l k e
    | inr g ↦ slot-lt w v g j (sym e)
  ]

module _ (flags : List Bool) (s : State) (valid : IsValid flags s) where
  -- A write keeps the sizes and the index.
  pub set_value-IsValid : (v : ℕ) (x : ℤ) → v < length flags → IsValid flags (set_value s v x)
  set_value-IsValid v x h =
      rw (set_value-write flags s valid v x h) ((write-IsValid flags s (slot s v) x valid).0)

  -- In a valid state, after x is written to the variable v, reading v gives x if v is an integer
  -- variable, and the truth value of x, as 0 or 1, if v is predicative; reading any other variable
  -- gives what it gave before.
  pub get_value-set_value :
      (v w : ℕ) (x : ℤ)
      → v < length flags
      → w < length flags
      → get_value (set_value s v x) w
        ≡ (if v == w then stored (get_or flags v false) x else get_value s w)
  get_value-set_value v w x h k = elim (Bool-cases (v == w)) [
    | inl e ↦ rw e (sameness ((==_iff v w).0 e))
    | inr n ↦ rw n (
        reads w k
        ∙ read-write_ne s (slot s v) (slot s w) x
            (slot-ne flags s valid v w (λ e. cc (n, (==_iff v w).1 e)) h k)
        ∙ sym (get_value-read flags s valid w k))
  ]
    where
      reads :
          (u : ℕ)
          → u < length flags
          → get_value (set_value s v x) u ≡ read (write s (slot s v) x) (slot s u)
      reads u l = rw (set_value-write flags s valid v x h) (
          get_value-read flags (write s (slot s v) x) ((write-IsValid flags s (slot s v) x valid).0)
            u l
          ∙ ap (λ (f : ℕ → Bool × ℕ). read (write s (slot s v) x) (f u))
              ((write-IsValid flags s (slot s v) x valid).1))

      sameness : v ≡ w → get_value (set_value s v x) w ≡ stored (get_or flags v false) x
      sameness e = rw (← e) (
          reads v h
          ∙ read-write_self s (slot s v) x (slot-Fits flags s valid v h)
          ∙ ap (λ (d : Bool × ℕ). stored d.0 x) (valid.indexed.slots v h))
