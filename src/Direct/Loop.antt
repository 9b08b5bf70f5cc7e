-- ===== src/Direct/Loop.antt =====
-- A rule for the AC3 loop `binaryFiltering` of src/constraints/direct/csp_handler.cxx: what every step
-- keeps holds at the end, and the loop ends.
use planner.Prelude.{
  ℕ, zero, suc, ◌+◌, ◌*◌, ◌≤◌, ◌<◌, ◌≡◌, refl, ◌∙◌, Bool, true, false, some, List, [], ◌∷◌, arith,
  length, All, all, any, get_elem?,
}
use planner.Prelude.Outcome.{Result, ok}
use planner.Direct.Domain.{
  FilteringOutput, failure, pruned, unpruned, Domain, filter, is_empty, filter-Ascending,
}
use planner.Direct.DomainMap.{
  DomainMap, has, read, write, Valid, total, has-write, total-write, write-Valid, read-Ascending,
}
use planner.Direct.Handler.{
  Binary, filtered, other, Arc, is_failure, after_arc, insert_related, binary_filtering,
}
use planner.Direct.Worklist.{InRange, insert_related-All, length-insert_related}
use planner.Direct.Arc.{supported, ArcOutcome, arc_filter-ArcOutcome}

-- The domains of both variables of a scope are there.
abbrev pub Covered : DomainMap → Binary → Type 0
Covered m b = (has m b.first ≡ true) × (has m b.second ≡ true)

pub All-get_elem? {ℓ} :
    {A : Type ℓ} (P : A → Type 0) (xs : List A) (i : ℕ) {x : A}
    → All P xs
    → get_elem? xs i ≡ some x
    → P x
All-get_elem? P [] i {x} h e = cc
All-get_elem? P (y ∷ ys) zero {x} (a, b) e = let same : y ≡ x = cc in rw (← same) a
All-get_elem? P (y ∷ ys) (suc i) {x} (a, b) e = All-get_elem? P ys i b e

pub get_elem?-some {ℓ} :
    {A : Type ℓ} (xs : List A) (i : ℕ) → i < length xs → (x : A) × (get_elem? xs i ≡ some x)
get_elem?-some [] i h = elim h [ ]
get_elem?-some (x ∷ xs) zero h = (x, refl)
get_elem?-some (x ∷ xs) (suc i) h = get_elem?-some xs i (omega arith)

pub All-map {ℓ} :
    {A : Type ℓ} (P Q : A → Type 0) (xs : List A) → ((x : A) → P x → Q x) → All P xs → All Q xs
All-map P Q [] f h = tt
All-map P Q (x ∷ xs) f (a, b) = (f x a, All-map P Q xs f b)

pub Covered-write :
    (m : DomainMap) (v : ℕ) (e : Domain) (b : Binary) → Covered m b → Covered (write m v e) b
Covered-write m v e b (h, k) = (has-write m v b.first e ∙ h, has-write m v b.second e ∙ k)

pub Covered-filtered :
    (m : DomainMap) (b : Binary) (side : Bool) → Covered m b → has m (filtered b side) ≡ true
Covered-filtered m b true h = h.1
Covered-filtered m b false h = h.0

pub Covered-other :
    (m : DomainMap) (b : Binary) (side : Bool) → Covered m b → has m (other b side) ≡ true
Covered-other m b true h = h.0
Covered-other m b false h = h.1

-- The values that stay when an arc is filtered.
abbrev pub kept : Binary → Bool → DomainMap → Domain
kept b side m = filter (supported b side m) (read m (filtered b side))

-- What the loop may rely on.
pub record Ready (bs : List Binary) (ws : List Arc) (m : DomainMap) : Type 0 where
  pub valid : Valid m
  pub covered : All (Covered m) bs
  pub arcs : InRange (length bs) ws

fuel_left :
    (t t' n len len' : ℕ) → t' < t → len' ≤ len + n → t' * suc n + len' < t * suc n + suc len
fuel_left t t' n len len' h k = grind arith

module _ (address : ℕ → ℕ) (bs : List Binary) (P : List Arc → DomainMap → Type 0) where
  -- The filtering of an arc that leaves no value, in a situation that the loop keeps.
  pub record Failed : Type 0 where
    pub position : ℕ
    pub side : Bool
    pub constraint : Binary
    pub worklist : List Arc
    pub domains : DomainMap
    pub at : get_elem? bs position ≡ some constraint
    pub cover : Covered domains constraint
    pub holds : P ((position, side) ∷ worklist) domains
    pub stuck :
        any (supported constraint side domains) (read domains (filtered constraint side)) ≡ false

  abbrev pub Ended : FilteringOutput → DomainMap → List Arc → Type 0
  Ended failure m ws = Failed
  Ended pruned m ws = (ws ≡ []) × Ready bs [] m × P [] m
  Ended unpruned m ws = (ws ≡ []) × Ready bs [] m × P [] m

  -- What every step has to keep.
  pub record Keeps : Type 0 where
    pub unchanged :
        (i : ℕ) (side : Bool) (b : Binary) (ws : List Arc) (m : DomainMap)
        → get_elem? bs i ≡ some b
        → Covered m b
        → P ((i, side) ∷ ws) m
        → all (supported b side m) (read m (filtered b side)) ≡ true
        → P ws m
    pub changed :
        (i : ℕ) (side : Bool) (b : Binary) (ws : List Arc) (m : DomainMap)
        → get_elem? bs i ≡ some b
        → Covered m b
        → P ((i, side) ∷ ws) m
        → P
            (insert_related address bs 0 i (filtered b side) ws)
            (write m (filtered b side) (kept b side m))

  Ended-of :
      (o : FilteringOutput) (m : DomainMap)
      → is_failure o ≡ false
      → Ready bs [] m
      → P [] m
      → Ended o m []
  Ended-of failure m h r p = cc
  Ended-of pruned m h r p = (refl, r, p)
  Ended-of unpruned m h r p = (refl, r, p)

  -- The result of the loop.
  abbrev pub Ends : Result (FilteringOutput × DomainMap × List Arc) → Type 0
  Ends result = (r : FilteringOutput × DomainMap × List Arc) × (result ≡ ok r) × Ended r.0 r.1 r.2

  -- The measure that falls in every round.
  abbrev pub rounds : List Arc → DomainMap → ℕ
  rounds ws m = total m * suc (length bs) + length ws

  Ready-kept :
      (i : ℕ) (side : Bool) (b : Binary) (ws : List Arc) (m : DomainMap)
      → Ready bs ((i, side) ∷ ws) m
      → is_empty (kept b side m) ≡ false
      → Ready bs
          (insert_related address bs 0 i (filtered b side) ws)
          (write m (filtered b side) (kept b side m))
  Ready-kept i side b ws m ready filled = record {
    valid =
        write-Valid m (filtered b side) (kept b side m) ready.valid
          (filter-Ascending (supported b side m) (read m (filtered b side))
            (read-Ascending m (filtered b side) ready.valid))
          filled;
    covered =
        All-map (Covered m) (Covered (write m (filtered b side) (kept b side m))) bs
          (λ c h. Covered-write m (filtered b side) (kept b side m) c h) ready.covered;
    arcs =
        insert_related-All address bs 0 (length bs) i (filtered b side) ws (omega arith)
          ready.arcs.1;
  }

  rounds-kept :
      (i : ℕ) (side : Bool) (b : Binary) (ws : List Arc) (m : DomainMap)
      → has m (filtered b side) ≡ true
      → length (kept b side m) < length (read m (filtered b side))
      → rounds
          (insert_related address bs 0 i (filtered b side) ws)
          (write m (filtered b side) (kept b side m))
        < rounds ((i, side) ∷ ws) m
  rounds-kept i side b ws m h less =
      fuel_left (total m) (total (write m (filtered b side) (kept b side m))) (length bs)
        (length ws) _ (omega (arith, total-write m (filtered b side) (kept b side m) h))
        (length-insert_related address bs 0 i (filtered b side) ws)

  -- One round, if the rest of the loop ends as it should.
  after_arc-Ends :
      Keeps
      → (fuel : ℕ)
        (next : FilteringOutput
          → List Arc
          → DomainMap
          → Result (FilteringOutput × DomainMap × List Arc))
      → ((o : FilteringOutput) (ws : List Arc) (m : DomainMap)
          → is_failure o ≡ false
          → Ready bs ws m
          → P ws m
          → rounds ws m < fuel
          → Ends (next o ws m))
      → (result : FilteringOutput) (i : ℕ) (side : Bool) (b : Binary) (ws : List Arc)
        (m : DomainMap)
      → is_failure result ≡ false
      → get_elem? bs i ≡ some b
      → Covered m b
      → Ready bs ((i, side) ∷ ws) m
      → P ((i, side) ∷ ws) m
      → rounds ((i, side) ∷ ws) m < suc fuel
      → (r : FilteringOutput × DomainMap) → ArcOutcome b side m r.0 r.1
      → Ends (after_arc address next bs result i (filtered b side) ws r)
  after_arc-Ends keeps fuel next rest result i side b ws m f at cover ready p l (failure, m')
        stuck =
      (
        (failure, m', ws),
        refl,
        record {
          position = i;
          side = side;
          constraint = b;
          worklist = ws;
          domains = m;
          at = at;
          cover = cover;
          holds = p;
          stuck = stuck;
        },
      )
  after_arc-Ends keeps fuel next rest result i side b ws m f at cover ready p l (pruned, m')
        (e, less, filled) =
      rw e (
        rest pruned _ _ refl (Ready-kept i side b ws m ready filled)
          (keeps.changed i side b ws m at cover p)
          (omega (arith, rounds-kept i side b ws m (Covered-filtered m b side cover) less)))
  after_arc-Ends keeps fuel next rest result i side b ws m f at cover ready p l (unpruned, m')
        (e, every) =
      let ready' : Ready bs ws m = record {
        valid = ready.valid;
        covered = ready.covered;
        arcs = ready.arcs.1;
      } in
      rw e
        (rest result ws m f ready' (keeps.unchanged i side b ws m at cover p every) (omega arith))

  -- With enough fuel the loop returns. If its output is a failure, it is at an arc that leaves no value;
  -- otherwise it ends with an empty worklist, in a situation that it keeps.
  pub binary_filtering-Ends :
      Keeps
      → (fuel : ℕ) (result : FilteringOutput) (ws : List Arc) (m : DomainMap)
      → is_failure result ≡ false
      → Ready bs ws m
      → P ws m
      → rounds ws m < fuel
      → Ends (binary_filtering address fuel bs result ws m)
  unfolding binary_filtering
  binary_filtering-Ends keeps zero result ws m f ready p l = absurd (omega arith)
  binary_filtering-Ends keeps (suc fuel) result [] m f ready p l =
      ((result, m, []), refl, Ended-of result m f ready p)
  binary_filtering-Ends keeps (suc fuel) result ((i, side) ∷ ws) m f ready p l =
      let (b, at) = get_elem?-some bs i ready.arcs.0 in
      let cover : Covered m b = All-get_elem? (Covered m) bs i ready.covered at in
      let (r, e, outcome) =
        arc_filter-ArcOutcome b side m ready.valid (Covered-filtered m b side cover)
          (Covered-other m b side cover) in
      rw (at, e)
        (after_arc-Ends keeps fuel (binary_filtering address fuel bs)
          (λ o ws' m' f' ready' p' l'. binary_filtering-Ends keeps fuel o ws' m' f' ready' p' l')
          result i side b ws m f at cover ready p l r outcome)
