-- ===== src/State/Index.antt =====
-- src/state.cxx: the index that `StateAtomIndexer::create` computes.
use planner.Prelude.{
  ℕ, zero, suc, ◌+◌, ◌≤◌, ◌<◌, ◌≡◌, refl, Bool, true, false, List, [], ◌∷◌, arith, length, get_or,
  bool_eq, if◌then◌else◌,
}
use planner.Info.{ProblemInfo, num_variables}
use planner.State.{Indexer, index_loop, create_indexer}

-- How many of the first v variables are of the kind b.
abbrev pub rank : Bool → List Bool → ℕ → ℕ
rank b flags zero = 0
rank b [] (suc v) = 0
rank b (f ∷ flags) (suc v) = (if bool_eq f b then 1 else 0) + rank b flags v

pub rank-lt :
    (b : Bool) (flags : List Bool) (v w : ℕ)
    → v < w
    → v < length flags
    → get_or flags v false ≡ b
    → rank b flags v < rank b flags w
rank-lt b [] v w h k e = absurd (omega arith)
rank-lt b (f ∷ flags) zero (suc w) h k e = ground arith
rank-lt b (f ∷ flags) (suc v) (suc w) h k e =
    ground (arith, rank-lt b flags v w (omega arith) (omega arith) e)
rank-lt b (f ∷ flags) v zero h k e = absurd (omega arith)

pub rank-le : (b : Bool) (flags : List Bool) (v w : ℕ) → v ≤ w → rank b flags v ≤ rank b flags w
rank-le b flags zero w h = omega arith
rank-le b [] (suc v) w h = omega arith
rank-le b (f ∷ flags) (suc v) zero h = absurd (omega arith)
rank-le b (f ∷ flags) (suc v) (suc w) h = omega (arith, rank-le b flags v w (omega arith))

-- Both kinds together count all.
pub rank-total :
    (flags : List Bool) (v : ℕ) → v ≤ length flags → rank true flags v + rank false flags v ≡ v
rank-total flags zero h = omega arith
rank-total [] (suc v) h = absurd (omega arith)
rank-total (f ∷ flags) (suc v) h = ground (arith, rank-total flags v (omega arith))

-- What the index of variables with the given flags holds.
pub record IsIndexer (flags : List Bool) (x : Indexer) : Type 0 where
  pub size : length x.index ≡ length flags
  pub slots :
      (v : ℕ)
      → v < length flags
      → get_or x.index v (false, 0) ≡ (get_or flags v false, rank (get_or flags v false) flags v)
  pub bools : x.n_bool ≡ rank true flags (length flags)
  pub ints : x.n_int ≡ rank false flags (length flags)

size-index_loop :
    (flags : List Bool) (n_bool n_int : ℕ)
    → length (index_loop flags n_bool n_int).index ≡ length flags
unfolding index_loop
size-index_loop [] n_bool n_int = refl
size-index_loop (true ∷ flags) n_bool n_int =
    omega (arith, size-index_loop flags (n_bool + 1) n_int)
size-index_loop (false ∷ flags) n_bool n_int =
    omega (arith, size-index_loop flags n_bool (n_int + 1))

-- The counters start the ranks.
slots-index_loop :
    (flags : List Bool) (n_bool n_int v : ℕ)
    → v < length flags
    → get_or (index_loop flags n_bool n_int).index v (false, 0) ≡ (
      get_or flags v false,
      (if get_or flags v false then n_bool else n_int) + rank (get_or flags v false) flags v,
    )
unfolding index_loop
slots-index_loop [] n_bool n_int v h = absurd (omega arith)
slots-index_loop (true ∷ flags) n_bool n_int zero h = ground arith
slots-index_loop (false ∷ flags) n_bool n_int zero h = ground arith
slots-index_loop (true ∷ flags) n_bool n_int (suc v) h =
    ground (arith, slots-index_loop flags (n_bool + 1) n_int v (omega arith))
slots-index_loop (false ∷ flags) n_bool n_int (suc v) h =
    ground (arith, slots-index_loop flags n_bool (n_int + 1) v (omega arith))

counts-index_loop :
    (flags : List Bool) (n_bool n_int : ℕ)
    → ((index_loop flags n_bool n_int).n_bool ≡ n_bool + rank true flags (length flags))
      × ((index_loop flags n_bool n_int).n_int ≡ n_int + rank false flags (length flags))
unfolding index_loop
counts-index_loop [] n_bool n_int = (omega arith, omega arith)
counts-index_loop (true ∷ flags) n_bool n_int =
    omega (arith, counts-index_loop flags (n_bool + 1) n_int)
counts-index_loop (false ∷ flags) n_bool n_int =
    omega (arith, counts-index_loop flags n_bool (n_int + 1))

pub create_indexer-IsIndexer :
    (info : ProblemInfo) → IsIndexer info.predicative_variables (create_indexer info)
unfolding create_indexer
create_indexer-IsIndexer info = record {
  size = size-index_loop flags 0 0;
  slots = λ v h. ground (arith, slots-index_loop flags 0 0 v h);
  bools = omega (arith, counts-index_loop flags 0 0);
  ints = omega (arith, counts-index_loop flags 0 0);
}
  where
    open info use {predicative_variables as flags}

-- The indexer of a problem has an entry for each variable, which says whether the variable is
-- predicative and at which position it is stored: the number of the variables of its kind before it.
-- Its counters are the numbers of the variables of each kind.
pub create_indexer_lem :
    (info : ProblemInfo) (v : ℕ)
    → v < num_variables info
    → (get_or (create_indexer info).index v (false, 0) ≡ (
      get_or info.predicative_variables v false,
      rank (get_or info.predicative_variables v false) info.predicative_variables v,
    ))
      × ((create_indexer info).n_bool ≡ rank true info.predicative_variables (num_variables info))
      × ((create_indexer info).n_int ≡ rank false info.predicative_variables (num_variables info))
create_indexer_lem info v h =
    let x = create_indexer-IsIndexer info in (x.slots v h, x.bools, x.ints)

module _ {flags : List Bool} {x : Indexer} (h : IsIndexer flags x) where
  pub n_vars_split : x.n_bool + x.n_int ≡ length flags
  n_vars_split = omega (arith, h.bools, h.ints, rank-total flags (length flags))
