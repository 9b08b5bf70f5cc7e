-- ===== src/Direct/Handler.antt =====
-- src/constraints/direct/csp_handler.hxx and csp_handler.cxx: `DirectCSPHandler`, which filters the
-- domains of the variables by all its constraints. A binary constraint is known by its position in
-- `binary_constraints`. The projections that constraints cache point into the map; clearing them is left out.
use planner.Prelude.{
  ℕ, zero, suc, ◌+◌, Bool, true, false, not, ◌&&◌, ◌||◌, List, [], ◌∷◌, ltb, ◌==◌, length, all,
  get_elem?, bool_eq, if◌then◌else◌, map,
}
use planner.Prelude.Outcome.{Result, ok, err, undefined, out_of_range, out_of_fuel, or_throw, ◌>>=◌}
use planner.Direct.Domain.{FilteringOutput, failure, pruned, unpruned, is_empty}
use planner.Direct.DomainMap.{DomainMap, find, has, read, write}
use planner.Direct.Constraint.{BinaryClass, UnaryClass, reduce, narrow}

-- The scope of a constraint with its class.
pub record Unary : Type 0 where
  pub class : UnaryClass
  pub variable : ℕ

pub record Binary : Type 0 where
  pub class : BinaryClass
  pub first : ℕ
  pub second : ℕ

-- A constraint of another class, with a `filter()` of its own.
pub record NAry : Type 0 where
  pub scope : List ℕ
  pub filter_loaded : DomainMap → Result (FilteringOutput × DomainMap)

pub data DirectConstraint : Type 0 where
  unary : Unary → DirectConstraint
  binary : Binary → DirectConstraint
  n_ary : NAry → DirectConstraint

pub record Handler : Type 0 where
  pub constraints : List DirectConstraint
  pub unary_constraints : List Unary
  pub binary_constraints : List Binary
  pub n_ary_constraints : List NAry

-- `indexConstraintsByArity`
add_constraint : DirectConstraint → Handler → Handler
add_constraint (unary u) h = record h {
  constraints = unary u ∷ h.constraints;
  unary_constraints = u ∷ h.unary_constraints;
}
add_constraint (binary b) h = record h {
  constraints = binary b ∷ h.constraints;
  binary_constraints = b ∷ h.binary_constraints;
}
add_constraint (n_ary n) h = record h {
  constraints = n_ary n ∷ h.constraints;
  n_ary_constraints = n ∷ h.n_ary_constraints;
}

unfoldable pub index_constraints_by_arity : List DirectConstraint → Handler
unfolding add_constraint
index_constraints_by_arity [] = record {
  constraints = [];
  unary_constraints = [];
  binary_constraints = [];
  n_ary_constraints = [];
}
index_constraints_by_arity (c ∷ cs) = add_constraint c (index_constraints_by_arity cs)

abbrev pub is_failure : FilteringOutput → Bool
is_failure failure = true
is_failure pruned = false
is_failure unpruned = false

abbrev pub is_pruned : FilteringOutput → Bool
is_pruned failure = false
is_pruned pruned = true
is_pruned unpruned = false

-- The output of a loop so far, after one more constraint has been filtered without a failure.
abbrev pub combine : FilteringOutput → FilteringOutput → FilteringOutput
combine output o = if is_pruned o then pruned else output

-- `unaryFiltering`, from the output reached so far
unfoldable pub unary_filtering :
    List Unary → FilteringOutput → DomainMap → Result (FilteringOutput × DomainMap)
unary_filtering [] output m = ok (output, m)
unary_filtering (u ∷ us) output m = do
  domain ← or_throw (find m u.variable) out_of_range
  r ← narrow u.class domain
  if is_failure r.0
      then ok (failure, write m u.variable r.1)
      else unary_filtering us (combine output r.0) (write m u.variable r.1)

-- The variable that an arc filters, and the other one of the scope.
abbrev pub filtered : Binary → Bool → ℕ
filtered b side = if side then b.second else b.first

abbrev pub other : Binary → Bool → ℕ
other b side = if side then b.first else b.second

-- `constraint->filter(variable)` on the loaded domains
unfoldable pub arc_filter : Binary → Bool → DomainMap → Result (FilteringOutput × DomainMap)
arc_filter b side m = do
  r ← reduce b.class side (read m (filtered b side)) (read m (other b side))
  ok (r.0, write m (filtered b side) r.1)

-- An arc: the position of a constraint and the variable of its scope, false for 0 and true for 1.
abbrev pub Arc : Type 0
Arc = ℕ × Bool

abbrev pub same_arc : Arc → Arc → Bool
same_arc (i, s) (j, t) = i == j && bool_eq s t

-- `globalFiltering`
unfoldable pub global_filtering :
    List NAry → FilteringOutput → DomainMap → Result (FilteringOutput × DomainMap)
global_filtering [] output m = ok (output, m)
global_filtering (n ∷ ns) output m = do
  r ← n.filter_loaded m
  if is_failure r.0 then ok (failure, r.1) else global_filtering ns (combine output r.0) r.1

-- `loadDomains` of some constraints: the domain of each variable is looked up by `at`.
unfoldable pub load_domains : List (List ℕ) → DomainMap → Result (Unit {0})
load_domains [] m = ok tt
load_domains (scope ∷ scopes) m =
    if all (has m) scope then load_domains scopes m else err out_of_range

abbrev pub scope_of : Binary → List ℕ
scope_of b = b.first ∷ b.second ∷ []

-- `checkConsistency`
unfoldable pub check_consistency : DomainMap → Bool
check_consistency [] = true
check_consistency ((v, d) ∷ m) = if is_empty d then false else check_consistency m

abbrev pub no_constraints : List DirectConstraint → Bool
no_constraints [] = true
no_constraints (_ ∷ _) = false

-- The worklist is a set that is ordered by the addresses of the constraints, which are a parameter. It is
-- kept in descending order, so that `select`, which takes the last arc, takes the head.
module _ (address : ℕ → ℕ) where
  abbrev pub arc_less : Arc → Arc → Bool
  arc_less (i, s) (j, t) =
      if ltb (address i) (address j) then true else address i == address j && not s && t

  unfoldable pub insert_arc : Arc → List Arc → List Arc
  insert_arc a [] = a ∷ []
  insert_arc a (b ∷ worklist) =
      if same_arc a b
      then b ∷ worklist
      else if arc_less b a
      then a ∷ (b ∷ worklist)
      else b ∷ insert_arc a worklist

  -- `initializeAC3Worklist`, from position i on
  unfoldable pub initialize_worklist : List Binary → ℕ → List Arc → List Arc
  unfolding insert_arc
  initialize_worklist [] i worklist = worklist
  initialize_worklist (b ∷ bs) i worklist =
      initialize_worklist bs (i + 1) (insert_arc (i, true) (insert_arc (i, false) worklist))

  -- The body of the loop of `binaryFiltering` that inserts the arcs to be looked at again after the
  -- constraint at the position `current` has pruned the domain of v, for the constraint at position i; and
  -- the loop, from position i on.
  unfoldable pub reinsert : Binary → ℕ → ℕ → ℕ → List Arc → List Arc
  unfolding insert_arc
  reinsert b i current v worklist =
      if i == current
      then worklist
      else if v == b.first
      then insert_arc (i, true) worklist
      else if v == b.second
      then insert_arc (i, false) worklist
      else worklist

  unfoldable pub insert_related : List Binary → ℕ → ℕ → ℕ → List Arc → List Arc
  unfolding reinsert
  insert_related [] i current v worklist = worklist
  insert_related (b ∷ bs) i current v worklist =
      insert_related bs (i + 1) current v (reinsert b i current v worklist)

  -- What `binaryFiltering` does after it has filtered an arc of the constraint at position i, which may
  -- have pruned the domain of v; `next` is the rest of the loop.
  abbrev pub after_arc :
      (FilteringOutput → List Arc → DomainMap → Result (FilteringOutput × DomainMap × List Arc))
      → List Binary
      → FilteringOutput
      → ℕ
      → ℕ
      → List Arc
      → FilteringOutput × DomainMap
      → Result (FilteringOutput × DomainMap × List Arc)
  after_arc next bs result i v worklist (failure, m) = ok (failure, m, worklist)
  after_arc next bs result i v worklist (pruned, m) =
      next pruned (insert_related bs 0 i v worklist) m
  after_arc next bs result i v worklist (unpruned, m) = next result worklist m

  -- `binaryFiltering`, on fuel; the worklist is passed by reference, so what is left of it is returned.
  unfoldable pub binary_filtering :
      ℕ
      → List Binary
      → FilteringOutput
      → List Arc
      → DomainMap
      → Result (FilteringOutput × DomainMap × List Arc)
  unfolding arc_filter insert_related
  binary_filtering zero bs result worklist m = err out_of_fuel
  binary_filtering (suc fuel) bs result [] m = ok (result, m, [])
  binary_filtering (suc fuel) bs result ((i, side) ∷ worklist) m = do
    b ← or_throw (get_elem? bs i) undefined
    r ← arc_filter b side m
    after_arc (binary_filtering fuel bs) bs result i (filtered b side) worklist r

  -- The loop at the end of `filter`
  unfoldable pub keep_pruning :
      ℕ → ℕ → Handler → FilteringOutput → FilteringOutput → List Arc → DomainMap → Result DomainMap
  unfolding binary_filtering global_filtering
  keep_pruning zero fuel h b g worklist m = err out_of_fuel
  keep_pruning (suc n) fuel h b g worklist m = elim (is_pruned b && is_pruned g) [
    | false ↦ ok m
    | true ↦ do
      x ← binary_filtering fuel h.binary_constraints unpruned worklist m
      elim (is_pruned x.0) [
        | false ↦ keep_pruning n fuel h x.0 g x.2 x.1
        | true ↦ do
          y ← global_filtering h.n_ary_constraints unpruned x.1
          keep_pruning n fuel h x.0 y.0 x.2 y.1
      ]
  ]

  -- `filter`
  unfoldable pub filter : ℕ → Handler → DomainMap → Result (FilteringOutput × DomainMap)
  unfolding unary_filtering load_domains binary_filtering global_filtering keep_pruning
      initialize_worklist
  filter fuel h m = if no_constraints h.constraints then ok (unpruned, m) else (do
    u ← unary_filtering h.unary_constraints unpruned m
    if is_failure u.0 || length h.unary_constraints == length h.constraints then ok u else (do
      _ ← load_domains (map scope_of h.binary_constraints) u.1
      _ ← load_domains (map (λ (n : NAry). n.scope) h.n_ary_constraints) u.1
      b ←
          binary_filtering fuel h.binary_constraints unpruned
            (initialize_worklist h.binary_constraints 0 []) u.1
      if is_failure b.0 then ok (failure, b.1) else (do
        g ← global_filtering h.n_ary_constraints unpruned b.1
        if is_failure g.0 then ok (failure, g.1) else (do
          final ← keep_pruning fuel fuel h b.0 g.0 b.2 g.1
          ok (if is_pruned b.0 || is_pruned g.0 then pruned else u.0, final)))))
