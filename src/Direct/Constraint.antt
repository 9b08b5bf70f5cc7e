-- ===== src/Direct/Constraint.antt =====
-- src/constraints/direct/constraint.hxx, constraint.cxx, builtin.hxx and builtin.cxx: the constraints
-- on state variables and how they filter the domains of the variables in their scope.
use planner.Prelude.{
  Bool, true, false, not, [], ◌∷◌, ◌++◌, ◌==◌, leb, length, all, any, if◌then◌else◌,
}
use planner.Prelude.Int.{ℤ, eq_ℤ, ltb_ℤ, leb_ℤ}
use planner.Prelude.Outcome.{Result, ok, err, undefined, ◌>>=◌}
use planner.Direct.Domain.{
  FilteringOutput, failure, pruned, unpruned, Domain, last_from, before, from, head_if_equal,
  skip_equal, erase, member, filter, is_empty,
}

-- `filter_lt`, `filter_leq`, `filter_gt` and `filter_geq`; an empty domain is read out of bounds.
unfoldable pub filter_lt : Domain → ℤ → ℤ → Result (FilteringOutput × Domain)
filter_lt [] y_min y_max = err undefined
filter_lt (x ∷ xs) y_min y_max =
    if ltb_ℤ (last_from x xs) y_max
    then ok (unpruned, x ∷ xs)
    else if leb_ℤ y_max x
    then ok (failure, x ∷ xs)
    else ok (pruned, before y_max (x ∷ xs))

unfoldable pub filter_leq : Domain → ℤ → ℤ → Result (FilteringOutput × Domain)
filter_leq [] y_min y_max = err undefined
filter_leq (x ∷ xs) y_min y_max =
    if leb_ℤ (last_from x xs) y_max
    then ok (unpruned, x ∷ xs)
    else if ltb_ℤ y_max x
    then ok (failure, x ∷ xs)
    else ok (pruned, before y_max (x ∷ xs) ++ head_if_equal y_max (from y_max (x ∷ xs)))

unfoldable pub filter_gt : Domain → ℤ → ℤ → Result (FilteringOutput × Domain)
filter_gt [] y_min y_max = err undefined
filter_gt (x ∷ xs) y_min y_max =
    if ltb_ℤ y_min x
    then ok (unpruned, x ∷ xs)
    else if leb_ℤ (last_from x xs) y_min
    then ok (failure, x ∷ xs)
    else ok (pruned, skip_equal y_min (from y_min (x ∷ xs)))

unfoldable pub filter_geq : Domain → ℤ → ℤ → Result (FilteringOutput × Domain)
filter_geq [] y_min y_max = err undefined
filter_geq (x ∷ xs) y_min y_max =
    if leb_ℤ y_min x
    then ok (unpruned, x ∷ xs)
    else if ltb_ℤ (last_from x xs) y_min
    then ok (failure, x ∷ xs)
    else ok (pruned, from y_min (x ∷ xs))

-- The classes of binary constraints; `tested` is any class that inherits the filtering of
-- `BinaryDirectConstraint`, given by its `isSatisfied`.
pub data BinaryClass : Type 0 where
  lt : BinaryClass
  leq : BinaryClass
  eq : BinaryClass
  neq : BinaryClass
  tested : (ℤ → ℤ → Bool) → BinaryClass

abbrev pub is_satisfied : BinaryClass → ℤ → ℤ → Bool
is_satisfied lt a b = ltb_ℤ a b
is_satisfied leq a b = leb_ℤ a b
is_satisfied eq a b = eq_ℤ a b
is_satisfied neq a b = not (eq_ℤ a b)
is_satisfied (tested p) a b = p a b

-- The constraint between a value of the filtered variable and one of the other, in the right order;
-- the flag says that the filtered variable is the second one.
abbrev pub related : BinaryClass → Bool → ℤ → ℤ → Bool
related c false x z = is_satisfied c x z
related c true x z = is_satisfied c z x

-- `BinaryDirectConstraint::filter(variable)`
unfoldable pub arc_reduce : (ℤ → ℤ → Bool) → Domain → Domain → FilteringOutput × Domain
arc_reduce holds domain other =
    let new_domain = filter (λ x. any (holds x) other) domain in
    if is_empty new_domain
    then (failure, domain)
    else if not (length new_domain == length domain)
    then (pruned, new_domain)
    else (unpruned, domain)

-- The smallest and the largest value.
abbrev pub extremes : Domain → Result (ℤ × ℤ)
extremes [] = err undefined
extremes (x ∷ xs) = ok (x, last_from x xs)

-- `EQConstraint::filter`; a value is searched for by `lower_bound`.
abbrev pub found : ℤ → Domain → Bool
found x d = not (is_empty (head_if_equal x (from x d)))

unfoldable pub filter_eq : Domain → Domain → Result (FilteringOutput × Domain)
filter_eq domain other =
    let new_domain = filter (λ x. found x other) domain in
    if length new_domain == length domain
    then ok (unpruned, domain)
    else if length new_domain == 0
    then ok (failure, domain)
    else ok (pruned, new_domain)

-- What follows an `erase` of one value.
unfoldable pub erase_value : ℤ → Domain → FilteringOutput × Domain
erase_value z domain =
    if not (member z domain)
    then (unpruned, domain)
    else (if is_empty (erase z domain) then failure else pruned, erase z domain)

-- `NEQConstraint::filter`
unfoldable pub filter_neq : Domain → Domain → Result (FilteringOutput × Domain)
filter_neq domain other =
    if leb 2 (length other)
    then ok (unpruned, domain)
    else (do bounds ← extremes other; ok (erase_value bounds.0 domain))

-- `filter(variable)` of each class, on the domain of the filtered variable and the other domain
unfoldable pub reduce : BinaryClass → Bool → Domain → Domain → Result (FilteringOutput × Domain)
unfolding filter_lt filter_leq filter_gt filter_geq filter_eq filter_neq erase_value arc_reduce
reduce lt false domain other = do y ← extremes other; filter_lt domain y.0 y.1
reduce lt true domain other = do x ← extremes other; filter_gt domain x.0 x.1
reduce leq false domain other = do y ← extremes other; filter_leq domain y.0 y.1
reduce leq true domain other = do x ← extremes other; filter_geq domain x.0 x.1
reduce eq _ domain other = filter_eq domain other
reduce neq _ domain other = filter_neq domain other
reduce (tested p) side domain other = ok (arc_reduce (related (tested p) side) domain other)

-- The classes of unary constraints; `tested` is any class that inherits the filtering of
-- `UnaryDirectConstraint`.
pub data UnaryClass : Type 0 where
  eqx : ℤ → UnaryClass
  neqx : ℤ → UnaryClass
  ltx : ℤ → UnaryClass
  leqx : ℤ → UnaryClass
  gtx : ℤ → UnaryClass
  geqx : ℤ → UnaryClass
  tested : (ℤ → Bool) → UnaryClass

abbrev pub accepts : UnaryClass → ℤ → Bool
accepts (eqx c) x = eq_ℤ x c
accepts (neqx c) x = not (eq_ℤ x c)
accepts (ltx c) x = ltb_ℤ x c
accepts (leqx c) x = leb_ℤ x c
accepts (gtx c) x = ltb_ℤ c x
accepts (geqx c) x = leb_ℤ c x
accepts (UnaryClass.tested p) x = p x

-- `UnaryDirectConstraint::filter`
unfoldable pub node_reduce : (ℤ → Bool) → Domain → FilteringOutput × Domain
node_reduce p domain =
    let new_domain = filter p domain in
    (if is_empty new_domain then failure else if all p domain then unpruned else pruned, new_domain)

unfoldable pub filter_eqx : ℤ → Domain → FilteringOutput × Domain
filter_eqx c domain =
    if not (member c domain)
    then (failure, [])
    else if length domain == 1
    then (unpruned, domain)
    else (pruned, c ∷ [])

-- `filter(domains)` of each class, on the domain of the variable
unfoldable pub narrow : UnaryClass → Domain → Result (FilteringOutput × Domain)
unfolding filter_lt filter_leq filter_gt filter_geq filter_eqx erase_value node_reduce
narrow (eqx c) domain = ok (filter_eqx c domain)
narrow (neqx c) domain = ok (erase_value c domain)
narrow (ltx c) domain = filter_lt domain c c
narrow (leqx c) domain = filter_leq domain c c
narrow (gtx c) domain = filter_gt domain c c
narrow (geqx c) domain = filter_geq domain c c
narrow (UnaryClass.tested p) domain = ok (node_reduce p domain)
