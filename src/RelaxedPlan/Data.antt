-- ===== src/RelaxedPlan/Data.antt =====
-- src/heuristics/relaxed_plan/rpg_data.hxx and rpg_data.cxx: which atoms a relaxed planning graph has
-- reached, in which layer, and by which action.
use planner.Prelude.{
  ℕ, zero, suc, ◌+◌, ◌%◌, ◌^◌, Bool, true, false, List, [], ◌∷◌, ◌++◌, Option, none, some, ltb,
  length, get_or, set, replicate, if◌then◌else◌,
}
use planner.Prelude.Int.{ℤ}
use planner.Prelude.Outcome.{Result, ok, err, undefined, or_throw, ◌>>=◌}
use planner.Atom.{Atom, eq}
use planner.Info.{ProblemInfo, is_negated_predicative_atom}
use planner.State.{State, num_atoms, get_value}

-- `AtomSupport`. An action is known by its address, and none stands for the null pointer.
pub record AtomSupport : Type 0 where
  pub layer : ℕ
  pub action : Option ℕ
  pub support : List Atom

-- `std::map<Atom, AtomSupport>`. Only printing depends on the order of its entries.
abbrev pub SupportMap : Type 0
SupportMap = List (Atom × AtomSupport)

abbrev pub find : SupportMap → Atom → Option AtomSupport
find [] a = none
find ((b, t) ∷ m) a = if eq b a then some t else find m a

abbrev pub has : SupportMap → Atom → Bool
has [] a = false
has ((b, t) ∷ m) a = if eq b a then true else has m a

-- `insert` leaves the entry of a key that is there.
abbrev pub insert : SupportMap → Atom → AtomSupport → SupportMap
insert [] a t = (a, t) ∷ []
insert ((b, u) ∷ m) a t = if eq b a then (b, u) ∷ m else (b, u) ∷ insert m a t

pub record RpgData : Type 0 where
  pub novel : List (List ℤ)
  pub num_novel : ℕ
  pub current_layer : ℕ
  pub effects : SupportMap

-- Arithmetic on `unsigned`.
abbrev pub increment : ℕ → ℕ
increment n = suc n % 2 ^ 32

abbrev pub num_layers : RpgData → ℕ
num_layers d = increment d.current_layer

abbrev pub advance_layer : RpgData → RpgData
advance_layer d = record d {
  novel = replicate (length d.novel) [];
  num_novel = 0;
  current_layer = increment d.current_layer;
}

abbrev pub create_atom_support : ℕ → Option ℕ → List Atom → AtomSupport
create_atom_support current_layer action support = record {
  layer = current_layer;
  action = action;
  support = support;
}

-- `ignore_negated && info.isPredicativeVariable(variable) && value == 0`
abbrev pub is_ignored : ProblemInfo → Bool → Atom → Result Bool
is_ignored info true a = is_negated_predicative_atom info a
is_ignored info false a = ok false

-- The loop of the constructor over the variables from v on; n of them are left.
unfoldable pub insert_seed : ProblemInfo → Bool → State → ℕ → ℕ → SupportMap → Result SupportMap
insert_seed info ignore_negated s zero v m = ok m
insert_seed info ignore_negated s (suc n) v m =
    let a : Atom = record { variable = v; value = get_value s v } in
    is_ignored info ignore_negated a >>= (λ ignored.
      insert_seed info ignore_negated s n (suc v)
        (if ignored then m else insert m a (create_atom_support 0 none [])))

-- The graph with the seed as its layer 0
abbrev pub seeded : State → SupportMap → RpgData
seeded s effects = record {
  novel = replicate (num_atoms s) [];
  num_novel = 0;
  current_layer = 0;
  effects = effects;
}

unfoldable pub create_data : ProblemInfo → State → Bool → Result RpgData
unfolding insert_seed
create_data info s ignore_negated =
    insert_seed info ignore_negated s (num_atoms s) 0 []
    >>= (λ effects. ok (advance_layer (seeded s effects)))

-- `add` with a hint: `insert`, and `push_back` on `_novel[variable]`, which must be in range
abbrev pub tracked : RpgData → Atom → Option ℕ → List Atom → RpgData
tracked d a action support = record d {
  effects = insert d.effects a (create_atom_support d.current_layer action support);
  novel = set d.novel a.variable (get_or d.novel a.variable [] ++ (a.value ∷ []));
  num_novel = increment d.num_novel;
}

abbrev pub add_novel : RpgData → Atom → Option ℕ → List Atom → Result RpgData
add_novel d a action support =
    if ltb a.variable (length d.novel) then ok (tracked d a action support) else err undefined

-- `add`: what is already tracked is left as it is
unfoldable pub add : RpgData → Atom → Option ℕ → List Atom → Result RpgData
add d a action support = if has d.effects a then ok d else add_novel d a action support

-- `getAtomSupport`, which asserts that the atom is tracked
abbrev pub atom_support : RpgData → Atom → Result AtomSupport
atom_support d a = or_throw (find d.effects a) undefined

-- The loop of `compute_hmax_sum`, from the sum so far.
unfoldable pub hmax_sum_from : RpgData → ℕ → List Atom → Result ℕ
hmax_sum_from d sum [] = ok sum
hmax_sum_from d sum (a ∷ atoms) =
    atom_support d a >>= (λ t. hmax_sum_from d ((sum + t.layer) % 2 ^ 32) atoms)

unfoldable pub compute_hmax_sum : RpgData → List Atom → Result ℕ
unfolding hmax_sum_from
compute_hmax_sum d atoms = hmax_sum_from d 0 atoms
