-- ===== src/RelaxedPlan/Layered.antt =====
-- The invariant of src/heuristics/relaxed_plan/rpg_data.cxx: every atom is in the seed state, or has an
-- action whose supporting atoms were reached in earlier layers.
use planner.Prelude.{
  ℕ, suc, ◌%◌, ◌^◌, ◌<◌, ◌≡◌, refl, sym, ◌∙◌, Bool, true, false, ◌&&◌, List, [], ◌∷◌, Option, none,
  some, ◌==◌, ltb, leb, arith, all, length, get_or, length-replicate, get_or-replicate,
}
use planner.Atom.{Atom}
use planner.State.{State, num_atoms, contains}
use planner.RelaxedPlan.Data.{AtomSupport, SupportMap, insert, RpgData, increment, advance_layer}
use planner.RelaxedPlan.Lookup.{
  reached_before, layer_values, layer_size, keys_differ, all-insert, reached_before-insert,
}

abbrev pub is_nil {ℓ} : {A : Type ℓ} → List A → Bool
is_nil [] = true
is_nil (_ ∷ _) = false

-- What an entry has to satisfy, in a graph whose current layer is n: an atom of the seed has layer 0 and no
-- support, any other has a layer from 1 to n, an action, and a support reached before its layer.
abbrev pub founded : State → SupportMap → ℕ → Atom → ℕ → Option ℕ → List Atom → Bool
founded s m n a layer none atoms = contains s a && (layer == 0) && is_nil atoms
founded s m n a layer (some action) atoms =
    ltb 0 layer && leb layer n && all (reached_before m layer) atoms

abbrev pub entry_founded : State → SupportMap → ℕ → Atom × AtomSupport → Bool
entry_founded s m n (a, t) = founded s m n a t.layer t.action t.support

pub record IsLayered (s : State) (d : RpgData) : Type 0 where
  pub entries : all (entry_founded s d.effects d.current_layer) d.effects ≡ true
  pub unique : keys_differ d.effects ≡ true
  pub width : length d.novel ≡ num_atoms s
  pub novel_values : (v : ℕ) → get_or d.novel v [] ≡ layer_values d.effects d.current_layer v
  pub novel_count : d.num_novel ≡ layer_size d.effects d.current_layer % 2 ^ 32
  pub opened : ltb 0 d.current_layer ≡ true

pub all_congr {ℓ} :
    {A : Type ℓ} (p q : A → Bool) (xs : List A)
    → ((x : A) → p x ≡ true → q x ≡ true)
    → all p xs ≡ true
    → all q xs ≡ true
all_congr p q [] f h = refl
all_congr p q (x ∷ xs) f h = ground (arith, f x, all_congr p q xs f)

pub founded-insert :
    (s : State) (m : SupportMap) (n : ℕ) (b : Atom) (u : AtomSupport) (a : Atom) (layer : ℕ)
    (action : Option ℕ) (atoms : List Atom)
    → founded s m n a layer action atoms ≡ true
    → founded s (insert m b u) n a layer action atoms ≡ true
founded-insert s m n b u a layer none atoms h = h
founded-insert s m n b u a layer (some action) atoms h = ground (
  arith,
  all_congr (reached_before m layer) (reached_before (insert m b u) layer) atoms
      (λ c k. reached_before-insert m b u layer c k),
)

pub insert-founded :
    (s : State) (m : SupportMap) (n : ℕ) (a : Atom) (t : AtomSupport)
    → all (entry_founded s m n) m ≡ true
    → entry_founded s m n (a, t) ≡ true
    → all (entry_founded s (insert m a t) n) (insert m a t) ≡ true
insert-founded s m n a t h k =
    all_congr (entry_founded s m n) (entry_founded s (insert m a t) n) (insert m a t)
      (λ (b, u) l. founded-insert s m n a t b u.layer u.action u.support l)
      (all-insert (entry_founded s m n) m a t h k)

founded-suc :
    (s : State) (m : SupportMap) (n : ℕ) (a : Atom) (layer : ℕ) (action : Option ℕ)
    (atoms : List Atom)
    → founded s m n a layer action atoms ≡ true
    → founded s m (suc n) a layer action atoms ≡ true
founded-suc s m n a layer none atoms h = h
founded-suc s m n a layer (some action) atoms h = ground arith

pub founded-le :
    (s : State) (m : SupportMap) (n : ℕ) (a : Atom) (layer : ℕ) (action : Option ℕ)
    (atoms : List Atom)
    → founded s m n a layer action atoms ≡ true
    → ltb layer (suc n) ≡ true
founded-le s m n a layer none atoms h = ground arith
founded-le s m n a layer (some action) atoms h = ground arith

-- Nothing has been reached in the layer after the current one.
layer_values_next :
    (s : State) (k m : SupportMap) (n v : ℕ)
    → all (entry_founded s k n) m ≡ true
    → layer_values m (suc n) v ≡ []
layer_values_next s k [] n v h = refl
layer_values_next s k ((a, t) ∷ m) n v h =
    ground (arith, layer_values_next s k m n v, founded-le s k n a t.layer t.action t.support)

layer_size_next :
    (s : State) (k m : SupportMap) (n : ℕ)
    → all (entry_founded s k n) m ≡ true
    → layer_size m (suc n) ≡ 0
layer_size_next s k [] n h = refl
layer_size_next s k ((a, t) ∷ m) n h =
    ground (arith, layer_size_next s k m n, founded-le s k n a t.layer t.action t.support)

pub advance_layer-IsLayered :
    (s : State) (d : RpgData)
    → all (entry_founded s d.effects d.current_layer) d.effects ≡ true
    → keys_differ d.effects ≡ true
    → length d.novel ≡ num_atoms s
    → suc d.current_layer < 2 ^ 32
    → IsLayered s (advance_layer d)
advance_layer-IsLayered s d h unique w l =
    let next : increment d.current_layer ≡ suc d.current_layer = omega arith in
    record {
      entries = rw next (
          all_congr (entry_founded s d.effects d.current_layer)
            (entry_founded s d.effects (suc d.current_layer)) d.effects
            (λ (a, t) k. founded-suc s d.effects d.current_layer a t.layer t.action t.support k) h);
      unique = unique;
      width = length-replicate (length d.novel) [] ∙ w;
      novel_values = λ v. rw next (
          get_or-replicate (length d.novel) v []
          ∙ sym (layer_values_next s d.effects d.effects d.current_layer v h));
      novel_count = rw (next, layer_size_next s d.effects d.effects d.current_layer h) refl;
      opened = rw next (ground arith);
    }
