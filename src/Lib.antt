-- ===== src/Lib.antt =====
-- The core of the FS planner: how states, terms, formulas, effects and actions are represented, when
-- a ground action is applicable and what it does, how a plan is checked, how the direct constraints
-- filter domains, and how a relaxed plan is read off a relaxed planning graph.
--
-- The program's parts, and the files that model them:
-- - Atom: atoms X=x and their orderings (src/atom.hxx).
-- - Info: what the planner knows of a problem, as loaded values (src/problem_info.hxx, .cxx).
-- - State: the values of all state variables in two vectors with an indexer (src/state.hxx, .cxx).
--   State/Index, Access, Updates and Equality hold the proofs.
-- - Binding: possibly partial bindings of variables (src/utils/binding.hxx), with Binding/Laws and Merge.
-- - Language: terms and formulas (src/languages/fstrips/terms.hxx, formulae.hxx) in Language/Syntax,
--   the arithmetic terms and predicates (builtin.cxx) in Language/Builtin, their values
--   (terms.cxx, formulae.cxx, operations/interpretation.cxx) in Language/Interpret, and their partial
--   evaluation under a binding (operations/binding.cxx) in Language/Bind and its children.
-- - Effect: the effects of an action (src/languages/fstrips/effects.hxx, .cxx).
-- - Applicability: ground actions and the naive managers (src/applicability/action_managers.cxx), the
--   plan checker (src/actions/checker.cxx) and the iteration over applicable actions
--   (src/applicability/action_managers.hxx, GroundApplicableSet).
-- - AtomIndex: the numbers of atoms and tuples (src/utils/atom_index.*). Entries, Growth, Listing, RoundTrip
--   and Complete hold the proofs.
-- - Whitelist: `SmartActionManager::compute_whitelist` (src/applicability/action_managers.cxx) and
--   `Utils::empty_intersection` (src/utils/utils.hxx).
-- - MatchTree: the match tree that finds applicable actions (src/applicability/match_tree.cxx), with
--   MatchTree/Required, Split, Switch and Correct for the proofs.
-- - CartesianIterator: the iterator over a product of domains (src/utils/cartesian_iterator.cxx).
-- - Direct: the constraints on one and two variables (src/constraints/filtering.hxx,
--   src/constraints/direct/constraint.*, builtin.*) over domains that are ascending vectors, in Domain,
--   DomainMap and Constraint, and their handler with the AC3 worklist (csp_handler.*) in Handler. Its other
--   modules are proofs: Order, Branches, Reduction and Narrowing on single filters, Arc, Worklist, Loop, Requeue,
--   Consistency, ArcConsistency and Fixpoint on the AC3 loop, Sound, Stages and Solution on solutions.
-- - RelaxedPlan: the data of a relaxed planning graph (src/heuristics/relaxed_plan/rpg_data.*) in Data, the
--   extraction of a relaxed plan (relaxed_plan_extractor.hxx) in Extractor, and the relaxed state
--   (src/relaxed_state.*) in RelaxedState. Lookup, Layered and Growth prove the invariant of the graph,
--   Registry, Closure, Drain and Plan that the plan reaches the goals, and Lockstep that the relaxed state
--   and the graph agree.
-- - Prelude: names and lemmas that all share; Tests: a small problem and runs on it.
--
-- How the code is read: a class is a record or the constructors of a data type, a virtual method or
-- visitor is a function by clauses, and a function that may throw returns a Result, whose errors are
-- the exceptions (Prelude/Outcome). A reference that a function writes to comes back with its
-- result: the interpretation of a formula returns the binding. Signed overflow, and reads past a
-- vector by `operator[]` in a function that may throw, give the error `undefined`; the reads of a
-- state and of flags, whose index the code asserts, give a default there, and the theorems ask for
-- known variables. The singleton ProblemInfo is an argument. Variables and indexes are natural
-- numbers, values are integers; a condition that the source asserts is `undefined` where it fails,
-- in a function that may throw; `unsigned` arithmetic wraps around at 2 ^ 32 in the sizes of
-- bindings and in the layers and sums of the relaxed planning graphs, and is not wrapped in counters
-- and indexes that run over a vector; `int` arithmetic in terms checks its range.
--
-- Parameters: the hash function of boost (hash_of), the code of externally defined predicates and of
-- static functions, the goal test of the plan checker, the order of the constraints' addresses in
-- the worklist of arcs (address), and the filters of n-ary constraints. The tables that the
-- whitelist and the match tree read are arguments too. Loops over two sorted ranges and the
-- iteration over applicable actions run on fuel, the sum of the lengths, and the length and one
-- more; the match tree on the number of variables, since each level branches on a new one. The AC3
-- loop runs on fuel, for which the number of values in the domains times one more than the number of
-- constraints, plus two for each constraint, is enough, as every round takes an arc and an arc comes
-- back only after a value is gone. The queue of the relaxed plan extraction runs on fuel above the
-- number of goal atoms and of supporting atoms in the graph, since an atom is expanded once. The
-- cartesian iterator over no domains has ended at the start, as in the code, and its step is used
-- only where it has not ended.
--
-- Not modelled: axiomatic terms and atoms, printing, hashing of terms, loading from JSON, the
-- compiled, global and bounds constraints, the handler's copy for single arcs, the Gecode
-- constraints, search algorithms, the loops of the heuristics, grounding, and the Python front end.
pub mod Prelude
pub mod Atom
pub mod Info
pub mod State
pub mod Binding
pub mod Language
pub mod Effect
pub mod Direct
pub mod Applicability
pub mod Whitelist
pub mod MatchTree
pub mod CartesianIterator
pub mod RelaxedPlan
pub mod AtomIndex
pub mod Tests
