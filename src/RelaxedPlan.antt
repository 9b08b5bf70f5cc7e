-- ===== src/RelaxedPlan.antt =====
-- src/heuristics/relaxed_plan/: the data of a relaxed planning graph, and the extraction of a relaxed plan
-- from it. Data and Extractor hold the definitions, the other modules the proofs.
pub mod Data
pub mod Extractor
pub mod Lookup
pub mod Layered
pub mod Growth
pub mod Registry
pub mod Closure
pub mod Drain
pub mod Plan
pub mod RelaxedState
pub mod Lockstep
