-- ===== src/Direct.antt =====
-- src/constraints/direct: constraints on state variables, and the local consistency that is enforced on
-- the domains of the variables. The modules below hold the definitions and, from Order on, the proofs.
pub mod Domain
pub mod DomainMap
pub mod Constraint
pub mod Handler
pub mod Order
pub mod Branches
pub mod Reduction
pub mod Narrowing
pub mod Arc
pub mod Worklist
pub mod Loop
pub mod Fixpoint
pub mod Sound
pub mod Stages
pub mod Solution
pub mod Requeue
pub mod Consistency
pub mod ArcConsistency
