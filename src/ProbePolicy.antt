-- ===== src/ProbePolicy.antt =====
-- src/probe_policy.rs: which probe helper an operator's policy approves. `Rule` has the policy and its
-- checks, `Select` the selection with its evidence; the other modules are proofs.
pub mod Rule
pub mod Select
pub mod Order
pub mod Decision
pub mod Revalidate
mod Tests
