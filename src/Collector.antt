-- ===== src/Collector.antt =====
-- src/control.rs: the requests that the platform makes of a collector, and the state that the collector
-- keeps on disk while one of them is in flight. `Daemon` is the state with what happened so far,
-- `Execute` a request's work, `Cycle` the loop; the other modules are proofs.
pub mod Daemon
pub mod Execute
pub mod Work
pub mod Delete
pub mod Cycle
pub mod Protocol
pub mod Works
pub mod Kinds
pub mod Idle
pub mod Follows
pub mod Once
mod Tests
