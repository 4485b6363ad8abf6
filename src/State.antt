-- ===== src/State.antt =====
-- src/state.rs: the graph of provider state that a run's events refer to. The run's events are a
-- list; the manifest, the decryption and the reading of the log are not modelled. `Build` folds the
-- events and builds the graph; the other modules are proofs.
pub mod Observe
pub mod Build
pub mod Account
pub mod Closed
mod Tests
