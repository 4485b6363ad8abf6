-- ===== src/Tasks.antt =====
-- src/tasks.rs: the index of logical tasks of a run. The run's events are a list; the manifest and the
-- reading of the log are not modelled. `Index` is the fold over the events, `Count` its accounting.
pub mod Index
pub mod Count
mod Tests
