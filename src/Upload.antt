-- ===== src/Upload.antt =====
-- src/upload.rs: the state of an upload and its check, the plan of its batches, the chain of the
-- recording segments, the answers of the platform, and the gate that retention passes.
pub mod State
pub mod Chain
pub mod Gate
pub mod Coverage
pub mod Acked
pub mod Retained
pub mod Remote
pub mod Progress
pub mod Finish
pub mod Plan
pub mod Planned
pub mod Range
pub mod Built
pub mod Extend
pub mod Cursor
pub mod Follows
mod Tests
