-- ===== src/Control.antt =====
-- src/control.rs: the collector's local policy. `Fields` reads and writes JSON objects, `Merge` lays
-- the platform's configuration over the local one, `Apply` lays the result over the capture policy
-- of a new run; the other modules are proofs.
pub mod Fields
pub mod Names
pub mod Config
pub mod Merge
pub mod Remote
pub mod Apply
pub mod Restrict
pub mod Merged
pub mod Within
pub mod Tighten
pub mod Overlay
pub mod Answered
pub mod Taken
pub mod Told
pub mod Complete
mod Tests
