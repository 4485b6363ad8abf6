-- ===== src/Audit.antt =====
-- src/audit.rs: the append-only audit log, a chain of hashed records. `Record` has one record and its
-- checks, `Log` the file with its operations, and the other modules the proofs.
pub mod Record
pub mod Log
pub mod Chain
pub mod Verify
pub mod Tamper
pub mod Append
pub mod Extend
pub mod Search
mod Tests
