-- ===== src/Policy.antt =====
-- src/policy.rs: what a capture may keep. `Secrets` knows the names of secrets, `Capture` is the
-- policy itself, `Headers` and `Sanitize` make log-safe copies; the other modules are proofs.
pub mod Secrets
pub mod Capture
pub mod Headers
pub mod Sanitize
pub mod Clean
pub mod Bounds
pub mod Faithful
mod Tests
