-- ===== src/EventLog.antt =====
-- The event log of src/storage.rs in its JSON-lines form: one event to a line, and the recovery of a
-- log that a crash has torn. `Cipher` is the encrypted record of an event, `Record` encodes and
-- decodes an event, `Recover` reads a log back, `Append` writes a batch; the other modules are proofs.
pub mod Record
pub mod Recover
pub mod Append
pub mod Codec
pub mod Cipher
pub mod Sealed
pub mod Bound
pub mod Torn
pub mod Repair
pub mod Batch
pub mod Acknowledge
pub mod Durable
mod TestCodec
mod Tests
