-- ===== src/Sse.antt =====
-- src/sse.rs: the incremental parser of server-sent events. `Scan` finds the end of an event in the
-- buffer, `Event` reads its fields, `Parser` is the object with its buffer and limit; the other
-- modules prove what it promises.
pub mod Scan
pub mod Event
pub mod Parser
pub mod Drain
pub mod Progress
pub mod Chunks
pub mod Format
pub mod Stream
pub mod SharedLineEnd
mod Tests
