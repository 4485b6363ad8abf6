-- ===== src/Quota.antt =====
-- The blob quota of src/storage.rs: reserve_blob_storage and release_blob_storage on a shared counter,
-- by any number of tasks in any order. `Reserve` has the tasks' steps, `Safe` the invariant.
pub mod Reserve
pub mod Safe
mod Tests
