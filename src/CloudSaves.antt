-- ===== src/CloudSaves.antt =====
-- cloud_saves.rs: Cloud Save V2. `State` has the tables and `Request` the checks of a request; the
-- handlers are in `Gc`, `Prepare`, `Commit`, `Manage` and `Read`, and the other modules prove.
pub mod State
pub mod Request
pub mod Gc
pub mod Prepare
pub mod Commit
pub mod Manage
pub mod Read
pub mod Invariant
pub mod Reach
pub mod Serve
pub mod Prepared
pub mod PrepareLaws
pub mod Conflict
pub mod Committed
pub mod Committing
pub mod CommitLaws
pub mod Restoring
pub mod RestoreLaws
pub mod Races
pub mod NewBytes
pub mod QuotaLaws
pub mod GcLaws
mod Tests
