-- ===== src/Database.antt =====
-- core/object_database.py: a multi-version store of key-value data, and views and transactions
-- over it.
pub mod Versions
pub mod Slots
pub mod Invariant
pub mod Cleanup
pub mod Forget
pub mod Counts
pub mod Settle
pub mod Written
pub mod Commit
pub mod History
pub mod Cache
pub mod Snapshot
pub mod Conflict
pub mod Matching
pub mod Parsed
mod Tests
