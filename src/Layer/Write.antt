-- ===== src/Layer/Write.antt =====
-- internal/layer/write.go: the writer of a dataset.
pub mod Sql
pub mod Writer
pub mod Flush
pub mod Batch
pub mod Invariant
pub mod Preserve
pub mod Newest
pub mod Refine
pub mod Transactions
pub mod Commit
pub mod Abort
pub mod Settings
pub mod Quoting
pub mod Bounds
pub mod Sent
pub mod Upserts
mod Tests
mod Examples
