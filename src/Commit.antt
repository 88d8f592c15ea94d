-- ===== src/Commit.antt =====
-- core/commit/commitBatch.js, core/commit/idempotency.js: the commit of valid rows.
pub mod Batch
pub mod Job
pub mod Tests
