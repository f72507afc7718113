-- ===== src/Rag/Journal.antt =====
-- rag/journal.go: the record of the documents that have been ingested.
mod Defs
pub mod Durable
pub mod Tests
unfoldable pub use Defs.*
