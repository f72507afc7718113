-- ===== src/Rag/Ingest.antt =====
-- rag/ingest.go: the ingestion of a stream of documents by concurrent workers, with a journal and
-- checkpoints, and prepareDoc of rag/update.go.
pub mod Prepare
pub mod Run
pub mod Live
pub mod Recorded
pub mod Noted
pub mod Safe
pub mod Gone
pub mod Counted
pub mod Tests
unfoldable pub use Prepare.*
unfoldable pub use Run.*
