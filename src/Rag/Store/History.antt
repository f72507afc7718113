-- ===== src/Rag/Store/History.antt =====
-- rag/versions.go: the versions of a document as they are read.
mod Defs
pub mod Versions
pub mod Tests
unfoldable pub use Defs.*
