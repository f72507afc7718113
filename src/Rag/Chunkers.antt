-- ===== src/Rag/Chunkers.antt =====
-- rag/chunkers.go: the strategies that split a document into pieces.
mod Defs
mod Markdown
pub mod Windows
pub mod Visible
pub mod Kept
pub mod Tests
unfoldable pub use Defs.*
unfoldable pub use Markdown.*
