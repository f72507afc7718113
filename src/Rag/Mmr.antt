-- ===== src/Rag/Mmr.antt =====
-- rag/mmr.go: reordering by maximal marginal relevance.
pub mod Defs
pub mod Selected
pub mod Tests
unfoldable pub use Defs.*
