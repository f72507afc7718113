-- ===== src/Rag/Store.antt =====
-- rag/store.go, rag/update.go, rag/versions.go: the documents of a store.
mod Defs
mod Index
mod Docs
pub mod Tests
pub mod Sync
pub mod Append
pub mod Exported
pub mod Reindexed
pub mod Batch
pub mod Apply
pub mod Sound
pub mod Listed
pub mod History
pub mod Forget
pub mod Refuse
pub mod Even
unfoldable pub use Defs.*
unfoldable pub use Index.*
unfoldable pub use Docs.*
