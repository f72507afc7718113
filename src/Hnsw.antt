-- ===== src/Hnsw.antt =====
-- Package index: the layered graph of the vector index (index/hnsw.go, index/hnsw_heap.go).
mod Marks
mod Graph
mod Search
mod Insert
pub mod Visited
pub mod Query
pub mod Restore
pub mod Well
pub mod InRange
pub mod Layer
pub mod Total
pub mod Walk
pub mod Connect
pub mod Extend
pub mod Grow
pub mod Tests
unfoldable pub use Marks.*
unfoldable pub use Graph.*
unfoldable pub use Search.*
unfoldable pub use Insert.*
