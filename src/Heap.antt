-- ===== src/Heap.antt =====
-- The binary heaps of index/hnsw_heap.go, index/topheap.go and lexical/bm25.go. They differ in the
-- tests on two entries only, which are parameters here.
mod Defs
pub mod Array
pub mod Items
pub mod Order
pub mod Sift
pub mod Ops
pub mod Bounded
pub mod Exact
pub mod Merge
pub mod Tests
unfoldable pub use Defs.*
