-- ===== src/Graph.antt =====
-- Package graph: the builder of the similarity graph and its communities (graph/graph.go,
-- graph/community.go).
mod Defs
mod Community
mod Rows
mod Propagate
pub mod Joined
pub mod Frozen
pub mod Compact
pub mod Tests
unfoldable pub use Defs.*
unfoldable pub use Community.*
unfoldable pub use Rows.*
unfoldable pub use Propagate.*
