-- ===== src/Entity.antt =====
-- entity/entity.go: the knowledge graph of entities and relations, merged by canonical name.
-- A Go map is an association list, and a pointer `*Entity` is the canonical name under which the
-- entity is stored, which is its field Name. A weight, a float32 that counts, is a number.
-- Package strings and package unicode are the parameter `TextOps`.
pub mod Defs
pub mod Drop
pub mod Valid
pub mod Add
pub mod Prune
pub mod Distance
pub mod Edits
pub mod Rows
pub mod Names
pub mod Canonical
pub mod Heads
pub mod Merged
pub mod Keyed
pub mod Rewrite
pub mod Kept
pub mod Tests
unfoldable pub use Defs.*
