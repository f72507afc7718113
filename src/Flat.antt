-- ===== src/Flat.antt =====
-- Package index: the flat index over quantized codes (index/index.go).
mod Defs
pub mod Scan
pub mod Tests
unfoldable pub use Defs.*
