-- ===== src/Lexical.antt =====
-- Package lexical: the tokenizer and the inverted index (lexical/tokenize.go, lexical/bm25.go).
mod Defs
mod Rank
pub mod TopK
pub mod Matched
pub mod Batch
pub mod Postings
pub mod Fusion
pub mod Tests
unfoldable pub use Defs.*
unfoldable pub use Rank.*
