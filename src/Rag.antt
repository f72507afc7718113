-- ===== src/Rag.antt =====
-- Package rag: the store of documents, and what is built around it.
pub mod Chunk
pub mod Store
pub mod Journal
pub mod Chunkers
pub mod Ingest
pub mod Mmr
