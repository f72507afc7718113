-- ===== src/Hnsw/Tests.antt =====
-- Runs of the layered graph.
pub mod Line
pub mod Runs
