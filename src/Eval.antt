-- ===== src/Eval.antt =====
-- Package eval: the metrics of a ranked retrieval (eval/metrics.go).
pub mod Metrics
pub mod Ranked
pub mod Bounds
pub mod Tests
unfoldable pub use Metrics.*
