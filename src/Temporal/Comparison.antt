-- ===== src/Temporal/Comparison.antt =====
-- core/temporal/comparison.go: the semantic difference of two window summaries.
mod Checks
mod Changes
pub mod Maps
pub mod Keys
pub mod Differences
unfoldable pub use Checks.*
unfoldable pub use Changes.*
