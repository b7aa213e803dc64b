-- ===== src/Temporal/Aggregation.antt =====
-- core/temporal/aggregation.go: candidates are grouped by state key and value, and each group is
-- summarized as a fact or as an unresolved fact.
mod Equality
mod Accumulators
mod Collecting
mod Summaries
pub mod Provenance
pub mod Measures
pub mod Counting
pub mod Keyed
pub mod Values
pub mod Resolved
pub mod GroupKeys
pub mod Reported
pub mod Iteration
unfoldable pub use Equality.*
unfoldable pub use Accumulators.*
unfoldable pub use Collecting.*
unfoldable pub use Summaries.*
