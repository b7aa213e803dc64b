-- ===== src/Temporal.antt =====
-- core/temporal: planning, aggregation, reconstruction, comparison and chronology of observations.
pub mod Terms
pub mod Plans
pub mod Eligibility
pub mod Aggregation
pub mod Comparison
pub mod Trajectory
pub mod Causal
