-- ===== src/Temporal/Trajectory.antt =====
-- core/temporal/trajectory.go: the transitions of resolved state within one window.
mod Steps
mod Build
pub mod Transitions
unfoldable pub use Steps.*
unfoldable pub use Build.*
