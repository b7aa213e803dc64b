-- ===== src/Observation.antt =====
-- core/observation: terms, temporal extents, confidence and the canonical observation.
pub mod Terms
pub mod Extents
pub mod Confidences
pub mod Claims
pub mod Links
pub mod Accepted
pub mod Digests
