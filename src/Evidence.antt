-- ===== src/Evidence.antt =====
-- core/evidence: source evidence, document versions, citations of their text and the revisions of
-- a source.
pub mod Contents
pub mod Sections
pub mod Documents
pub mod Uniqueness
pub mod Spans
pub mod Slices
pub mod Quotes
pub mod Accepted
pub mod Retries
pub mod Revisions
