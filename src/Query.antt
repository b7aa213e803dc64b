-- ===== src/Query.antt =====
-- internal/query: the requests of temporal queries, and what is read for them.
pub mod Requests
pub mod Trimming
pub mod Canonical
pub mod Renormalized
pub mod Accepted
pub mod Snapshots
pub mod Authority
pub mod Authorities
pub mod Resolved
pub mod Qualified
pub mod Indexing
pub mod Indexed
pub mod Known
pub mod Cited
pub mod Projections
pub mod Payloads
pub mod Gaps
pub mod StateGaps
pub mod Material
pub mod Naming
pub mod Accounted
