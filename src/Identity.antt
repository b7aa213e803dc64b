-- ===== src/Identity.antt =====
-- core/identity: the values of identity authority, and the resolution of mentions.
pub mod Names
pub mod Values
pub mod Records
pub mod Ratios
pub mod Bounds
pub mod Resolver
pub mod Matches
pub mod Ranking
pub mod Listed
pub mod Orderings
