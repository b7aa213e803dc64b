-- ===== src/Tests.antt =====
-- Small inputs, what the program does on them, and the theorems at these inputs.
pub mod Samples
mod Runs
mod Witnesses
mod Citations
mod Resolutions
mod Queries
