-- ===== src/Patching.antt =====
-- The package util/patch.
pub mod Platform
pub mod Options
pub mod Copies
pub mod Retry
pub mod Helper
pub mod Laws
pub mod Rounds
pub mod Merging
pub mod Contention
pub mod Entries
pub mod Focus
pub mod Whole
pub mod Idle
pub mod Issued
pub mod Landing
pub mod Cluster
pub mod Samples
