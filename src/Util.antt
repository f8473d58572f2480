-- ===== src/Util.antt =====
-- The package util.
pub mod Requeue
pub mod Owners
pub mod OwnerLaws
pub mod Ordinal
pub mod Infrastructure
pub mod Listing
pub mod Unmarshal
pub mod Kube
pub mod Locations
pub mod Random
pub mod Nil
pub mod Samples
