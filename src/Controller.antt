-- ===== src/Controller.antt =====
-- The package controllers.
pub mod External
pub mod Context
pub mod Schema
pub mod Target
pub mod Templating
pub mod Dependencies
pub mod Output
pub mod Reconcile
pub mod Steps
pub mod Keeps
pub mod Guarantees
pub mod Failures
pub mod Validation
pub mod Constraints
pub mod Simulated
pub mod Samples
pub mod RequestSamples
pub mod Request
pub mod Recorded
pub mod Limits
pub mod Watch
pub mod Settled
pub mod Stuck
