-- ===== src/Controller/Settled.antt =====
-- controllers: a reconciliation of what a reconciliation has left.
pub mod Writes
pub mod Fields
pub mod Uniform
pub mod Forms
pub mod Schema
pub mod Defaults
pub mod Middle
pub mod Selected
pub mod Fetching
pub mod Depending
pub mod Ending
pub mod Run
pub mod Whole
pub mod Again
pub mod Fixed
