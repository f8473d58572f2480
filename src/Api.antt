-- ===== src/Api.antt =====
-- The API types of api/v1alpha1 that the operations read and write.
pub mod Condition
pub mod Config
