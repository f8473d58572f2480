-- ===== src/Conditions.antt =====
-- The package util/conditions.
pub mod Sprintf
pub mod Getter
pub mod Setter
pub mod Lookup
pub mod Order
pub mod Canonical
pub mod Groups
pub mod Strategies
pub mod Merge
pub mod Summary
pub mod Patch
pub mod States
pub mod ThreeWay
pub mod Difference
pub mod Distinctness
pub mod Conflicts
pub mod Alike
pub mod Reapplied
pub mod Unopposed
pub mod Ownership
pub mod GroupTests
pub mod Priority
pub mod Outcomes
pub mod Samples
pub mod Ordering
pub mod Ready
pub mod Marked
pub mod Matcher
pub mod Unstructured
pub mod WrapperSamples
