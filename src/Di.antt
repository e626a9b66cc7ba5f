-- ===== src/Di.antt =====
-- crates/di: the dependency-injection container.
pub mod Descriptors
pub mod Order
pub mod Grouping
pub mod Construction
pub mod Waits
pub mod Sorting
pub mod Validation
pub mod Scopes
pub mod Resolved
pub mod Registry
