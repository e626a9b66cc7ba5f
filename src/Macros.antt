-- ===== src/Macros.antt =====
-- crates/macros-core: what the macros share.
pub mod Case
