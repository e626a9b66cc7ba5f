-- ===== src/Config.antt =====
-- crates/config: the value tree, the template language, placeholder resolution and field defaults.
pub mod Value
pub mod Template
pub mod Resolve
pub mod Reload
pub mod Slots
pub mod Defaults
pub mod Literals
pub mod Sources
