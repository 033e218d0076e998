-- ===== src/Core.antt =====
-- crates/bitfold-core: the shared byte buffers and the configuration, and the clock of the standard library.
pub mod Shared
pub mod Config
pub mod Time
pub mod Float
pub mod Word
pub mod Error
