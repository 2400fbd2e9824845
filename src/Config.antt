-- ===== src/Config.antt =====
-- internal/config: the settings, from the environment and an optional file.
pub mod Defs
pub mod Load
pub mod Valid
