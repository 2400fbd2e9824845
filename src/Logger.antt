-- ===== src/Logger.antt =====
-- internal/logger: the structured logger and its way through contexts.
pub mod Defs
pub mod Carried
