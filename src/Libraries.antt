-- ===== src/Libraries.antt =====
-- The libraries and services that the program calls, as interfaces: records of operations, and
-- records of the documented laws that a theorem may assume of them.
pub mod Gorm
pub mod Redis
pub mod Json
pub mod Uuid
pub mod Slog
pub mod Amqp
