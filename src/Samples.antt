-- ===== src/Samples.antt =====
-- Concrete parameters at which the theorems are applied: small models of the external systems.
pub mod Database
pub mod Memory
pub mod Services
pub mod Workers
pub mod Broker
pub mod Settings
