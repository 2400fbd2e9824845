-- ===== src/Repository.antt =====
-- internal/repository: the interface of the task store, its implementation over GORM, the contract
-- of the interface, and the claims of tasks.
pub mod Defs
pub mod Contract
pub mod Rows
pub mod Reads
pub mod Writes
pub mod Creates
pub mod Refines
pub mod Effects
pub mod Claims
pub mod Histories
pub mod Lasting
pub mod Footprint
pub mod Traces
pub mod Races
