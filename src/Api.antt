-- ===== src/Api.antt =====
-- cmd/api/main.go: how the process is put together.
pub mod Wiring
pub mod Requests
pub mod Exchanges
pub mod Listing
pub mod Boot
pub mod Degraded
pub mod Pacing
pub mod Production
