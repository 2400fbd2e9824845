-- ===== src/Worker.antt =====
-- internal/worker: the background consumer that has tasks summarised.
pub mod Defs
pub mod Outcomes
pub mod Summaries
pub mod Retries
pub mod Pipeline
pub mod Rescued
pub mod Footprint
pub mod Vanished
pub mod Registration
pub mod Redelivery
