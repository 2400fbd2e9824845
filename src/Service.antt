-- ===== src/Service.antt =====
-- internal/service: the task use cases over the repository, the cache and the publisher.
pub mod Defs
pub mod Creation
pub mod Claiming
pub mod Completion
pub mod Coherence
pub mod Invalidation
pub mod Caching
pub mod Reading
pub mod Races
pub mod Footprint
pub mod Paging
