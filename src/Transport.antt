-- ===== src/Transport.antt =====
-- internal/transport/http: the handlers, the error handler, the rate limiter and the router.
pub mod Defs
pub mod Limits
pub mod Answers
pub mod Reads
pub mod Router
pub mod Admission
