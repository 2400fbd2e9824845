-- ===== src/System.antt =====
-- The program as a whole: the requests, the deliveries and the sweeps of one process, one after the
-- other.
pub mod Defs
pub mod Calls
pub mod Lasting
