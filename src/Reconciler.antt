-- ===== src/Reconciler.antt =====
-- internal/reconciler: the background sweep that rescues stranded tasks.
pub mod Defs
pub mod Rescue
pub mod Ready
pub mod Defaults
