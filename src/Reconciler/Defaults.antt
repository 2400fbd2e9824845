-- ===== src/Reconciler/Defaults.antt =====
-- The options that `New` completes.
use golang_staterpack.Prelude.{ℤ, pos, ◌<ℤ◌, ◌≡◌, refl, arith}
use golang_staterpack.Repository.Contract.{stale_limit}
use golang_staterpack.Reconciler.Defs.{Options, with_defaults, default_to}

default_to-positive : (d n : ℤ) → pos 0 <ℤ d → pos 0 <ℤ default_to d n
default_to-positive d n h = ground arith

default_to-kept : (d n : ℤ) → pos 0 <ℤ n → default_to d n ≡ n
default_to-kept d n h = ground arith

stale_limit-positive : (n : ℤ) → pos 0 <ℤ n → stale_limit n ≡ n
stale_limit-positive n h = ground arith

-- Every option of a reconciler is positive, so that its ticker can be made and its batch is the one
-- that the repository reads; completing the options again changes none of them.
pub with_defaults_lem :
    (o : Options)
    → let o' = with_defaults o in
      (pos 0 <ℤ o'.interval)
      × (pos 0 <ℤ o'.pending_grace)
      × (pos 0 <ℤ o'.processing_timeout)
      × (pos 0 <ℤ o'.batch_size)
      × (stale_limit o'.batch_size ≡ o'.batch_size)
      × (with_defaults o' ≡ o')
unfolding with_defaults
with_defaults_lem o =
    let a = default_to-positive (pos 60000000000) o.interval (omega arith) in
    let b = default_to-positive (pos 300000000000) o.pending_grace (omega arith) in
    let c = default_to-positive (pos 600000000000) o.processing_timeout (omega arith) in
    let d = default_to-positive (pos 100) o.batch_size (omega arith) in
    (
      a,
      b,
      c,
      d,
      stale_limit-positive (with_defaults o).batch_size d,
      rw
          (
            default_to-kept (pos 60000000000) _ a,
            default_to-kept (pos 300000000000) _ b,
            default_to-kept (pos 600000000000) _ c,
            default_to-kept (pos 100) _ d,
          )
          refl,
    )
