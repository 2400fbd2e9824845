-- ===== src/Api/Pacing.antt =====
-- The options of the reconciler, from a configuration that is valid.
use golang_staterpack.Prelude.{pos, ◌≤ℤ◌, ◌<ℤ◌, true, ◌≡◌, ok, arith}
use golang_staterpack.Model.{Duration}
use golang_staterpack.Config.Load.{Std, validate}
use golang_staterpack.Config.Defs.{Config}
use golang_staterpack.Reconciler.Defs.{with_defaults}
use golang_staterpack.Api.Wiring.{reconciler_options}

-- A configuration with this interval and grace period, and the reconciler on.
abbrev pub pace : {F : Type 0} → Duration → Duration → Config F → Config F
pace interval grace c = record c {
  reconciler = record (c.reconciler) { enabled = true; interval = interval; pending_grace = grace };
}

-- The check of a configuration does not prevent sweeps of tasks that are younger than the time
-- between two sweeps: in any configuration that passes, an interval that is not positive with a
-- grace period of less than a minute passes too, and the reconciler then takes a minute as its
-- interval, which is longer than the grace period.
pub unpaced_lem :
    {F : Type 0} (std : Std F) (c : Config F)
    → validate std c ≡ ok tt
    → (interval grace : Duration) → interval ≤ℤ pos 0
    → pos 0 <ℤ grace
    → grace <ℤ pos 60000000000
    → let c' = pace interval grace c in
      let o = with_defaults (reconciler_options c'.reconciler) in
      (validate std c' ≡ ok tt) × (o.pending_grace <ℤ o.interval)
unfolding validate with_defaults
unpaced_lem std c accepted interval grace none_set positive short = (ground arith, ground arith)
