-- ===== src/Tests/Reconciler.antt =====
-- Runs of the reconciler over the sample service.
use golang_staterpack.Prelude.{
  All, List, Result, [], arith, inr, length, ok, pos, refl, some, true, ℕ, ◌-ℤ◌, ◌∷◌, ◌≡◌, ◌≤ℤ◌,
  ◌≤◌,
}
use golang_staterpack.Errors.{Error}
use golang_staterpack.Model.{Task, processing}
use golang_staterpack.Repository.Defs.{update_status, find_stale}
use golang_staterpack.Repository.Contract.{IsStale, stale_limit, is_pending}
use golang_staterpack.Event.{new}
use golang_staterpack.Service.Defs
use golang_staterpack.Service.Defs.{Stamp}
use golang_staterpack.Reconciler.Defs.{Options, Signal, rescue, stale_tasks, sweep}
use golang_staterpack.Reconciler.Rescue.{each, sweep_bounded}
use golang_staterpack.Reconciler.Ready.{sweep_ready}
use golang_staterpack.Samples.Database.{row}
use golang_staterpack.Samples.Memory.{unary}
use golang_staterpack.Samples.Services.{
  service, world_with, task_at, stamp, Place, service-IsContract,
}

abbrev options : Options
options = record {
  interval = pos 1;
  pending_grace = pos 2;
  processing_timeout = pos 3;
  batch_size = pos 10;
}

abbrev stamps : ℕ → Stamp
stamps k = stamp

abbrev stranded : Place
stranded = world_with (some (task_at processing))

abbrev swept : Result Error ℕ × Place
swept = sweep (stale_tasks service) options (pos 9) stamps stranded

swept_run : swept.0 ≡ ok 1
unfolding sweep rescue Defs.find_stale find_stale Defs.republish_created Defs.mark_pending
    update_status Defs.invalidate new unary ◌-ℤ◌
swept_run = refl

sweep_bounded_example :
    let search =
      service.repo.find_stale
        (pos 9 -ℤ options.pending_grace)
        (pos 9 -ℤ options.processing_timeout)
        options.batch_size
        stranded.db in
    let found = record stranded { db = search.1 } in
    (ts : List Task) × (search.0 ≡ ok ts)
    × (sweep (stale_tasks service) options (pos 9) stamps stranded
        ≡ (ok 1, (each (stale_tasks service) stamps 0 ts found).1))
    × (1 ≡ (each (stale_tasks service) stamps 0 ts found).0)
    × All
        (λ t.
          (row stranded.db t.id ≡ some t)
          × IsStale (pos 9 -ℤ options.pending_grace) (pos 9 -ℤ options.processing_timeout) t)
        ts
    × (1 ≤ length ts)
    × (pos (length ts) ≤ℤ stale_limit options.batch_size)
sweep_bounded_example =
    sweep_bounded service row service-IsContract options (pos 9) stamps stranded 1 swept_run

abbrev signals : List Signal
signals = Signal.tick (pos 10) stamps ∷ Signal.done ∷ []

abbrev batch : List Task
batch = task_at processing ∷ []

found_run :
    (service.repo.find_stale
      (pos 9 -ℤ options.pending_grace)
      (pos 9 -ℤ options.processing_timeout)
      options.batch_size
      stranded.db).0
    ≡ ok batch
unfolding find_stale ◌-ℤ◌
found_run = refl

not_full : ¬ (stale_limit options.batch_size ≤ℤ pos (length batch))
not_full h = absurd (omega arith)

stranded-IsStale :
    IsStale
      (pos 9 -ℤ options.pending_grace)
      (pos 9 -ℤ options.processing_timeout)
      (task_at processing)
unfolding ◌-ℤ◌
stranded-IsStale = inr (refl, omega arith)

sweep_ready_example : is_pending (row swept.1.db 7) ≡ true
sweep_ready_example =
    sweep_ready service row service-IsContract options (pos 9) stamps stranded batch found_run
      not_full swept_run (task_at processing) refl stranded-IsStale
