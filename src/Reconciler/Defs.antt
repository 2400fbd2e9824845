-- ===== src/Reconciler/Defs.antt =====
-- internal/reconciler/reconciler.go: the sweep that republishes stranded tasks.
use golang_staterpack.Prelude.{
  ℕ, suc, ℤ, pos, ◌-ℤ◌, List, [], ◌∷◌, Result, ok, err, Call, if◌then◌else◌, leb_ℤ,
}
use golang_staterpack.Errors.{Error}
use golang_staterpack.Model.{Time, Duration, Task}
use golang_staterpack.Service.Defs.{World, TaskService, Stamp, find_stale, republish_created}

-- `StaleTasks`; `Stamp` is what the event of a republished task draws.
pub record StaleTasks (W : Type 0) : Type 0 where
  pub find_stale : Time → Time → ℤ → Call W Error (List Task)
  pub republish_created : Stamp → Task → Call W Error (Unit {0})

-- The service as the reconciler sees it.
abbrev pub stale_tasks : {D C B : Type 0} → TaskService D C B → StaleTasks (World D C B)
stale_tasks s = record { find_stale = find_stale s; republish_created = republish_created s }

pub record Options : Type 0 where
  pub interval : Duration
  pub pending_grace : Duration
  pub processing_timeout : Duration
  pub batch_size : ℤ

abbrev pub default_to : ℤ → ℤ → ℤ
default_to fallback n = if leb_ℤ n (pos 0) then fallback else n

-- `New`, less the clock, which every sweep takes as an argument.
unfoldable pub with_defaults : Options → Options
with_defaults o = record {
  interval = default_to (pos 60000000000) o.interval;
  pending_grace = default_to (pos 300000000000) o.pending_grace;
  processing_timeout = default_to (pos 600000000000) o.processing_timeout;
  batch_size = default_to (pos 100) o.batch_size;
}

abbrev pub tally : Result Error (Unit {0}) → ℕ → ℕ
tally (ok _) n = suc n
tally (err _) n = n

-- What `Run` waits for between two sweeps: the ticker or the end of the context.
pub data Signal : Type 0 where
  tick : Time → (ℕ → Stamp) → Signal
  done : Signal

-- What `OnSweep` is told.
abbrev pub reported : Result Error ℕ → ℕ
reported (ok n) = n
reported (err e) = 0

module _ {W : Type 0} (tasks : StaleTasks W) where
  -- The loop of `Sweep`: an error is logged and the batch goes on. `stamps k` is drawn for the
  -- k-th task of the batch. An empty batch gives 0, as the early return of `Sweep` does.
  unfoldable pub rescue : (ℕ → Stamp) → ℕ → List Task → ℕ → W → ℕ × W
  rescue stamps k [] rescued w = (rescued, w)
  rescue stamps k (t ∷ ts) rescued w =
      let (r, w') = tasks.republish_created (stamps k) t w in
      rescue stamps (suc k) ts (tally r rescued) w'

  swept : (ℕ → Stamp) → Result Error (List Task) → Call W Error ℕ
  unfolding rescue
  swept stamps (err e) w = (err e, w)
  swept stamps (ok ts) w = let (n, w') = rescue stamps 0 ts 0 w in (ok n, w')

  unfoldable pub sweep : Options → Time → (ℕ → Stamp) → Call W Error ℕ
  unfolding swept
  sweep o now stamps w =
      let (r, w') =
        tasks.find_stale (now -ℤ o.pending_grace) (now -ℤ o.processing_timeout) o.batch_size w in
      swept stamps r w'

  -- The loop of `Run` over the signals to come: a sweep, then a wait. It ends with the context, and
  -- here also with the list.
  unfoldable pub run_from : Options → Time → (ℕ → Stamp) → List Signal → W → List ℕ × W
  run_from o now stamps [] w = let (r, w') = sweep o now stamps w in (reported r ∷ [], w')
  run_from o now stamps (done ∷ _) w = let (r, w') = sweep o now stamps w in (reported r ∷ [], w')
  run_from o now stamps (tick now' stamps' ∷ signals) w =
      let (r, w') = sweep o now stamps w in
      let (rs, w'') = run_from o now' stamps' signals w' in (reported r ∷ rs, w'')
