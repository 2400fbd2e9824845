-- ===== src/Reconciler/Rescue.antt =====
-- The bounds of a sweep and of the loop around it.
use golang_staterpack.Prelude.{
  ℕ, suc, ◌+◌, ◌≤◌, pos, ◌-ℤ◌, ◌≤ℤ◌, ◌≡◌, refl, ap, All, some, inl, inr, List, [], ◌∷◌, Option,
  Result, ok, err, Result-cases, arith, length,
}
use golang_staterpack.Errors.{Error}
use golang_staterpack.Model.{Uuid, Time, Task}
use golang_staterpack.Repository.Contract.{IsContract, IsStale, stale_limit}
use golang_staterpack.Service.Defs.{TaskService, World, Stamp, find_stale}
use golang_staterpack.Reconciler.Defs.{
  StaleTasks, stale_tasks, Options, rescue, sweep, tally, Signal, tick, done, run_from,
}

tally_bounds : (r : Result Error (Unit {0})) (n : ℕ) → (n ≤ tally r n) × (tally r n ≤ suc n)
tally_bounds (ok _) n = (omega arith, omega arith)
tally_bounds (err _) n = (omega arith, omega arith)

module _ {W : Type 0} (tasks : StaleTasks W) (stamps : ℕ → Stamp) where
  -- No more than the whole batch is counted.
  pub rescue-le :
      (k : ℕ) (ts : List Task) (n : ℕ) (w : W)
      → (n ≤ (rescue tasks stamps k ts n w).0) × ((rescue tasks stamps k ts n w).0 ≤ n + length ts)
  unfolding rescue
  rescue-le k [] n w = (omega arith, omega arith)
  rescue-le k (t ∷ ts) n w =
      let r = (tasks.republish_created (stamps k) t w).0 in
      let w' = (tasks.republish_created (stamps k) t w).1 in
      let (low, high) = tally_bounds r n in
      let (a, b) = rescue-le (suc k) ts (tally r n) w' in (omega arith, omega arith)

pub sweep_inv :
    {W : Type 0} (tasks : StaleTasks W) (o : Options) (now : Time) (stamps : ℕ → Stamp) (w : W)
    (n : ℕ)
    → (sweep tasks o now stamps w).0 ≡ ok n
    → let found =
        tasks.find_stale (now -ℤ o.pending_grace) (now -ℤ o.processing_timeout) o.batch_size w in
      (ts : List Task) × (found.0 ≡ ok ts)
      × (n ≡ (rescue tasks stamps 0 ts 0 found.1).0)
      × (sweep tasks o now stamps w ≡ (ok n, (rescue tasks stamps 0 ts 0 found.1).1))
unfolding sweep
sweep_inv tasks o now stamps w n h =
    let found =
      tasks.find_stale (now -ℤ o.pending_grace) (now -ℤ o.processing_timeout) o.batch_size w in
    elim (Result-cases found.0) [
      | inl (ts, e) ↦ (ts, e, ground arith, ground arith)
      | inr (x, e) ↦ absurd (ground arith)
    ]

-- One task after the other, each with the stamp of its place: the number of those that could be
-- republished, and the state in the end.
unfoldable pub each : {W : Type 0} → StaleTasks W → (ℕ → Stamp) → ℕ → List Task → W → ℕ × W
each tasks stamps k [] w = (0, w)
each tasks stamps k (t ∷ ts) w =
    let (r, w₁) = tasks.republish_created (stamps k) t w in
    let (n, w₂) = each tasks stamps (suc k) ts w₁ in (elim r [ ok _ ↦ suc n | err e ↦ n ], w₂)

rescue-each :
    {W : Type 0} (tasks : StaleTasks W) (stamps : ℕ → Stamp) (k : ℕ) (ts : List Task) (n : ℕ)
    (w : W)
    → ((rescue tasks stamps k ts n w).0 ≡ n + (each tasks stamps k ts w).0)
      × ((rescue tasks stamps k ts n w).1 ≡ (each tasks stamps k ts w).1)
unfolding rescue each
rescue-each tasks stamps k [] n w = (omega arith, refl)
rescue-each tasks stamps k (t ∷ ts) n w =
    let (r, w₁) = tasks.republish_created (stamps k) t w in
    let (count, state) = rescue-each tasks stamps (suc k) ts (tally r n) w₁ in
    (counted r n _ _ count, state)
  where
    counted :
        (r : Result Error (Unit {0})) (n m total : ℕ)
        → total ≡ tally r n + m
        → total ≡ n + elim r [ ok _ ↦ suc m | err e ↦ m ]
    counted (ok _) n m total h = omega arith
    counted (err _) n m total h = omega arith

-- A sweep that succeeds has found its tasks by one search of the database: all of them are stored and
-- stale at its time, and they are at most as many as the batch size (100 where the options leave it
-- at 0 or below). What it has done is to republish each of these tasks once, in their order, and
-- nothing else; the number that it reports counts those that could be.
pub sweep_bounded :
    {D C B : Type 0} (s : TaskService D C B) (row : D → Uuid → Option Task)
    → IsContract s.repo row
    → (o : Options) (now : Time) (stamps : ℕ → Stamp) (w : World D C B) (n : ℕ)
    → (sweep (stale_tasks s) o now stamps w).0 ≡ ok n
    → let search =
        s.repo.find_stale
          (now -ℤ o.pending_grace)
          (now -ℤ o.processing_timeout)
          o.batch_size
          w.db in
      let found = record w { db = search.1 } in
      (ts : List Task) × (search.0 ≡ ok ts)
      × (sweep (stale_tasks s) o now stamps w ≡ (ok n, (each (stale_tasks s) stamps 0 ts found).1))
      × (n ≡ (each (stale_tasks s) stamps 0 ts found).0)
      × All
          (λ t.
            (row w.db t.id ≡ some t)
            × IsStale (now -ℤ o.pending_grace) (now -ℤ o.processing_timeout) t)
          ts
      × (n ≤ length ts)
      × (pos (length ts) ≤ℤ stale_limit o.batch_size)
unfolding find_stale
sweep_bounded s row contract o now stamps w n h =
    let (ts, found, e, run) = sweep_inv (stale_tasks s) o now stamps w n h in
    let (stale, _, bound) =
      contract.find_stale_ok (now -ℤ o.pending_grace) (now -ℤ o.processing_timeout) o.batch_size
        w.db ts found in
    let start : World _ _ _ =
      (find_stale s (now -ℤ o.pending_grace) (now -ℤ o.processing_timeout) o.batch_size w).1 in
    let (_, high) = rescue-le (stale_tasks s) stamps 0 ts 0 start in
    let (count, state) = rescue-each (stale_tasks s) stamps 0 ts 0 start in
    (ts, found, rw (← state) run, omega arith, stale, omega arith, bound)

-- The ticks before the end.
unfoldable pub ticks : List Signal → ℕ
ticks [] = 0
ticks (done ∷ _) = 0
ticks (tick now stamps ∷ signals) = suc (ticks signals)

-- The reconciler sweeps once when it starts and once at each tick before it is stopped, whatever the
-- sweeps return: an error stops neither this loop nor a later sweep.
pub length-run_from :
    {W : Type 0} (tasks : StaleTasks W) (o : Options) (now : Time) (stamps : ℕ → Stamp)
    (signals : List Signal) (w : W)
    → length (run_from tasks o now stamps signals w).0 ≡ suc (ticks signals)
unfolding run_from ticks
length-run_from tasks o now stamps [] w = refl
length-run_from tasks o now stamps (done ∷ _) w = refl
length-run_from tasks o now stamps (tick now' stamps' ∷ signals) w =
    ap suc (length-run_from tasks o now' stamps' signals (sweep tasks o now stamps w).1)
