-- ===== src/Tests/System.antt =====
-- The program at work on a sample task: a request, a delivery of its event, a sweep and a page.
use golang_staterpack.Prelude.{ℕ, pos, ◌<◌, ◌≡◌, ◌⊎◌, List, [], ◌∷◌, none, some}
use golang_staterpack.Model.{Bytes, Task, pending}
use golang_staterpack.Repository.Histories.{Keeps}
use golang_staterpack.Repository.Traces.{Makes}
use golang_staterpack.Worker.Defs.{TaskSummarizer}
use golang_staterpack.Api.Wiring.{task_service, summarizer, reconciler_options}
use golang_staterpack.System.Defs.{Operation, shows, lists, delivers, sweeps, perform_all}
use golang_staterpack.System.Calls.{removal_count, post_count, perform_all-Makes}
use golang_staterpack.System.Lasting.{tasks_last}
use golang_staterpack.Samples.Database.{one_row, row, one_row-IsTable, Store}
use golang_staterpack.Samples.Memory.{Memory, memory}
use golang_staterpack.Samples.Services.{publisher, encoding, task_at, stamp}
use golang_staterpack.Samples.Settings.{shipped, provider}
use golang_staterpack.Samples.Workers.{Run, run_with}

abbrev process : TaskSummarizer Store Memory (List Bytes) ℕ
process = summarizer provider shipped (task_service one_row publisher memory encoding) memory

abbrev day : List Operation
day =
    shows 7
    ∷ delivers "now" "an event"
    ∷ sweeps (reconciler_options shipped.reconciler) (pos 10) (λ k. stamp)
    ∷ lists (pos 20) (pos 0)
    ∷ []

abbrev morning : Run
morning = run_with (some (task_at pending))

perform_all-Makes_example :
    Makes process.svc.repo
      (removal_count day)
      (post_count day)
      morning.world.db
      (perform_all process day morning).world.db
perform_all-Makes_example = perform_all-Makes process day morning

tasks_last_example :
    let d' = (perform_all process day morning).world.db in
    ((t : Task) × (row morning.world.db 7 ≡ some t)
      × ((0 < removal_count day 7) ⊎ Keeps t (row d' 7)))
    ⊎ (row morning.world.db 7 ≡ none) × ((0 < post_count day 7) ⊎ (row d' 7 ≡ none))
tasks_last_example =
    tasks_last provider shipped one_row publisher memory encoding row one_row-IsTable 7 day morning
