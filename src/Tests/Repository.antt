-- ===== src/Tests/Repository.antt =====
-- Runs of the repository over the one-row database.
use golang_staterpack.Prelude.{◌+◌, ◌≤◌, ◌<◌, ◌∷◌, [], List, refl, none, some, ◌≡◌, ◌⊎◌}
use golang_staterpack.Model.{Task, pending}
use golang_staterpack.Repository.Defs.{task_repository, mark_processing, update_status}
use golang_staterpack.Repository.Contract.{IsContract}
use golang_staterpack.Repository.Refines.{task_repository-IsContract}
use golang_staterpack.Repository.Claims.{
  RepositoryCall, total_wins, total_offers, total_openings, after_all, pending_weight, wins, after,
}
use golang_staterpack.Repository.Histories.{removals, creations, savings, Keeps}
use golang_staterpack.Repository.Lasting.{rows_last}
use golang_staterpack.Repository.Races.{claims_bounded}
use golang_staterpack.Samples.Database.{one_row, row, one_row-IsTable, Store}
use golang_staterpack.Samples.Services.{world_with, task_at}

task_repository-IsContract_example : IsContract (task_repository one_row) row
task_repository-IsContract_example = task_repository-IsContract one_row row one_row-IsTable

-- Two claims, a reset and a third claim.
abbrev calls : List RepositoryCall
calls =
    RepositoryCall.marks_processing 7
    ∷ RepositoryCall.marks_processing 7
    ∷ RepositoryCall.updates_status 7 pending ""
    ∷ RepositoryCall.marks_processing 7
    ∷ []

abbrev start : Store
start = (world_with (some (task_at pending))).db

-- Of the three claims two are granted.
total_wins_run : total_wins (task_repository one_row) 7 calls start ≡ 2
unfolding total_wins wins after mark_processing update_status
total_wins_run = refl

claims_bounded_example :
    let r = task_repository one_row in
    (total_wins r 7 calls start + pending_weight (row (after_all r calls start) 7)
      ≤ pending_weight (row start 7) + total_openings r row 7 calls start)
    × (total_openings r row 7 calls start ≤ total_offers 7 calls)
claims_bounded_example = claims_bounded one_row row one_row-IsTable 7 calls start

rows_last_example :
    let d' = after_all (task_repository one_row) calls start in
    ((t : Task) × (row start 7 ≡ some t)
      × ((0 < removals 7 calls) ⊎ (0 < savings 7 calls) ⊎ Keeps t (row d' 7)))
    ⊎ (row start 7 ≡ none) × ((0 < creations 7 calls) ⊎ (0 < savings 7 calls) ⊎ (row d' 7 ≡ none))
rows_last_example = rows_last one_row row one_row-IsTable 7 calls start
