-- ===== src/Tests/Interleaved.antt =====
-- A `Get` of the sample task with a `Delete` between its two halves.
use golang_staterpack.Prelude.{◌≡◌, refl, none, some, Result, ok}
use golang_staterpack.Errors.{Error}
use golang_staterpack.Model.{pending}
use golang_staterpack.Repository.Defs.{get_by_id, delete}
use golang_staterpack.Service.Defs.{key, cache_set, cache_ttl, invalidate}
use golang_staterpack.Service.Defs
use golang_staterpack.Service.Coherence.{public}
use golang_staterpack.Service.Races.{Pause, get_first, get_last, get-delete}
use golang_staterpack.Samples.Database.{row, first_row}
use golang_staterpack.Samples.Memory.{unary}
use golang_staterpack.Samples.Services.{service, world_with, task_at, Place, service-IsSound}

abbrev paused : Pause × Place
paused = get_first service 7 (world_with (some (task_at pending)))

abbrev deleted : Result Error (Unit {0}) × Place
deleted = Defs.delete service 7 paused.1

abbrev finished : Place
finished = (get_last service 7 (Pause.fills (task_at pending)) deleted.1).1

paused_run : paused.0 ≡ Pause.fills (task_at pending)
unfolding get_first get_by_id first_row unary
paused_run = refl

deleted_run : deleted.0 ≡ ok tt
unfolding get_first get_by_id first_row unary Defs.delete delete invalidate
deleted_run = refl

set_run : (service.cache.set (key service 7) "a task" cache_ttl deleted.1.cache).0 ≡ ok tt
unfolding get_first get_by_id first_row unary Defs.delete delete invalidate
set_run = refl

kept_run : (service.cache.get (key service 7) finished.cache).0 ≡ ok "a task"
unfolding get_first get_last cache_set get_by_id first_row unary Defs.delete delete invalidate
kept_run = refl

get-delete_example :
    (row finished.db 7 ≡ none) × ((Defs.get service 7 finished).0 ≡ ok (public (task_at pending)))
get-delete_example =
    get-delete service-IsSound 7 (world_with (some (task_at pending))) (task_at pending) "a task"
      "a task" paused_run deleted_run refl set_run kept_run
