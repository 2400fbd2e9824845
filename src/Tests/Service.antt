-- ===== src/Tests/Service.antt =====
-- Runs of the service over the one-row database and the cache in memory.
use golang_staterpack.Prelude.{Bool, Result, none, ok, pos, refl, some, true, ◌≡◌}
use golang_staterpack.Errors.{Error}
use golang_staterpack.Model.{Time, Task, pending, processing, completed, failed, before_create}
use golang_staterpack.Repository.Defs.{create, get_by_id, update_status, mark_processing}
use golang_staterpack.Libraries.Gorm.{IsRetimed}
use golang_staterpack.Repository.Contract.{is_pending}
use golang_staterpack.Event.{new}
use golang_staterpack.Service.Defs
use golang_staterpack.Service.Defs.{World, CreateTaskInput, created_event, validate}
use golang_staterpack.Service.Creation.{IsAcceptable, create_stores}
use golang_staterpack.Service.Claiming.{republish_reopens}
use golang_staterpack.Service.Caching.{get_agrees, get-mark_failed}
use golang_staterpack.Service.Coherence.{IsCoherent}
use golang_staterpack.Service.Invalidation.{Changes-IsCoherent, Changes}
use golang_staterpack.Samples.Database.{row, insert_row, first_row}
use golang_staterpack.Samples.Memory.{entry, unary}
use golang_staterpack.Samples.Services.{
  service, world_with, task_at, request, stamp, Place, service-IsContract, service-IsSound,
  empty-IsCoherent, closed_publisher,
}

abbrev created : Task
created = record (task_at pending) { created_at = pos 9; updated_at = pos 9 }

abbrev creation : Result Error Task × Place
creation = Defs.create service 7 stamp request (world_with none)

create_run : creation.0 ≡ ok created
unfolding Defs.create create insert_row before_create validate new
create_run = refl

-- With a broker that is closed.
abbrev unsent : Result Error Task × Place
unsent =
    Defs.create (record service { publisher = closed_publisher }) 7 stamp request (world_with none)

create_stores_example :
    (row (world_with none).db 7 ≡ none)
    × ((stored : Task) × IsRetimed created stored × (row creation.1.db 7 ≡ some stored))
    × (created.id ≡ 7)
    × (created.status ≡ pending)
    × (created.title ≡ request.title)
    × (created.description ≡ request.description)
    × (created.summary ≡ "")
    × IsAcceptable request
    × (creation.1.cache ≡ (world_with none).cache)
    × (unsent.0 ≡ ok created)
    × (unsent.1.db ≡ creation.1.db)
create_stores_example =
    create_stores service row service-IsContract 7 stamp request (world_with none) created
      closed_publisher create_run

abbrev waiting : Place
waiting = world_with (some (task_at pending))

abbrev begun : Result Error Bool × Place
begun = Defs.begin_processing service 7 waiting

begin_processing_run : begun.0 ≡ ok true
unfolding Defs.begin_processing mark_processing Defs.invalidate
begin_processing_run = refl

abbrev stranded : Place
stranded = world_with (some (task_at processing))

abbrev rescued : Result Error (Unit {0}) × Place
rescued = Defs.republish_created service stamp (task_at processing) stranded

rescued_run : rescued.0 ≡ ok tt
unfolding Defs.republish_created Defs.mark_pending update_status Defs.invalidate new unary
rescued_run = refl

abbrev reclaimed : Result Error Bool × Place
reclaimed = Defs.begin_processing service 7 rescued.1

reclaimed_run : reclaimed.0 ≡ ok true
unfolding Defs.republish_created Defs.mark_pending update_status Defs.invalidate new unary
    Defs.begin_processing mark_processing
reclaimed_run = refl

abbrev finished : Place
finished = world_with (some (task_at completed))

abbrev reopened : Result Error (Unit {0}) × Place
reopened = Defs.republish_created service stamp (task_at processing) finished

reopened_run : reopened.0 ≡ ok tt
unfolding Defs.republish_created Defs.mark_pending update_status Defs.invalidate new unary
reopened_run = refl

republish_reopens_example : is_pending (row reopened.1.db 7) ≡ true
republish_reopens_example =
    republish_reopens service row service-IsContract stamp (task_at processing) (task_at completed)
      finished refl refl refl reopened_run

-- The second `Get` is answered by the cache.
abbrev first_get : Result Error Task × Place
first_get = Defs.get service 7 waiting

abbrev second_get : Result Error Task × Place
second_get = Defs.get service 7 first_get.1

first_get_run : first_get.0 ≡ ok (task_at pending)
unfolding Defs.get get_by_id first_row Defs.cache_set unary
first_get_run = refl

second_get_run : second_get.0 ≡ ok (task_at pending)
unfolding Defs.get get_by_id first_row Defs.cache_set unary
second_get_run = refl

first_get-IsCoherent : IsCoherent service row entry first_get.1
first_get-IsCoherent =
    (get_agrees service-IsSound 7 waiting (task_at pending)
      (empty-IsCoherent (some (task_at pending))) first_get_run).1

-- A claim of the task that the cache holds.
abbrev claimed_cached : Result Error Bool × Place
claimed_cached = Defs.begin_processing service 7 first_get.1

claimed_cached_run : claimed_cached.0 ≡ ok true
unfolding Defs.get get_by_id first_row Defs.cache_set unary Defs.begin_processing mark_processing
    Defs.invalidate
claimed_cached_run = refl

dropped_run : (service.cache.del (Defs.key service 7) first_get.1.cache).0 ≡ ok tt
unfolding Defs.get get_by_id first_row Defs.cache_set unary
dropped_run = refl

Changes-IsCoherent_example : IsCoherent service row entry claimed_cached.1
Changes-IsCoherent_example =
    Changes-IsCoherent service-IsSound 7 first_get.1 claimed_cached.1 first_get-IsCoherent
      dropped_run (Changes.begins true claimed_cached_run)

abbrev marked_failed : Result Error (Unit {0}) × Place
marked_failed = Defs.mark_failed service 7 first_get.1

marked_failed_run : marked_failed.0 ≡ ok tt
unfolding Defs.get get_by_id first_row Defs.cache_set unary Defs.mark_failed update_status
marked_failed_run = refl

cached_run : (service.cache.get (Defs.key service 7) first_get.1.cache).0 ≡ ok "a task"
unfolding Defs.get get_by_id first_row Defs.cache_set unary
cached_run = refl

row_run : row first_get.1.db 7 ≡ some (task_at pending)
unfolding Defs.get get_by_id first_row Defs.cache_set unary
row_run = refl

get-mark_failed_example :
    ((Defs.get service 7 marked_failed.1).0 ≡ ok (task_at pending))
    × ((now : Time) × (row marked_failed.1.db 7
          ≡ some (record (task_at pending) { status = failed; updated_at = now })))
get-mark_failed_example =
    get-mark_failed service row service-IsContract 7 first_get.1 "a task" (task_at pending)
      (task_at pending) cached_run refl row_run marked_failed_run
