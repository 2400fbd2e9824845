-- ===== src/Tests/Requests.antt =====
-- Requests to the sample service, and what the application shows of errors.
use golang_staterpack.Prelude.{
  pos, String, true, false, ◌≡◌, refl, ◌⊎◌, none, some, ok, err, ℕ, List, [], ◌∷◌,
}
use golang_staterpack.Errors.{Error, failure, message}
use golang_staterpack.Model.{Uuid, Task, pending, before_create}
use golang_staterpack.Event
use golang_staterpack.Libraries.Gorm.{Same, id_is, IsRetimed}
use golang_staterpack.Config.Defs.{is_production}
use golang_staterpack.Repository.Defs.{get_by_id}
use golang_staterpack.Repository.Defs as Repository
use golang_staterpack.Service.Defs.{cache_set, validate, invalidate}
use golang_staterpack.Service.Defs as Service
use golang_staterpack.Service.Coherence.{IsCoherent, public}
use golang_staterpack.Transport.Defs.{
  Request, Content, get_task, create_task, delete_task, list_tasks, reply, error_reply,
}
use golang_staterpack.Transport.Reads.{shown}
use golang_staterpack.Api.Wiring.{fiber_config}
use golang_staterpack.Api.Requests.{IsServed, get_task_lem}
use golang_staterpack.Api.Exchanges.{get_task-create_task, get_task-delete_task}
use golang_staterpack.Api.Listing.{listed, IsPage, list_tasks_lem}
use golang_staterpack.Api.Production.{fiber_config-hides}
use golang_staterpack.Samples.Database.{one_row, row, one_row-IsTable, first_row, insert_row}
use golang_staterpack.Samples.Memory.{memory, memory-IsCache, entry, unary, unary-IsUuids}
use golang_staterpack.Samples.Settings.{shipped}
use golang_staterpack.Samples.Services.{
  service, service-IsSound, publisher, encoding, world_with, task_at, request, stamp, Place,
  empty-IsCoherent,
}

served : IsServed one_row memory encoding row entry
served = record {
  table = one_row-IsTable;
  redis = memory-IsCache;
  uuids = unary-IsUuids;
  tasks = service-IsSound.tasks;
}

abbrev about : String → Request
about id = record { body = ok request; id = id; limit = none; offset = none }

abbrev seven : Request
seven = about (unary.string 7)

abbrev waiting : Place
waiting = world_with (some (task_at pending))

shown_run : shown false "r1" service seven waiting ≡ reply 200 (Content.task (task_at pending))
unfolding get_task Service.get get_by_id first_row cache_set unary
shown_run = refl

get_task_lem_example :
    let response = shown false "r1" service seven waiting in
    let w' = (get_task service seven waiting).1 in
    (unary.parse seven.id ≡ none) × (response.status ≡ 400) × (w' ≡ waiting)
    ⊎ ((i : Uuid) × (unary.parse seven.id ≡ some i)
        × (((t u : Task) × (response ≡ reply 200 (Content.task t))
              × (row waiting.db i ≡ some u)
              × (public t ≡ public u))
            ⊎ (response.status ≡ 404) × (row waiting.db i ≡ none)
            ⊎ (response.status ≡ 500)
              × ((text : String) × ((one_row.first (id_is i) waiting.db).0 ≡ err (failure text))))
        × Same row waiting.db w'.db
        × IsCoherent service row entry w')
get_task_lem_example =
    get_task_lem one_row publisher memory encoding row entry served false "r1" seven waiting
      (empty-IsCoherent (some (task_at pending)))

-- The task that the sample database stores for the request, at time 9.
abbrev posted : Task
posted = record (task_at pending) { created_at = pos 9; updated_at = pos 9 }

abbrev empty : Place
empty = world_with none

posted_run : (create_task service 7 stamp (about "") empty).0 ≡ ok (reply 201 (Content.task posted))
unfolding create_task Service.create validate Event.new Repository.create insert_row before_create
posted_run = refl

get_task-create_task_example :
    let w' = (create_task service 7 stamp (about "") empty).1 in
    let response = shown false "r1" service seven w' in
    ((u stored : Task) × (response ≡ reply 200 (Content.task u))
      × (public u ≡ public stored)
      × IsRetimed posted stored)
    ⊎ (response.status ≡ 500)
      × ((text : String) × ((one_row.first (id_is 7) w'.db).0 ≡ err (failure text)))
get_task-create_task_example =
    get_task-create_task one_row publisher memory encoding row entry served false "r1" 7 stamp
      (about "") seven empty posted (empty-IsCoherent none) posted_run refl

deleted_run : (delete_task service seven waiting).0 ≡ ok (reply 204 Content.empty)
unfolding delete_task Service.delete Repository.delete invalidate unary
deleted_run = refl

seven_run : unary.parse seven.id ≡ some 7
unfolding unary
seven_run = refl

get_task-delete_task_example :
    let w' = (delete_task service seven waiting).1 in
    let response = shown false "r1" service seven w' in
    (response.status ≡ 404)
    ⊎ (response.status ≡ 500)
      × ((text : String) × ((one_row.first (id_is 7) w'.db).0 ≡ err (failure text)))
get_task-delete_task_example =
    get_task-delete_task one_row publisher memory encoding row entry served false "r1" seven seven
      waiting 7 (empty-IsCoherent (some (task_at pending))) deleted_run refl seven_run refl

abbrev refusal : Error
refusal = Error.wrap "get task" (Error.external "password authentication failed")

abbrev timeout : Error
timeout = Error.external "timeout"

fiber_config-hides_example :
    let handler = (fiber_config shipped).error_handler "r1" in
    (is_production shipped.app ≡ true)
      × (handler refusal ≡ handler timeout)
      × ((handler refusal).status ≡ 500)
    ⊎ (is_production shipped.app ≡ false)
      × (handler refusal
          ≡ error_reply 500 "internal server error" "internal_error" (message refusal) "r1")
fiber_config-hides_example =
    fiber_config-hides shipped "r1" refusal timeout refl refl refl refl refl refl

abbrev page : Request
page = record { body = ok request; id = ""; limit = some (pos 1000); offset = none }

list_tasks_lem_example :
    let response = listed service false "r1" page waiting in
    let w' = (list_tasks service page waiting).1 in
    (((ts : List Task) × (total : ℕ) × (response
          ≡ reply 200 (Content.tasks ts total (pos 1000) (pos 0)))
        × IsPage row waiting.db page ts)
      ⊎ (response.status ≡ 500))
    × Same row waiting.db w'.db
    × (w'.cache ≡ waiting.cache)
    × (w'.broker ≡ waiting.broker)
list_tasks_lem_example =
    list_tasks_lem one_row publisher memory encoding row one_row-IsTable false "r1" page waiting

-- The page holds the one task, and shows the limit of the query.
list_tasks_run :
    listed service false "r1" page waiting
    ≡ reply 200 (Content.tasks (task_at pending ∷ []) 1 (pos 1000) (pos 0))
unfolding list_tasks Service.list Repository.list
list_tasks_run = refl
