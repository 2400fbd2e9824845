-- ===== src/Tests/Event.antt =====
-- An event of the sample task, and the way of that task from its creation to its summary.
use golang_staterpack.Prelude.{pos, Bool, true, ◌≡◌, refl, none, some, Result, ok}
use golang_staterpack.Errors.{Error}
use golang_staterpack.Model.{Time, Task, pending, completed, before_create}
use golang_staterpack.Event.{new, routing_task_created}
use golang_staterpack.Libraries.Gorm.{IsRetimed}
use golang_staterpack.Repository.Contract.{restatus}
use golang_staterpack.Repository.Defs.{create, get_by_id, update_status, mark_processing}
use golang_staterpack.Broker.Dedupe
use golang_staterpack.Service.Defs
use golang_staterpack.Service.Defs.{
  validate, created_event, begin_processing, apply_summary, invalidate, cache_set,
}
use golang_staterpack.Worker.Defs.{handle, claim_event}
use golang_staterpack.Worker.Pipeline.{create-completed}
use golang_staterpack.Samples.Database.{row, first_row, insert_row}
use golang_staterpack.Samples.Memory.{unary}
use golang_staterpack.Samples.Services.{
  service, task_at, service-IsContract, request, stamp, world_with, Place, payload, payload_codec,
  envelope_codec, codecs-IsFaithful,
}
use golang_staterpack.Samples.Workers.{answering, worker, run_with, Run}

new_run : new payload_codec envelope_codec "e1" (pos 9) routing_task_created payload ≡ ok "an event"
unfolding new
new_run = refl

abbrev created : Result Error Task × Place
created = Defs.create service 7 stamp request (world_with none)

abbrev stored : Task
stored = record (task_at pending) { created_at = pos 9; updated_at = pos 9 }

created_run : created.0 ≡ ok stored
unfolding Defs.create create insert_row before_create validate new
created_run = refl

event_run : created_event service stamp stored ≡ ok "an event"
unfolding new
event_run = refl

-- The process that the event reaches, over the rows that `Create` has left.
abbrev arrived : Run
arrived = record (run_with none) { world = record (created.1) { cache = (world_with none).cache } }

abbrev begun : Bool × Run
begun = claim_event (worker answering) (worker answering).dedupe "now" "e1" arrived

abbrev claimed : Result Error Bool × Place
claimed = begin_processing service 7 begun.1.world

claim_run : begun.0 ≡ true
unfolding claim_event Dedupe.claim
claim_run = refl

begun_run : claimed.0 ≡ ok true
unfolding Defs.create create insert_row before_create validate new claim_event Dedupe.claim
    begin_processing mark_processing invalidate
begun_run = refl

applied_run : (apply_summary service 7 "short" claimed.1).0 ≡ ok tt
unfolding Defs.create create insert_row before_create validate new claim_event Dedupe.claim
    begin_processing mark_processing invalidate unary apply_summary update_status get_by_id
    first_row cache_set
applied_run = refl

create-completed_example :
    let r = handle (worker answering) "now" "an event" arrived in
    (r.0 ≡ ok tt)
    × ((at : Time) × (kept : Task) × IsRetimed stored kept
        × (row r.1.world.db 7 ≡ some (restatus completed "short" at kept)))
create-completed_example =
    create-completed (worker answering) row service-IsContract (λ raw. raw) codecs-IsFaithful 7
      stamp request (world_with none) stored "an event" created_run event_run "now" arrived true
      "short" refl claim_run begun_run refl applied_run
