-- ===== src/Tests/Rescued.antt =====
-- The way of a stranded sample task from its rescue to its summary.
use golang_staterpack.Prelude.{pos, Bool, true, ◌≡◌, refl, inr, none, some, Result, ok, arith}
use golang_staterpack.Errors.{Error}
use golang_staterpack.Model.{Time, processing, completed}
use golang_staterpack.Event.{new}
use golang_staterpack.Repository.Contract.{restatus}
use golang_staterpack.Repository.Defs.{get_by_id, update_status, mark_processing}
use golang_staterpack.Broker.Dedupe
use golang_staterpack.Service.Defs.{
  created_event, republish_created, mark_pending, begin_processing, apply_summary, invalidate,
  cache_set,
}
use golang_staterpack.Worker.Defs.{handle, claim_event}
use golang_staterpack.Worker.Rescued.{republish-completed}
use golang_staterpack.Samples.Database.{row, first_row}
use golang_staterpack.Samples.Memory.{unary}
use golang_staterpack.Samples.Services.{
  service, task_at, service-IsContract, stamp, world_with, Place, codecs-IsFaithful,
}
use golang_staterpack.Samples.Workers.{answering, worker, run_with, Run}

abbrev stranded : Place
stranded = world_with (some (task_at processing))

abbrev rescued : Result Error (Unit {0}) × Place
rescued = republish_created service stamp (task_at processing) stranded

rescued_run : rescued.0 ≡ ok tt
unfolding republish_created mark_pending update_status invalidate new unary
rescued_run = refl

event_run : created_event service stamp (task_at processing) ≡ ok "an event"
unfolding new
event_run = refl

-- The process that the event reaches, over the rows that the rescue has left.
abbrev arrived : Run
arrived = record (run_with none) { world = record (rescued.1) { cache = (world_with none).cache } }

abbrev begun : Bool × Run
begun = claim_event (worker answering) (worker answering).dedupe "now" "e1" arrived

abbrev claimed : Result Error Bool × Place
claimed = begin_processing service 7 begun.1.world

claim_run : begun.0 ≡ true
unfolding claim_event Dedupe.claim
claim_run = refl

begun_run : claimed.0 ≡ ok true
unfolding republish_created mark_pending update_status invalidate new unary claim_event Dedupe.claim
    begin_processing mark_processing
begun_run = refl

applied_run : (apply_summary service 7 "short" claimed.1).0 ≡ ok tt
unfolding republish_created mark_pending update_status invalidate new unary claim_event Dedupe.claim
    begin_processing mark_processing apply_summary get_by_id first_row cache_set
applied_run = refl

republish-completed_example :
    let r = handle (worker answering) "now" "an event" arrived in
    (r.0 ≡ ok tt)
    × ((at : Time) × (row r.1.world.db 7
          ≡ some (restatus completed "short" at (task_at processing))))
republish-completed_example =
    republish-completed (worker answering) row service-IsContract (λ raw. raw) codecs-IsFaithful
      stamp (task_at processing) (pos 8) (pos 8) stranded "an event" refl (inr (refl, omega arith))
      rescued_run event_run "now" arrived true "short" refl claim_run begun_run refl applied_run
