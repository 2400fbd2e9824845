-- ===== src/Tests/Worker.antt =====
-- Runs of the worker over the sample service.
use golang_staterpack.Prelude.{
  ℕ, pos, Bool, true, false, ◌≡◌, refl, ◌⊎◌, none, some, Result, ok, err,
}
use golang_staterpack.Errors.{Error, Fault}
use golang_staterpack.Model.{Time, Task, pending, completed}
use golang_staterpack.Libraries.Gorm.{Same}
use golang_staterpack.Repository.Defs.{get_by_id, update_status, mark_processing}
use golang_staterpack.Broker.Dedupe
use golang_staterpack.Broker.Dedupe.{marker_key}
use golang_staterpack.Service.Defs.{
  mark_pending, begin_processing, invalidate, apply_summary, cache_set,
}
use golang_staterpack.Worker.Defs.{handle, claim_event, named, after_summary}
use golang_staterpack.Llm.Defs.{Client}
use golang_staterpack.Worker.Outcomes.{claimed_first}
use golang_staterpack.Worker.Summaries.{IsCompleted, handle-acknowledged, asked, unmarked}
use golang_staterpack.Worker.Vanished.{after_summary-acknowledged}
use golang_staterpack.Repository.Contract.{restatus}
use golang_staterpack.Worker.Retries.{handle-model_failed, handle-claim_failed}
use golang_staterpack.Samples.Database.{row, first_row}
use golang_staterpack.Samples.Memory.{Memory, memory, unary}
use golang_staterpack.Samples.Services.{service-IsContract, envelope, payload, task_at, Place}
use golang_staterpack.Samples.Workers.{
  answering, overloaded, dedupe, worker, run_with, worker-IsEvent, Run, known_id,
}

abbrev handled : Client ℕ → Run → Result Error (Unit {0}) × Run
handled llm q = handle (worker llm) "now" "an event" q

abbrev fresh : Run
fresh = run_with (some (task_at pending))

-- A pending task is summarized and acknowledged, with one call of the model.
handled_run : ((handled answering fresh).0 ≡ ok tt) × ((handled answering fresh).1.llm ≡ 1)
unfolding handle Dedupe.claim begin_processing mark_processing invalidate unary apply_summary
    update_status get_by_id first_row cache_set
handled_run = (refl, refl)

handle-acknowledged_example :
    ((handled answering fresh).1.llm ≡ 0)
      × Same row fresh.world.db (handled answering fresh).1.world.db
    ⊎ IsCompleted (worker answering) row payload fresh (handled answering fresh).1
handle-acknowledged_example =
    handle-acknowledged (worker answering) row service-IsContract "now" "an event" envelope payload
      (worker-IsEvent answering) fresh handled_run.0

abbrev done : Run
done = run_with (some (task_at completed))

abbrev first_claim : Bool × Run
first_claim = claimed_first (worker overloaded) "now" "an event" envelope payload fresh

abbrev after_model : Run
after_model = asked (worker overloaded) payload first_claim.1

claimed_run : first_claim.0 ≡ true
unfolding claim_event Dedupe.claim
claimed_run = refl

begun_run : (begin_processing (worker overloaded).svc 7 first_claim.1.world).0 ≡ ok true
unfolding claim_event Dedupe.claim begin_processing mark_processing invalidate
begun_run = refl

model_run :
    ((worker overloaded).llm.summarize "write" first_claim.1.llm).0
    ≡ err (Error.external "overloaded")
model_run = refl

reset_run :
    (mark_pending (worker overloaded).svc 7 (unmarked (worker overloaded) "e1" after_model)).0
    ≡ ok tt
unfolding claim_event Dedupe.claim begin_processing mark_processing invalidate mark_pending
    update_status Dedupe.release unary
reset_run = refl

handle-model_failed_example :
    ((handled overloaded fresh).0
      ≡ err (named (worker overloaded) "summarize task " 7 (Error.external "overloaded")))
    × ((u : Task) × (row fresh.world.db 7 ≡ some u)
        × (u.status ≡ pending)
        × ((at : Time) × (row (handled overloaded fresh).1.world.db 7
              ≡ some (record u { updated_at = at }))))
handle-model_failed_example =
    handle-model_failed (worker overloaded) row service-IsContract "now" "an event" envelope payload
      (worker-IsEvent overloaded) fresh (Error.external "overloaded") claimed_run begun_run
      model_run reset_run

-- The database is down for the first delivery and up again for the second.
abbrev outage : Run
outage = record fresh {
  world = record (fresh.world) {
    db = record { up = false; held = some (task_at pending); clock = pos 9 };
  };
}

abbrev marked : Result Fault Bool × Memory
marked = memory.set_nx (marker_key "e1") "now" (pos 1000) outage.world.cache

abbrev later : Run
later = record fresh { world = record (fresh.world) { cache = marked.1 } }

abbrev again : Result Fault Bool × Memory
again = memory.set_nx (marker_key "e1") "later" (pos 1000) later.world.cache

abbrev unclaimed : Result Error Bool × Place
unclaimed = begin_processing (worker answering).svc 7 (record (outage.world) { cache = marked.1 })

abbrev refusal : Error
refusal = Error.wrap "mark processing" (Error.external "connection refused")

unclaimed_run : unclaimed.0 ≡ err refusal
unfolding begin_processing mark_processing
unclaimed_run = refl

again_run : again.0 ≡ ok false
again_run = refl

handle-claim_failed_example :
    ((handled answering outage).0 ≡ err (named (worker answering) "claim task " 7 refusal))
    × ((handled answering outage).1.world.cache ≡ marked.1)
    × (handle (worker answering) "later" "an event" later
        ≡ (ok tt, record later { world = record (later.world) { cache = again.1 } }))
handle-claim_failed_example =
    handle-claim_failed (worker answering) row service-IsContract "now" "later" "an event" envelope
      payload dedupe outage later refusal (worker-IsEvent answering) refl known_id refl
      unclaimed_run again_run

-- The model has answered, and the task has been deleted in the meantime.
after_summary_run :
    (after_summary (worker answering) envelope payload (ok "short") (run_with none)).0 ≡ ok tt
unfolding after_summary apply_summary update_status
after_summary_run = refl

after_summary-acknowledged_example :
    let q = run_with none in
    let q' = (after_summary (worker answering) envelope payload (ok "short") q).1 in
    (q'.llm ≡ 0)
    × (((t : Task) × (at : Time) × (row q.world.db 7 ≡ some t)
          × (row q'.world.db 7 ≡ some (restatus completed "short" at t)))
        ⊎ (row q.world.db 7 ≡ none) × Same row q.world.db q'.world.db)
after_summary-acknowledged_example =
    after_summary-acknowledged (worker answering) row service-IsContract envelope payload "short"
      (run_with none) after_summary_run
