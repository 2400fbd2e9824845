-- ===== src/Worker/Retries.antt =====
-- What a failed delivery leaves for its retry.
use golang_staterpack.Prelude.{
  str_eq-of_ne, String, true, false, ◌≡◌, refl, sym, ap, ◌∙◌, ◌≢◌, Option, some, ok, err, arith,
}
use golang_staterpack.Errors.{Error, not_found, is}
use golang_staterpack.Model.{Uuid, Time, Task, Bytes, pending}
use golang_staterpack.Event.{Envelope, TaskCreatedPayload}
use golang_staterpack.Repository.Contract.{IsContract, claim}
use golang_staterpack.Service.Defs.{TaskService, World, begin_processing, mark_pending}
use golang_staterpack.Service.Claiming.{begin_processing_inv, row-mark_pending}
use golang_staterpack.Broker.Dedupe
use golang_staterpack.Broker.Dedupe.{Dedupe, marker_key, won}
use golang_staterpack.Worker.Outcomes.{IsEvent, handle_created, claimed_first, claim_event_frame}
use golang_staterpack.Worker.Summaries.{give_back_lem, unmarked, asked, process_won, claimed_row}
use golang_staterpack.Worker.Defs.{
  TaskSummarizer, Process, handle, claim_event, after_claim, text_of, named, after_summary,
}

given_back :
    (at now : Time) (u : Task)
    → u.status ≡ pending
    → record (claim at u) { status = pending; updated_at = now } ≡ record u { updated_at = now }
given_back at now u e = ground arith

module _ {D C B L : Type 0} (w : TaskSummarizer D C B L) (now : String) (body : Bytes)
    (env : Envelope) (p : TaskCreatedPayload) (row : D → Uuid → Option Task)
    (contract : IsContract w.svc.repo row) where
  run_model_failed :
      IsEvent w body env p
      → (q : Process D C B L) (x : Error)
      → let q₁ = (claimed_first w now body env p q).1 in
        let q₂ = asked w p q₁ in
        (claimed_first w now body env p q).0 ≡ true
        → (begin_processing w.svc p.task_id q₁.world).0 ≡ ok true
        → (w.llm.summarize (text_of p) q₁.llm).0 ≡ err x
        → handle w now body q ≡ (
          err (named w "summarize task " p.task_id x),
          record q₂ { world = (mark_pending w.svc p.task_id (unmarked w env.id q₂)).1 },
        )
  unfolding after_summary
  run_model_failed event q x first won failed =
      let q₁ = (claimed_first w now body env p q).1 in
      rw (handle_created w now body env p event q, first)
        (rw (process_won w now body env p row contract q₁ won, failed)
          (give_back_lem w env.id p.task_id (named w "summarize task " p.task_id x) (asked w p q₁)))

-- When the model fails on a claimed task and the database takes the reset, the handler returns an
-- error, so that the broker retries, and the task is pending again: its row is what it was but for
-- `updated_at`.
pub handle-model_failed :
    {D C B L : Type 0} (w : TaskSummarizer D C B L) (row : D → Uuid → Option Task)
    → IsContract w.svc.repo row
    → (now : String) (body : Bytes) (env : Envelope) (p : TaskCreatedPayload) → IsEvent w body env p
    → (q : Process D C B L) (x : Error)
    → let q₁ = (claimed_first w now body env p q).1 in
      let q₂ = asked w p q₁ in
      (claimed_first w now body env p q).0 ≡ true
      → (begin_processing w.svc p.task_id q₁.world).0 ≡ ok true
      → (w.llm.summarize (text_of p) q₁.llm).0 ≡ err x
      → (mark_pending w.svc p.task_id (unmarked w env.id q₂)).0 ≡ ok tt
      → ((handle w now body q).0 ≡ err (named w "summarize task " p.task_id x))
        × ((u : Task) × (row q.world.db p.task_id ≡ some u)
            × (u.status ≡ pending)
            × ((at : Time) × (row (handle w now body q).1.world.db p.task_id
                  ≡ some (record u { updated_at = at }))))
handle-model_failed w row contract now body env p event q x first won failed reset =
    let q₁ = (claimed_first w now body env p q).1 in
    let q₂ = asked w p q₁ in
    let (db, _, _) = claim_event_frame w now body env p q in
    let run = run_model_failed w now body env p row contract event q x first won failed in
    let (u, held, waiting, (at, taken)) = claimed_row w now body env p row contract q₁.world won in
    let (done, after) =
      row-mark_pending w.svc row contract p.task_id (unmarked w env.id q₂) (claim at u) taken
        reset in
    (
      rw run,
      (u, rw (← db) held, waiting, (done, rw run (after ∙ ap some (given_back at done u waiting)))),
    )

module _ {D C B L : Type 0} (w : TaskSummarizer D C B L) (now : String) (body : Bytes)
    (env : Envelope) (p : TaskCreatedPayload) (dedupe : Dedupe C) where
  -- The guard's answer and the cache, where it is set and the event has an ID.
  claimed_first-set :
      w.dedupe ≡ some dedupe
      → env.id ≢ ""
      → (q : Process D C B L)
      → let r = dedupe.client.set_nx (marker_key env.id) now dedupe.ttl q.world.cache in
        claimed_first w now body env p q
        ≡ (won r.0, record q { world = record (q.world) { cache = r.1 } })
  unfolding claim_event Dedupe.claim
  claimed_first-set set known q = rw set (rw (str_eq-of_ne env.id "" known) refl)

begin_processing_cache :
    {D C B : Type 0} (s : TaskService D C B) (i : Uuid) (w : World D C B) (e : Error)
    → (begin_processing s i w).0 ≡ err e
    → (begin_processing s i w).1.cache ≡ w.cache
unfolding begin_processing
begin_processing_cache s i w e h = ground arith

after_claim-err :
    {D C B L : Type 0} (w : TaskSummarizer D C B L) (env : Envelope) (p : TaskCreatedPayload)
    (e : Error) (q : Process D C B L)
    → is e not_found ≡ false
    → after_claim w env p (err e) q ≡ (err (named w "claim task " p.task_id e), q)
unfolding after_claim
after_claim-err w env p e q known = rw known refl

-- When a claim fails in the database, the handler returns an error and the broker redelivers the
-- message, but the marker of the event is kept: as long as it lives, the redelivery is acknowledged
-- as a duplicate, and no row, no message and no call of the model follows.
pub handle-claim_failed :
    {D C B L : Type 0} (w : TaskSummarizer D C B L) (row : D → Uuid → Option Task)
    → IsContract w.svc.repo row
    → (now now' : String) (body : Bytes) (env : Envelope) (p : TaskCreatedPayload)
      (dedupe : Dedupe C) (q q' : Process D C B L) (e : Error)
    → IsEvent w body env p
    → w.dedupe ≡ some dedupe
    → env.id ≢ ""
    → let marked = dedupe.client.set_nx (marker_key env.id) now dedupe.ttl q.world.cache in
      let again = dedupe.client.set_nx (marker_key env.id) now' dedupe.ttl q'.world.cache in
      marked.0 ≡ ok true
      → (begin_processing w.svc p.task_id (record (q.world) { cache = marked.1 })).0 ≡ err e
      → again.0 ≡ ok false
      → ((handle w now body q).0 ≡ err (named w "claim task " p.task_id e))
        × ((handle w now body q).1.world.cache ≡ marked.1)
        × (handle w now' body q'
            ≡ (ok tt, record q' { world = record (q'.world) { cache = again.1 } }))
handle-claim_failed w row contract now now' body env p dedupe q q' e event set known marked failed
      again =
    let set_cache = dedupe.client.set_nx (marker_key env.id) now dedupe.ttl q.world.cache in
    let world = record (q.world) { cache = set_cache.1 } in
    let begun = begin_processing w.svc p.task_id world in
    let (result, _, _) = begin_processing_inv w.svc p.task_id world in
    let (kind, _) = contract.mark_processing_err p.task_id world.db e (sym result ∙ failed) in
    let run : handle w now body q
        ≡ (err (named w "claim task " p.task_id e), record q { world = begun.1 }) =
      rw (handle_created w now body env p event q) (
        rw (claimed_first-set w now body env p dedupe set known q, marked)
          (rw failed (after_claim-err w env p e (record q { world = begun.1 }) kind))) in
    (
      rw run,
      rw run (begin_processing_cache w.svc p.task_id world e failed),
      rw (handle_created w now' body env p event q')
          (rw (claimed_first-set w now' body env p dedupe set known q', again) refl),
    )
