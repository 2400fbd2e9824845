-- ===== src/Worker/Footprint.antt =====
-- The database before and after a delivery, whatever becomes of it.
use golang_staterpack.Prelude.{
  String, Bool, true, false, ◌≡◌, refl, sym, Option, none, some, Result, ok, err, Call, attempt,
  pure, fail, ◌>>◌, subst, Steps, Steps-even, Steps->>=, Steps-if, Steps-attempt, if◌then◌else◌,
  str_eq, arith, ◌>>=◌,
}
use golang_staterpack.Errors.{Error, not_found, is}
use golang_staterpack.Model.{Uuid, Bytes}
use golang_staterpack.Event.{Envelope, TaskCreatedPayload, routing_task_created}
use golang_staterpack.Repository.Footprint.{IsFootprint}
use golang_staterpack.Service.Defs.{begin_processing, mark_pending, apply_summary, logged}
use golang_staterpack.Service.Footprint.{
  begin_processing-Followed, mark_pending-Followed, apply_summary-Followed,
}
use golang_staterpack.Worker.Defs.{
  TaskSummarizer, Process, handle, handle_event, dispatch, summarize_task, claim_event,
  release_event, give_back, after_apply, after_summary, after_claim, on_world, on_llm, decode_json,
  text_of, named,
}

-- The task that a delivery names, if it is a `task.created` event.
abbrev pub id_of : Result Error TaskCreatedPayload → Option Uuid
id_of (ok p) = some p.task_id
id_of (err e) = none

module _ {D C B L : Type 0} (w : TaskSummarizer D C B L) where
  abbrev pub task_of : Result Error Envelope → Option Uuid
  task_of (ok env) =
      if str_eq env.type routing_task_created
      then id_of (decode_json w.svc.encoding.payloads env.payload)
      else none
  task_of (err e) = none

  unfoldable pub named_task : Bytes → Option Uuid
  named_task body = task_of (decode_json w.svc.encoding.envelopes body)

module _ {D C B L : Type 0} (w : TaskSummarizer D C B L) (R : Option Uuid → D → D → Type 0)
    (foot : IsFootprint w.svc.repo R) (n : Option Uuid) where
  abbrev watched : Process D C B L → D
  watched q = q.world.db

  abbrev Followed : {A : Type 0} → Call (Process D C B L) Error A → Type 0
  Followed m = Steps watched (R n) m

  still :
      {A : Type 0} (m : Call (Process D C B L) Error A)
      → ((q : Process D C B L) → (m q).1.world.db ≡ q.world.db)
      → Followed m
  still m even = Steps-even watched _ (foot.history n) m even

  chained :
      {A A' : Type 0} (m : Call (Process D C B L) Error A) (f : A → Call (Process D C B L) Error A')
      → Followed m
      → ((a : A) → Followed (f a))
      → Followed (m >>= f)
  chained m f first rest = Steps->>= watched _ (foot.history n) m f first rest

  tried :
      {A A' : Type 0} (m : Call (Process D C B L) Error A)
      (f : Result Error A → Call (Process D C B L) Error A')
      → Followed m
      → ((r : Result Error A) → Followed (f r))
      → Followed (attempt m f)
  tried m f first rest = Steps-attempt watched _ (foot.history n) m f first rest

  chosen :
      {A : Type 0} (b : Bool) (m m' : Call (Process D C B L) Error A)
      → Followed m
      → Followed m'
      → Followed (if b then m else m')
  chosen b m m' = Steps-if watched _ (foot.history n) b m m'

  release_event-Followed : (event_id : String) → Followed (release_event w w.dedupe event_id)
  unfolding release_event
  release_event-Followed event_id = still (release_event w w.dedupe event_id) (λ q. ground arith)

module _ {D C B L : Type 0} (w : TaskSummarizer D C B L) (R : Option Uuid → D → D → Type 0)
    (foot : IsFootprint w.svc.repo R) (env : Envelope) (p : TaskCreatedPayload) where
  abbrev n : Option Uuid
  n = some p.task_id

  abbrev On : {A : Type 0} → Call (Process D C B L) Error A → Type 0
  On m = Followed w R foot n m

  reset : Call (Process D C B L) Error (Unit {0})
  reset = on_world (logged (mark_pending w.svc p.task_id))

  give_back-Followed : (e : Error) → On (give_back w env.id p.task_id e)
  unfolding give_back reset
  give_back-Followed e =
      chained w R foot n (release_event w w.dedupe env.id) (λ _. reset >> fail e)
        (release_event-Followed w R foot n env.id)
        (λ _.
          chained w R foot n {A' = Unit {0}} reset (λ _. fail e)
            (λ q. mark_pending-Followed w.svc R foot p.task_id q.world)
            (λ _. still w R foot n {A = Unit {0}} (fail e) (λ q. refl)))

  after_apply-Followed : (r : Result Error (Unit {0})) → On (after_apply w env p r)
  unfolding after_apply
  after_apply-Followed (ok tt) = still w R foot n (pure tt) (λ q. refl)
  after_apply-Followed (err e) =
      chosen w R foot n (is e not_found) (pure tt)
        (give_back w env.id p.task_id (named w "apply summary for " p.task_id e))
        (still w R foot n (pure tt) (λ q. refl)) (give_back-Followed _)

  after_summary-Followed : (r : Result Error String) → On (after_summary w env p r)
  unfolding after_summary
  after_summary-Followed (err e) = give_back-Followed (named w "summarize task " p.task_id e)
  after_summary-Followed (ok summary) =
      tried w R foot n (on_world (apply_summary w.svc p.task_id summary)) (after_apply w env p)
        (λ q. apply_summary-Followed w.svc R foot p.task_id summary q.world) after_apply-Followed

  after_claim-Followed : (r : Result Error Bool) → On (after_claim w env p r)
  unfolding after_claim
  after_claim-Followed (err e) =
      chosen w R foot n (is e not_found) (pure tt) (fail (named w "claim task " p.task_id e))
        (still w R foot n (pure tt) (λ q. refl))
        (still w R foot n {A = Unit {0}} (fail (named w "claim task " p.task_id e)) (λ q. refl))
  after_claim-Followed (ok false) = still w R foot n (pure tt) (λ q. refl)
  after_claim-Followed (ok true) =
      tried w R foot n (on_llm (w.llm.summarize (text_of p))) (after_summary w env p)
        (still w R foot n (on_llm (w.llm.summarize (text_of p))) (λ q. refl)) after_summary-Followed

module _ {D C B L : Type 0} (w : TaskSummarizer D C B L) (R : Option Uuid → D → D → Type 0)
    (foot : IsFootprint w.svc.repo R) where
  summarize_task-Followed :
      (env : Envelope) (r : Result Error TaskCreatedPayload)
      → Followed w R foot (id_of r) (summarize_task w env r)
  unfolding summarize_task
  summarize_task-Followed env (err e) = still w R foot none (pure tt) (λ q. refl)
  summarize_task-Followed env (ok p) =
      tried w R foot (some p.task_id) (on_world (begin_processing w.svc p.task_id))
        (after_claim w env p) (λ q. begin_processing-Followed w.svc R foot p.task_id q.world)
        (after_claim-Followed w R foot env p)

  claim_event-db :
      (now event_id : String) (q : Process D C B L)
      → (claim_event w w.dedupe now event_id q).1.world.db ≡ q.world.db
  unfolding claim_event
  claim_event-db now event_id q = ground arith

  -- The two tests of an event.
  tested-Followed :
      (created claimed : Bool) (n : Option Uuid) (q q' : Process D C B L)
      (r : Result Error (Unit {0}) × Process D C B L)
      → q'.world.db ≡ q.world.db
      → R n q'.world.db r.1.world.db
      → R
          (if created then n else none)
          q.world.db
          (if created then (if claimed then r else (ok tt, q')) else (ok tt, q)).1.world.db
  tested-Followed true true n q q' r same h = subst (λ d. R n d r.1.world.db) same h
  tested-Followed true false n q q' r same h =
      subst (λ d. R n q.world.db d) (sym same) ((foot.history n).here q.world.db)
  tested-Followed false claimed n q q' r same h = (foot.history none).here q.world.db

  handle_event-Followed :
      (now : String) (env : Envelope) (q : Process D C B L)
      → R (task_of w (ok env)) q.world.db (handle_event w now env q).1.world.db
  unfolding handle_event
  handle_event-Followed now env q =
      let decoded = decode_json w.svc.encoding.payloads env.payload in
      let (claimed, q') = claim_event w w.dedupe now env.id q in
      tested-Followed (str_eq env.type routing_task_created) claimed (id_of decoded) q q'
        (summarize_task w env decoded q') (claim_event-db now env.id q)
        (summarize_task-Followed env decoded q')

  dispatch-Followed :
      (now : String) (r : Result Error Envelope) (q : Process D C B L)
      → R (task_of w r) q.world.db (dispatch w now r q).1.world.db
  unfolding dispatch
  dispatch-Followed now (err e) q = (foot.history none).here q.world.db
  dispatch-Followed now (ok env) q = handle_event-Followed now env q

  pub handle-Followed :
      (now : String) (body : Bytes) (q : Process D C B L)
      → R (named_task w body) q.world.db (handle w now body q).1.world.db
  unfolding handle named_task
  handle-Followed now body q = dispatch-Followed now (decode_json w.svc.encoding.envelopes body) q
