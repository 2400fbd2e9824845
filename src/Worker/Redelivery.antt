-- ===== src/Worker/Redelivery.antt =====
-- Deliveries about tasks that nobody waits for any more.
use golang_staterpack.Prelude.{
  String, false, ◌≡◌, refl, ap, ◌∙◌, ◌⊎◌, inl, inr, List, [], ◌∷◌, ◌++◌, Option, none, some, Result,
  ok, err, Result-cases, All, All-map, eq_iff, arith,
}
use golang_staterpack.Errors.{Error}
use golang_staterpack.Model.{Uuid, Task, Bytes}
use golang_staterpack.Event.{Envelope, TaskCreatedPayload, routing_task_created}
use golang_staterpack.Libraries.Amqp.{Amqp, Context}
use golang_staterpack.Libraries.Gorm.{Same}
use golang_staterpack.Repository.Footprint.{Reworks, Reworks-IsFootprint}
use golang_staterpack.Repository.Contract.{IsContract, is_pending}
use golang_staterpack.Broker.Connection.{Broker, Consumer}
use golang_staterpack.Broker.Consumer.{Channel}
use golang_staterpack.Broker.Sessions.{Event, run}
use golang_staterpack.Broker.Streams.{bodies, handled}
use golang_staterpack.Worker.Defs.{
  TaskSummarizer, Process, handle, dispatch, handle_event, summarize_task, claim_event, decode_json,
}
use golang_staterpack.Worker.Outcomes.{IsEvent, handle-duplicate}
use golang_staterpack.Worker.Footprint.{named_task, task_of, handle-Followed}
use golang_staterpack.Worker.Registration.{register, registered_run}

module _ {D C B L : Type 0} (w : TaskSummarizer D C B L) where
  named_event :
      (body : Bytes) (j : Uuid)
      → named_task w body ≡ some j
      → (env : Envelope) × (p : TaskCreatedPayload) × IsEvent w body env p × (p.task_id ≡ j)
  unfolding named_task decode_json
  named_event body j h = elim (Result-cases (w.svc.encoding.envelopes.unmarshal body)) [
    | inr (e, q) ↦ absurd (ground arith)
    | inl (env, q) ↦ elim (Result-cases (w.svc.encoding.payloads.unmarshal env.payload)) [
      | inr (e, r) ↦ absurd (ground arith)
      | inl (p, r) ↦ (
        env,
        p,
        record {
          envelope = q;
          type = (eq_iff env.type routing_task_created).0 (ground arith);
          payload = r;
        },
        ground arith,
      )
    ]
  ]

  claim_event-llm :
      (now event_id : String) (q : Process D C B L)
      → (claim_event w w.dedupe now event_id q).1.llm ≡ q.llm
  unfolding claim_event
  claim_event-llm now event_id q = ground arith

  -- A body that names no task asks nothing of the model.
  dispatch-unnamed :
      (now : String) (r : Result Error Envelope) (q : Process D C B L)
      → task_of w r ≡ none
      → (dispatch w now r q).1.llm ≡ q.llm
  unfolding dispatch handle_event summarize_task
  dispatch-unnamed now (err e) q h = refl
  dispatch-unnamed now (ok env) q h =
      let same = claim_event-llm now env.id q in
      elim (Result-cases (decode_json w.svc.encoding.payloads env.payload)) [
        | inr (e, r) ↦ ground arith
        | inl (p, r) ↦ ground arith
      ]

module _ {D C B L : Type 0} (w : TaskSummarizer D C B L) (row : D → Uuid → Option Task) where
  -- The task that the body names, if any, is not pending.
  abbrev pub IsIdle : D → Bytes → Type 0
  IsIdle d body =
      (named_task w body ≡ none)
      ⊎ ((j : Uuid) × (named_task w body ≡ some j) × (is_pending (row d j) ≡ false))

module _ {D C B L : Type 0} (w : TaskSummarizer D C B L) (row : D → Uuid → Option Task)
    (contract : IsContract w.svc.repo row) (now : String) where
  abbrev Rests : Process D C B L → Process D C B L → Type 0
  Rests q q' = (q'.llm ≡ q.llm) × Same row q.world.db q'.world.db

  handle-Rests :
      (body : Bytes) (q : Process D C B L)
      → IsIdle w row q.world.db body
      → Rests q (handle w now body q).1
  unfolding handle named_task
  handle-Rests body q (inl h) = (
    dispatch-unnamed w now (decode_json w.svc.encoding.envelopes body) q h,
    λ j. elim (handle-Followed w (Reworks row) (Reworks-IsFootprint contract) now body q j) [
      | inl e ↦ e
      | inr (named, _) ↦ absurd (cc)
    ],
  )
  handle-Rests body q (inr (j, named, free)) =
      let (env, p, event, same) = named_event w body j named in
      handle-duplicate w row contract now body env p event q (rw same free)

  IsIdle-Same :
      (d d' : D) (body : Bytes) → Same row d d' → IsIdle w row d body → IsIdle w row d' body
  IsIdle-Same d d' body same (inl h) = inl h
  IsIdle-Same d d' body same (inr (j, named, free)) =
      inr (j, named, ap (λ o. is_pending o) (same j) ∙ free)

  handled-Rests :
      (bs : List Bytes) (q : Process D C B L)
      → All (IsIdle w row q.world.db) bs
      → Rests q (handled (handle w now) bs q)
  handled-Rests [] q idle = (refl, λ j. refl)
  handled-Rests (b ∷ bs) q (first, rest) =
      let q' = (handle w now b q).1 in
      let (llm, same) = handle-Rests b q first in
      let (llm', same') =
        handled-Rests bs q'
          (All-map (λ x h. IsIdle-Same q.world.db q'.world.db x same h) bs rest) in
      (llm' ∙ llm, λ j. same' j ∙ same j)

All-append_left : {A : Type 0} (P : A → Type 0) (xs ys : List A) → All P (xs ++ ys) → All P xs
All-append_left P [] ys h = tt
All-append_left P (x ∷ xs) ys (p, h) = (p, All-append_left P xs ys h)

-- A run of a registered worker's consumer in which no delivery names a task that is pending (all of
-- them are duplicates, or their tasks are being processed, completed, failed or gone, or they are no
-- `task.created` events) asks nothing of the language model and changes no row, however often the
-- deliveries are repeated and however the channels break.
pub run-Rests :
    {N H X K D C B L : Type 0} (amqp : Amqp N H X K) (deliveries : H → Channel K) (ctx : Context K)
    (w : TaskSummarizer D C B L) (row : D → Uuid → Option Task)
    → IsContract w.svc.repo row
    → (now : String) (b : Broker N H (Process D C B L)) (c : Consumer N (Process D C B L))
    → (register w now b).0 ≡ ok c
    → (events : List Event) (q : Process D C B L) (k : K)
    → All (IsIdle w row q.world.db) (bodies events)
    → let (_, (q', _)) = run amqp deliveries ctx c b.exchange events (q, k) in
      (q'.llm ≡ q.llm) × Same row q.world.db q'.world.db
run-Rests amqp deliveries ctx w row contract now b c registered events q k idle =
    let (seen, rest, all, after) =
      registered_run amqp deliveries ctx w now b c registered events q k in
    rw after (
      handled-Rests w row contract now seen q
        (All-append_left (IsIdle w row q.world.db) seen rest (rw (← all) idle)))
