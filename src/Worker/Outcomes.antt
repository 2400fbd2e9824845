-- ===== src/Worker/Outcomes.antt =====
-- What becomes of the task of a `task.created` message that is handled.
use golang_staterpack.Prelude.{
  String, Bool, true, false, ◌≡◌, refl, sym, ◌∙◌, inl, inr, Option, ok, Result-cases, Bool-cases,
  Option-cases, if◌then◌else◌, eq_iff, arith, attempt,
}
use golang_staterpack.Model.{Uuid, Task, Bytes}
use golang_staterpack.Event.{Envelope, TaskCreatedPayload, routing_task_created}
use golang_staterpack.Repository.Contract.{IsContract, is_pending}
use golang_staterpack.Libraries.Gorm.{Same}
use golang_staterpack.Service.Defs.{begin_processing}
use golang_staterpack.Repository.Effects.{unclaimed-Same, unclaimed-Same_either}
use golang_staterpack.Service.Claiming.{begin_processing_inv, begin_processing_lem}
use golang_staterpack.Worker.Defs.{
  TaskSummarizer, Process, handle, claim_event, after_claim, on_world, Do,
}

module _ {D C B L : Type 0} (w : TaskSummarizer D C B L) (body : Bytes) (env : Envelope)
    (p : TaskCreatedPayload) where
  -- The body is a `task.created` event with this payload.
  pub record IsEvent : Type 0 where
    pub envelope : w.svc.encoding.envelopes.unmarshal body ≡ ok env
    pub type : env.type ≡ routing_task_created
    pub payload : w.svc.encoding.payloads.unmarshal env.payload ≡ ok p

module _ {D C B L : Type 0} (w : TaskSummarizer D C B L) (now : String) (body : Bytes)
    (env : Envelope) (p : TaskCreatedPayload) where
  abbrev pub claimed_first : Process D C B L → Bool × Process D C B L
  claimed_first q = claim_event w w.dedupe now env.id q

  abbrev pub process_claimed : Do w
  process_claimed = attempt (on_world (begin_processing w.svc p.task_id)) (after_claim w env p)

  -- The handler, once the message is decoded.
  pub handle_created :
      IsEvent w body env p
      → (q : Process D C B L)
      → handle w now body q ≡ (
          if (claimed_first q).0
          then process_claimed (claimed_first q).1
          else (ok tt, (claimed_first q).1))
  unfolding handle
  handle_created event q =
      rw (event.envelope, event.payload)
        (rw ((eq_iff env.type routing_task_created).1 event.type) refl)

  -- Claiming the event touches the cache alone.
  pub claim_event_frame :
      (q : Process D C B L)
      → ((claimed_first q).1.world.db ≡ q.world.db)
        × ((claimed_first q).1.llm ≡ q.llm)
        × ((claimed_first q).1.world.broker ≡ q.world.broker)
  unfolding claim_event
  claim_event_frame q = elim (Option-cases w.dedupe) [
    | inl e ↦ rw e (refl, refl, refl)
    | inr (d, e) ↦ rw e (refl, refl, refl)
  ]

  -- A task that cannot be claimed.
  pub process_unclaimable :
      (row : D → Uuid → Option Task)
      → IsContract w.svc.repo row
      → (q : Process D C B L) → is_pending (row q.world.db p.task_id) ≡ false
      → ((process_claimed q).1.llm ≡ q.llm) × Same row q.world.db (process_claimed q).1.world.db
  unfolding after_claim
  process_unclaimable row contract q free =
      let (result, db, broker) = begin_processing_inv w.svc p.task_id q.world in
      elim (Result-cases (begin_processing w.svc p.task_id q.world).0) [
        | inl (true, e) ↦
            let (answer, _, _) = begin_processing_lem w.svc row contract p.task_id q.world true e in
            absurd (cc)
        | inl (false, e) ↦
            let (answer, effect, _) =
              begin_processing_lem w.svc row contract p.task_id q.world false e in
            rw e (refl, unclaimed-Same row p.task_id q.world.db _ free effect)
        | inr (x, e) ↦
            let (_, effect) =
              contract.mark_processing_err p.task_id q.world.db x (sym result ∙ e) in
            (
              ground arith,
              λ j.
                  ground (arith, db)
                  ∙ unclaimed-Same_either row p.task_id q.world.db _ free effect j,
            )
      ]

  handle_unclaimable :
      (row : D → Uuid → Option Task)
      → IsContract w.svc.repo row
      → IsEvent w body env p
      → (q : Process D C B L) → is_pending (row q.world.db p.task_id) ≡ false
      → ((handle w now body q).1.llm ≡ q.llm) × Same row q.world.db (handle w now body q).1.world.db
  handle_unclaimable row contract event q free =
      let q₁ = (claimed_first q).1 in
      let (db, llm, _) = claim_event_frame q in
      let (llm', same) = process_unclaimable row contract q₁ (rw db free) in
      elim (Bool-cases (claimed_first q).0) [
        | inl e ↦ rw (handle_created event q, e) (llm' ∙ llm, λ i. same i ∙ rw db)
        | inr e ↦ rw (handle_created event q, e) (llm, λ i. rw db)
      ]

-- A delivery for a task that is not pending (a duplicate, a task that is being processed, completed,
-- failed or gone) asks nothing of the language model and changes no row.
pub handle-duplicate :
    {D C B L : Type 0} (w : TaskSummarizer D C B L) (row : D → Uuid → Option Task)
    → IsContract w.svc.repo row
    → (now : String) (body : Bytes) (env : Envelope) (p : TaskCreatedPayload) → IsEvent w body env p
    → (q : Process D C B L) → is_pending (row q.world.db p.task_id) ≡ false
    → ((handle w now body q).1.llm ≡ q.llm) × Same row q.world.db (handle w now body q).1.world.db
handle-duplicate w row contract now body env p event q free =
    handle_unclaimable w now body env p row contract event q free
