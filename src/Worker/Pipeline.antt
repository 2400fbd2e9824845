-- ===== src/Worker/Pipeline.antt =====
-- From the request that creates a task to its summary.
use golang_staterpack.Prelude.{
  String, Bool, true, ◌≡◌, refl, sym, ap, ◌∙◌, Option, some, ok, eq_iff, arith,
}
use golang_staterpack.Model.{Uuid, Time, Task, Bytes, pending, completed}
use golang_staterpack.Event.{Envelope, TaskCreatedPayload, routing_task_created}
use golang_staterpack.Event.RoundTrip.{IsFaithful, new-decodes}
use golang_staterpack.Libraries.Gorm.{IsRetimed}
use golang_staterpack.Repository.Contract.{IsContract, restatus, is_pending}
use golang_staterpack.Service.Defs.{
  World, Stamp, CreateTaskInput, create, created_event, begin_processing, apply_summary,
}
use golang_staterpack.Service.Creation.{create_stores}
use golang_staterpack.Service.Claiming.{begin_processing_lem}
use golang_staterpack.Worker.Defs.{
  TaskSummarizer, Process, handle, claim_event, text_of, after_summary, after_apply,
}
use golang_staterpack.Worker.Outcomes.{
  IsEvent, handle_created, claimed_first, process_claimed, claim_event_frame,
}
use golang_staterpack.Worker.Summaries.{IsCompleted-claimed, process_won, process_won-ok, asked}

abbrev retimed : Time → Time → Task → Task
retimed c u t = record t { created_at = c; updated_at = u }

abbrev pub payload_of : Task → TaskCreatedPayload
payload_of t = record { task_id = t.id; title = t.title; description = t.description }

is_waiting : (t : Task) → t.status ≡ pending → is_pending (some t) ≡ true
is_waiting t h = (eq_iff t.status pending).1 h

module _ {D C B L : Type 0} (w : TaskSummarizer D C B L) where
  pub created_event-IsEvent :
      (compact : Bytes → Bytes)
      → IsFaithful w.svc.encoding.payloads w.svc.encoding.envelopes compact
      → (stamp : Stamp) (t : Task) (body : Bytes) → created_event w.svc stamp t ≡ ok body
      → (env : Envelope) × IsEvent w body env (payload_of t) × (env.id ≡ stamp.event_id)
  created_event-IsEvent compact faithful stamp t body h =
      let (env, read, id, type, _, payload) =
        new-decodes w.svc.encoding.payloads w.svc.encoding.envelopes compact faithful stamp.event_id
          stamp.now routing_task_created (payload_of t) body h in
      (env, record { envelope = read; type = type; payload = payload }, id)

  -- A claimed task whose summary is applied.
  applied_run :
      (env : Envelope) (p : TaskCreatedPayload) (summary : String) (q : Process D C B L)
      → (apply_summary w.svc p.task_id summary q.world).0 ≡ ok tt
      → (after_summary w env p (ok summary) q).0 ≡ ok tt
  unfolding after_summary after_apply
  applied_run env p summary q h = rw h refl

  -- The handler on an event of a task that is pending, where every call succeeds.
  pub completes :
      (row : D → Uuid → Option Task)
      → IsContract w.svc.repo row
      → (now : String) (body : Bytes) (env : Envelope) (t : Task) (q : Process D C B L) (b : Bool)
        (summary : String)
      → IsEvent w body env (payload_of t)
      → row q.world.db t.id ≡ some t
      → t.status ≡ pending
      → let c = claim_event w w.dedupe now env.id q in
        c.0 ≡ true
        → (begin_processing w.svc t.id c.1.world).0 ≡ ok b
        → (w.llm.summarize (text_of (payload_of t)) c.1.llm).0 ≡ ok summary
        → (apply_summary w.svc t.id summary (begin_processing w.svc t.id c.1.world).1).0 ≡ ok tt
        → let r = handle w now body q in
          (r.0 ≡ ok tt)
          × ((at : Time) × (row r.1.world.db t.id ≡ some (restatus completed summary at t)))
  completes row contract now body env t q b summary event held waiting won answer said applied =
      let p = payload_of t in
      let q₁ = (claimed_first w now body env p q).1 in
      let (db, llm, _) = claim_event_frame w now body env p q in
      let (known, _, _) = begin_processing_lem w.svc row contract t.id q₁.world b answer in
      let free : b ≡ true =
        known ∙ ap (λ o. is_pending o) (ap (λ d. row d t.id) db ∙ held) ∙ is_waiting t waiting in
      let taken : (begin_processing w.svc t.id q₁.world).0 ≡ ok true =
        answer ∙ ap (λ x. ok x) free in
      let run : handle w now body q ≡ process_claimed w now body env p q₁ =
        handle_created w now body env p event q ∙ rw won refl in
      let done : (process_claimed w now body env p q₁).0 ≡ ok tt =
        rw (process_won w now body env p row contract q₁ taken, said)
          (applied_run env p summary (asked w p q₁) applied) in
      let final =
        IsCompleted-claimed w now body env p row contract q _
          (process_won-ok w now body env p row contract q₁ taken done) in
      let before = final.was_pending.0 in
      let stored = final.stored in
      let answered = final.answered in
      let same_t : final.before ≡ t = ground arith in
      let same_s : final.summary ≡ summary = ground (arith, llm) in
      let row_after =
        stored
        ∙ ap (λ x. some (restatus completed x final.now final.before)) same_s
        ∙ ap (λ x. some (restatus completed summary final.now x)) same_t in
      (rw run done, (final.now, rw run row_after))

-- A task that `Create` has stored, and whose event is delivered while the rows are still as `Create`
-- left them, is summarized where nothing fails: the event is no duplicate, the database answers the
-- claim, the model answers, and the summary can be stored. The handler then acknowledges the event,
-- and the task is completed with the summary of the title and description that `Create` was given.
pub create-completed :
    {D C B L : Type 0} (w : TaskSummarizer D C B L) (row : D → Uuid → Option Task)
    → IsContract w.svc.repo row
    → (compact : Bytes → Bytes)
    → IsFaithful w.svc.encoding.payloads w.svc.encoding.envelopes compact
    → (fresh : Uuid) (stamp : Stamp) (input : CreateTaskInput) (world : World D C B) (t : Task)
      (body : Bytes)
    → (create w.svc fresh stamp input world).0 ≡ ok t
    → created_event w.svc stamp t ≡ ok body
    → (now : String) (q : Process D C B L) (b : Bool) (summary : String)
    → q.world.db ≡ (create w.svc fresh stamp input world).1.db
    → let c = claim_event w w.dedupe now stamp.event_id q in
      c.0 ≡ true
      → (begin_processing w.svc t.id c.1.world).0 ≡ ok b
      → (w.llm.summarize
          (text_of
            (record { task_id = fresh; title = input.title; description = input.description }))
          c.1.llm).0
        ≡ ok summary
      → (apply_summary w.svc t.id summary (begin_processing w.svc t.id c.1.world).1).0 ≡ ok tt
      → let r = handle w now body q in
        (r.0 ≡ ok tt)
        × ((at : Time) × (stored : Task) × IsRetimed t stored
            × (row r.1.world.db fresh ≡ some (restatus completed summary at stored)))
create-completed w row contract compact faithful fresh stamp input world t body made event now q b
      summary same won answer said applied =
    let (
      _,
      (stored, (created, updated, times), found),
      key,
      waiting,
      title,
      description,
      _,
      _,
      _,
      _,
      _,
    ) =
      create_stores w.svc row contract fresh stamp input world t w.svc.publisher made in
    let (env, decoded, id) = created_event-IsEvent w compact faithful stamp t body event in
    let held : row q.world.db t.id ≡ some (retimed created updated t) =
      rw same
        (ap (λ i. row (create w.svc fresh stamp input world).1.db i) key ∙ found ∙ ap some times) in
    let c = claim_event w w.dedupe now stamp.event_id q in
    let asked_for : payload_of t
        ≡ record { task_id = fresh; title = input.title; description = input.description } =
      rw (key, title, description) refl in
    let r =
      completes w row contract now body env (retimed created updated t) q b summary decoded held
        waiting (rw id won) (rw id answer)
        (rw id (ap (λ p. (w.llm.summarize (text_of p) c.1.llm).0) asked_for ∙ said))
        (rw id applied) in
    (
      r.0,
      (
        r.1.0,
        retimed created updated t,
        (created, updated, refl),
        ap (λ i. row (handle w now body q).1.world.db i) (sym key) ∙ r.1.1,
      ),
    )
