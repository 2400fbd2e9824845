-- ===== src/Worker/Rescued.antt =====
-- From a rescue by the reconciler to the summary.
use golang_staterpack.Prelude.{
  String, Bool, true, ◌≡◌, refl, ap, ◌∙◌, inl, inr, Option, some, ok, Bool-cases, str_eq, eq_iff,
  arith,
}
use golang_staterpack.Model.{Uuid, Time, Task, Bytes, pending, completed}
use golang_staterpack.Event.RoundTrip.{IsFaithful}
use golang_staterpack.Repository.Contract.{IsContract, IsStale, restatus}
use golang_staterpack.Service.Defs.{
  World, Stamp, created_event, republish_created, begin_processing, apply_summary,
}
use golang_staterpack.Service.Claiming.{republish_db, row-mark_pending, still_pending}
use golang_staterpack.Worker.Defs.{TaskSummarizer, Process, handle, claim_event, text_of}
use golang_staterpack.Worker.Pipeline.{payload_of, created_event-IsEvent, completes}

-- The task as a rescue leaves it.
abbrev pub reopened : Time → Task → Task
reopened at t = record t { status = pending; updated_at = at }

unchanged : (t : Task) → t.status ≡ pending → t ≡ reopened t.updated_at t
unchanged t h = ground arith

restatus-reopened :
    (summary : String) (at now : Time) (t : Task)
    → restatus completed summary at (reopened now t) ≡ restatus completed summary at t
restatus-reopened summary at now t = elim (Bool-cases (str_eq summary "")) [
  | inl e ↦ rw e refl
  | inr e ↦ rw e refl
]

module _ {D C B L : Type 0} (w : TaskSummarizer D C B L) (row : D → Uuid → Option Task)
    (contract : IsContract w.svc.repo row) where
  republish-reopened :
      (stamp : Stamp) (t : Task) (pb qb : Time) (world : World D C B)
      → row world.db t.id ≡ some t
      → IsStale pb qb t
      → (republish_created w.svc stamp t world).0 ≡ ok tt
      → (now : Time) × (row (republish_created w.svc stamp t world).1.db t.id
          ≡ some (reopened now t))
  republish-reopened stamp t pb qb world held stale h = elim (republish_db w.svc stamp t world h) [
    | inl (e, reset, db) ↦
        let (now, after) = row-mark_pending w.svc row contract t.id world t held reset in
        (now, rw db after)
    | inr (e, db) ↦
        let waiting = (eq_iff t.status pending).0 (still_pending pb qb t stale e) in
        (t.updated_at, rw db (held ∙ ap some (unchanged t waiting)))
  ]

-- A stranded task that `RepublishCreated` has rescued, and whose event is delivered while the rows are
-- still as the rescue left them, is summarized where nothing fails (the event is no duplicate, the
-- database answers the claim, the model answers, and the summary can be stored), whether the task was
-- pending or processing. The handler then acknowledges the event, and the task is what it was but
-- completed, with the summary.
pub republish-completed :
    {D C B L : Type 0} (w : TaskSummarizer D C B L) (row : D → Uuid → Option Task)
    → IsContract w.svc.repo row
    → (compact : Bytes → Bytes)
    → IsFaithful w.svc.encoding.payloads w.svc.encoding.envelopes compact
    → (stamp : Stamp) (t : Task) (pending_before processing_before : Time) (world : World D C B)
      (body : Bytes)
    → row world.db t.id ≡ some t
    → IsStale pending_before processing_before t
    → (republish_created w.svc stamp t world).0 ≡ ok tt
    → created_event w.svc stamp t ≡ ok body
    → (now : String) (q : Process D C B L) (b : Bool) (summary : String)
    → q.world.db ≡ (republish_created w.svc stamp t world).1.db
    → let c = claim_event w w.dedupe now stamp.event_id q in
      c.0 ≡ true
      → (begin_processing w.svc t.id c.1.world).0 ≡ ok b
      → (w.llm.summarize (text_of (payload_of t)) c.1.llm).0 ≡ ok summary
      → (apply_summary w.svc t.id summary (begin_processing w.svc t.id c.1.world).1).0 ≡ ok tt
      → let r = handle w now body q in
        (r.0 ≡ ok tt)
        × ((at : Time) × (row r.1.world.db t.id ≡ some (restatus completed summary at t)))
republish-completed w row contract compact faithful stamp t pb qb world body held stale h event now
      q b summary same won answer said applied =
    let (time, after) = republish-reopened w row contract stamp t pb qb world held stale h in
    let (env, decoded, id) = created_event-IsEvent w compact faithful stamp t body event in
    let (done, (at, stored)) =
      completes w row contract now body env (reopened time t) q b summary decoded
        (ap (λ d. row d t.id) same ∙ after) refl (rw id won) (rw id answer) (rw id said)
        (rw id applied) in
    (done, (at, stored ∙ ap some (restatus-reopened summary at time t)))
