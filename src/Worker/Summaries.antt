-- ===== src/Worker/Summaries.antt =====
-- A delivery whose task is claimed: the summary is applied, or the task is given back.
use golang_staterpack.Prelude.{
  String, true, false, ◌≡◌, refl, sym, ap, ◌∙◌, ◌⊎◌, inl, inr, Option, none, some, Result, ok, err,
  Result-cases, Bool-cases, Option-cases, eq_iff, arith, ==_refl,
}
use golang_staterpack.Errors.{Error, not_found, is}
use golang_staterpack.Model.{Uuid, Time, Task, Bytes, pending, completed}
use golang_staterpack.Event.{Envelope, TaskCreatedPayload}
use golang_staterpack.Repository.Contract.{IsContract, restatus, claim, is_pending}
use golang_staterpack.Libraries.Gorm.{Same}
use golang_staterpack.Service.Defs.{World, begin_processing, mark_pending, apply_summary}
use golang_staterpack.Service.Claiming.{begin_processing_inv, begin_processing_lem}
use golang_staterpack.Service.Completion.{row-apply_summary, apply_summary-result}
use golang_staterpack.Broker.Dedupe.{Dedupe, release}
use golang_staterpack.Worker.Outcomes.{
  IsEvent, handle_created, claimed_first, process_claimed, claim_event_frame, process_unclaimable,
}
use golang_staterpack.Worker.Defs.{
  TaskSummarizer, Process, handle, after_claim, text_of, after_summary, after_apply, give_back,
  release_event,
}

module _ {D C B L : Type 0} (w : TaskSummarizer D C B L) where
  -- The cache after the marker of an event was released.
  abbrev pub released : Option (Dedupe C) → String → C → C
  released none event_id c = c
  released (some d) event_id c = release d event_id c

  abbrev pub unmarked : String → Process D C B L → World D C B
  unmarked event_id q = record (q.world) { cache = released w.dedupe event_id q.world.cache }

  pub give_back_lem :
      (event_id : String) (i : Uuid) (e : Error) (q : Process D C B L)
      → give_back w event_id i e q
        ≡ (err e, record q { world = (mark_pending w.svc i (unmarked event_id q)).1 })
  unfolding give_back release_event
  give_back_lem event_id i e q = elim (Option-cases w.dedupe) [
    | inl none_set ↦ rw none_set refl
    | inr (d, set) ↦ rw set refl
  ]

module _ {D C B L : Type 0} (w : TaskSummarizer D C B L) (env : Envelope)
    (p : TaskCreatedPayload) where
  give_back-ne-ok :
      (e : Error) (q : Process D C B L) → ¬ ((give_back w env.id p.task_id e q).0 ≡ ok tt)
  give_back-ne-ok e q h = absurd (ground (arith, give_back_lem w env.id p.task_id e q))

  -- A summary that is not applied is acknowledged only if the task is gone.
  after_apply-ok :
      (r : Result Error (Unit {0})) (q : Process D C B L)
      → (after_apply w env p r q).0 ≡ ok tt
      → ((r ≡ ok tt) ⊎ ((e : Error) × (r ≡ err e) × (is e not_found ≡ true)))
        × ((after_apply w env p r q).1 ≡ q)
  unfolding after_apply
  after_apply-ok (ok tt) q h = (inl refl, refl)
  after_apply-ok (err e) q h = elim (Bool-cases (is e not_found)) [
    | inl gone ↦ (inr (e, refl, gone), rw gone)
    | inr other ↦ absurd (give_back-ne-ok _ q (rw other at h))
  ]

  -- The model was asked, and its summary applied, or the task was gone.
  pub after_summary-ok :
      (r : Result Error String) (q : Process D C B L)
      → (after_summary w env p r q).0 ≡ ok tt
      → (summary : String) × (r ≡ ok summary)
        × (let a = apply_summary w.svc p.task_id summary q.world in
            ((a.0 ≡ ok tt) ⊎ ((e : Error) × (a.0 ≡ err e) × (is e not_found ≡ true)))
            × ((after_summary w env p r q).1 ≡ record q { world = a.1 }))
  unfolding after_summary
  after_summary-ok (err e) q h = absurd (give_back-ne-ok _ q h)
  after_summary-ok (ok summary) q h = (summary, refl, after_apply-ok _ _ h)

-- The task was pending, and is completed with the summary that the model gave.
pub record IsCompleted {D C B L : Type 0} (w : TaskSummarizer D C B L)
    (row : D → Uuid → Option Task) (p : TaskCreatedPayload) (q q' : Process D C B L) : Type 0 where
  pub summary : String
  pub before : Task
  pub now : Time
  pub answered : (w.llm.summarize (text_of p) q.llm).0 ≡ ok summary
  pub asked_once : q'.llm ≡ (w.llm.summarize (text_of p) q.llm).1
  pub was_pending : (row q.world.db p.task_id ≡ some before) × (before.status ≡ pending)
  pub stored : row q'.world.db p.task_id ≡ some (restatus completed summary now before)

-- The process once the model has answered about a claimed task.
abbrev pub asked :
    {D C B L : Type 0}
    → TaskSummarizer D C B L
    → TaskCreatedPayload
    → Process D C B L
    → Process D C B L
asked w p q = record {
  world = (begin_processing w.svc p.task_id q.world).1;
  llm = (w.llm.summarize (text_of p) q.llm).1;
}

restatus-claim :
    (summary : String) (now now' : Time) (t : Task)
    → restatus completed summary now (claim now' t) ≡ restatus completed summary now t
restatus-claim summary now now' t = ground arith

pending_row :
    (o : Option Task) → is_pending o ≡ true → (u : Task) × (o ≡ some u) × (u.status ≡ pending)
pending_row none h = absurd (cc)
pending_row (some u) h = (u, refl, (eq_iff u.status pending).0 h)

module _ {D C B L : Type 0} (w : TaskSummarizer D C B L) (now : String) (body : Bytes)
    (env : Envelope) (p : TaskCreatedPayload) (row : D → Uuid → Option Task)
    (contract : IsContract w.svc.repo row) where
  -- A claim that is won, seen from the row.
  pub claimed_row :
      (q : World D C B)
      → (begin_processing w.svc p.task_id q).0 ≡ ok true
      → (u : Task) × (row q.db p.task_id ≡ some u)
        × (u.status ≡ pending)
        × ((at : Time) × (row (begin_processing w.svc p.task_id q).1.db p.task_id
              ≡ some (claim at u)))
  claimed_row q h =
      let (answer, (at, effect), _) = begin_processing_lem w.svc row contract p.task_id q true h in
      let (u, held, waiting) = pending_row (row q.db p.task_id) (sym answer) in
      (u, held, waiting, (at, rw (effect p.task_id, ==_refl p.task_id, held)))

  IsCompleted-of_apply :
      (q : Process D C B L) (summary : String)
      → (begin_processing w.svc p.task_id q.world).0 ≡ ok true
      → (w.llm.summarize (text_of p) q.llm).0 ≡ ok summary
      → let claimed = (begin_processing w.svc p.task_id q.world).1 in
        let a = apply_summary w.svc p.task_id summary claimed in
        ((a.0 ≡ ok tt) ⊎ ((e : Error) × (a.0 ≡ err e) × (is e not_found ≡ true)))
        → IsCompleted w row p q
            (record { world = a.1; llm = (w.llm.summarize (text_of p) q.llm).1 })
  IsCompleted-of_apply q summary won answered outcome =
      let claimed = (begin_processing w.svc p.task_id q.world).1 in
      let (u, held, waiting, (at, taken)) = claimed_row q.world won in
      elim outcome [
        | inl applied ↦
            let (v, held', (done, stored)) =
              row-apply_summary w.svc p.task_id summary claimed row contract applied in
            let same : v ≡ claim at u = ground arith in
            record {
              summary = summary;
              before = u;
              now = done;
              answered = answered;
              asked_once = refl;
              was_pending = (held, waiting);
              stored =
                  stored
                  ∙ ap (λ t. some (restatus completed summary done t)) same
                  ∙ ap some (restatus-claim summary done at u);
            }
        | inr (e, failed, gone) ↦
            let no_row : row claimed.db p.task_id ≡ none =
              (contract.update_status_err p.task_id completed summary claimed.db e
                  (sym (apply_summary-result w.svc p.task_id summary claimed) ∙ failed)).0
                gone in
            absurd (cc)
      ]

  pub process_won :
      (q : Process D C B L)
      → (begin_processing w.svc p.task_id q.world).0 ≡ ok true
      → process_claimed w now body env p q
        ≡ after_summary w env p (w.llm.summarize (text_of p) q.llm).0 (asked w p q)
  unfolding after_claim
  process_won q e = rw e refl

  pub process_won-ok :
      (q : Process D C B L)
      → (begin_processing w.svc p.task_id q.world).0 ≡ ok true
      → (process_claimed w now body env p q).0 ≡ ok tt
      → IsCompleted w row p q (process_claimed w now body env p q).1
  process_won-ok q e h =
      let (summary, answered, (outcome, final)) =
        after_summary-ok w env p (w.llm.summarize (text_of p) q.llm).0 (asked w p q)
          (rw (process_won q e) at h) in
      rw (process_won q e, final) (IsCompleted-of_apply q summary e answered outcome)

  process_lost-ok :
      (q : Process D C B L) (x : Error)
      → (begin_processing w.svc p.task_id q.world).0 ≡ err x
      → ¬ ((process_claimed w now body env p q).0 ≡ ok tt)
  unfolding after_claim
  process_lost-ok q x e h =
      let (result, _, _) = begin_processing_inv w.svc p.task_id q.world in
      let (known, _) = contract.mark_processing_err p.task_id q.world.db x (sym result ∙ e) in
      absurd (ground arith)

  process_ok :
      (q : Process D C B L)
      → (process_claimed w now body env p q).0 ≡ ok tt
      → let q' = (process_claimed w now body env p q).1 in
        ((q'.llm ≡ q.llm) × Same row q.world.db q'.world.db) ⊎ IsCompleted w row p q q'
  process_ok q h = elim (Result-cases (begin_processing w.svc p.task_id q.world).0) [
    | inl (false, e) ↦
        let (answer, _, _) = begin_processing_lem w.svc row contract p.task_id q.world false e in
        inl (process_unclaimable w now body env p row contract q (sym answer))
    | inl (true, e) ↦ inr (process_won-ok q e h)
    | inr (x, e) ↦ absurd (process_lost-ok q x e h)
  ]

  pub IsCompleted-claimed :
      (q q' : Process D C B L)
      → IsCompleted w row p (claimed_first w now body env p q).1 q'
      → IsCompleted w row p q q'
  IsCompleted-claimed q q' done =
      let (db, llm, _) = claim_event_frame w now body env p q in
      record {
        summary = done.summary;
        before = done.before;
        now = done.now;
        answered = rw (← llm) done.answered;
        asked_once = rw (← llm) done.asked_once;
        was_pending = rw (← db) done.was_pending;
        stored = done.stored;
      }

  handle_ok :
      IsEvent w body env p
      → (q : Process D C B L) → (handle w now body q).0 ≡ ok tt
      → let q' = (handle w now body q).1 in
        ((q'.llm ≡ q.llm) × Same row q.world.db q'.world.db) ⊎ IsCompleted w row p q q'
  handle_ok event q h =
      let q₁ = (claimed_first w now body env p q).1 in
      let (db, llm, _) = claim_event_frame w now body env p q in
      elim (Bool-cases (claimed_first w now body env p q).0) [
        | inr e ↦ rw (handle_created w now body env p event q, e) (inl (llm, λ i. rw db))
        | inl e ↦
            let run : handle w now body q ≡ process_claimed w now body env p q₁ =
              handle_created w now body env p event q ∙ rw e refl in
            elim (process_ok q₁ (rw run at h)) [
              | inl (llm', same) ↦ inl (rw run (llm' ∙ llm), λ i. rw run (same i ∙ rw db))
              | inr done ↦ inr (rw run (IsCompleted-claimed q _ done))
            ]
      ]

-- Where nothing else changes the database while the handler works, a `task.created` message that it
-- acknowledges has either asked nothing of the model and changed no row, or its task was pending and
-- is completed with the one summary that the model gave.
pub handle-acknowledged :
    {D C B L : Type 0} (w : TaskSummarizer D C B L) (row : D → Uuid → Option Task)
    → IsContract w.svc.repo row
    → (now : String) (body : Bytes) (env : Envelope) (p : TaskCreatedPayload) → IsEvent w body env p
    → (q : Process D C B L) → (handle w now body q).0 ≡ ok tt
    → let q' = (handle w now body q).1 in
      ((q'.llm ≡ q.llm) × Same row q.world.db q'.world.db) ⊎ IsCompleted w row p q q'
handle-acknowledged w row contract now body env p event q h =
    handle_ok w now body env p row contract event q h
