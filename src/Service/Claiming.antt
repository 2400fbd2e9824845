-- ===== src/Service/Claiming.antt =====
-- Claiming a task, giving it back, and rescuing one that is stranded.
use golang_staterpack.Prelude.{
  Bool, true, false, ◌≡◌, sym, ◌∙◌, ◌⊎◌, inl, inr, Option, some, ok, Result-cases, Bool-cases,
  str_eq, eq_iff, arith, ==_refl,
}
use golang_staterpack.Model.{Uuid, Time, Task, Bytes, pending, processing, completed}
use golang_staterpack.Repository.Contract.{IsContract, Rewrites, claim, is_pending, IsStale}
use golang_staterpack.Event.{routing_task_created}
use golang_staterpack.Service.Defs.{
  TaskService, World, Stamp, begin_processing, mark_pending, republish_created, created_event,
}

module _ {D C B : Type 0} (s : TaskService D C B) where
  pub begin_processing_inv :
      (i : Uuid) (w : World D C B)
      → ((begin_processing s i w).0 ≡ (s.repo.mark_processing i w.db).0)
        × ((begin_processing s i w).1.db ≡ (s.repo.mark_processing i w.db).1)
        × ((begin_processing s i w).1.broker ≡ w.broker)
  unfolding begin_processing
  begin_processing_inv i w = (ground arith, ground arith, ground arith)

  pub mark_pending_inv :
      (i : Uuid) (w : World D C B)
      → ((mark_pending s i w).0 ≡ (s.repo.update_status i pending "" w.db).0)
        × ((mark_pending s i w).1.db ≡ (s.repo.update_status i pending "" w.db).1)
        × ((mark_pending s i w).1.broker ≡ w.broker)
  unfolding mark_pending
  mark_pending_inv i w = (ground arith, ground arith, ground arith)

  -- What a republish that succeeds has done to the database.
  pub republish_db :
      (stamp : Stamp) (t : Task) (w : World D C B)
      → (republish_created s stamp t w).0 ≡ ok tt
      → (str_eq t.status processing ≡ true)
          × ((mark_pending s t.id w).0 ≡ ok tt)
          × ((republish_created s stamp t w).1.db ≡ (mark_pending s t.id w).1.db)
        ⊎ (str_eq t.status processing ≡ false) × ((republish_created s stamp t w).1.db ≡ w.db)
  unfolding republish_created
  republish_db stamp t w h = elim (Bool-cases (str_eq t.status processing)) [
    | inl e ↦ inl (e, ground arith, ground arith)
    | inr e ↦ inr (e, ground arith)
  ]

  -- The event that it has published.
  pub republish_event :
      (stamp : Stamp) (t : Task) (w : World D C B)
      → (republish_created s stamp t w).0 ≡ ok tt
      → (body : Bytes) × (created_event s stamp t ≡ ok body)
        × ((s.publisher.publish routing_task_created body w.broker).0 ≡ ok tt)
        × ((republish_created s stamp t w).1.broker
            ≡ (s.publisher.publish routing_task_created body w.broker).1)
  unfolding republish_created
  republish_event stamp t w h = elim (Result-cases (created_event s stamp t)) [
    | inl (body, e) ↦ (
      body,
      e,
      ground (arith, (mark_pending_inv t.id w).2),
      ground (arith, (mark_pending_inv t.id w).2),
    )
    | inr (x, e) ↦ absurd (ground arith)
  ]

module _ {D C B : Type 0} (s : TaskService D C B) (row : D → Uuid → Option Task)
    (contract : IsContract s.repo row) where
  pub row-mark_pending :
      (i : Uuid) (w : World D C B) (u : Task)
      → row w.db i ≡ some u
      → (mark_pending s i w).0 ≡ ok tt
      → (now : Time) × (row (mark_pending s i w).1.db i
          ≡ some (record u { status = pending; updated_at = now }))
  row-mark_pending i w u e h =
      let (result, db, _) = mark_pending_inv s i w in
      let (_, (now, effect)) = contract.update_status_ok i pending "" w.db (sym result ∙ h) in
      (now, rw (db, effect i, ==_refl i, e))

pub still_pending :
    (pending_before processing_before : Time) (t : Task)
    → IsStale pending_before processing_before t
    → str_eq t.status processing ≡ false
    → str_eq t.status pending ≡ true
still_pending pb qb t stale e = ground (arith, eq_iff t.status pending, eq_iff t.status processing)

-- A claim is answered with true exactly when the task is there and pending; it is being processed
-- then. No event is published.
pub begin_processing_lem :
    {D C B : Type 0} (s : TaskService D C B) (row : D → Uuid → Option Task)
    → IsContract s.repo row
    → (i : Uuid) (w : World D C B) (b : Bool) → (begin_processing s i w).0 ≡ ok b
    → let w' = (begin_processing s i w).1 in
      (b ≡ is_pending (row w.db i)) × Rewrites row i claim w.db w'.db × (w'.broker ≡ w.broker)
begin_processing_lem s row contract i w b h =
    let (result, db, broker) = begin_processing_inv s i w in
    let (answer, effect) = contract.mark_processing_ok i w.db b (sym result ∙ h) in
    (answer, rw db effect, broker)

-- A stranded task that `RepublishCreated` has rescued can be claimed: its event is published, and
-- the next claim that the database answers succeeds, whether the task was pending or processing.
pub begin_processing-republish :
    {D C B : Type 0} (s : TaskService D C B) (row : D → Uuid → Option Task)
    → IsContract s.repo row
    → (stamp : Stamp) (t : Task) (pending_before processing_before : Time) (w : World D C B)
      (b : Bool)
    → row w.db t.id ≡ some t
    → IsStale pending_before processing_before t
    → (republish_created s stamp t w).0 ≡ ok tt
    → let w' = (republish_created s stamp t w).1 in
      (begin_processing s t.id w').0 ≡ ok b
      → (b ≡ true)
        × ((body : Bytes) × (created_event s stamp t ≡ ok body)
            × ((s.publisher.publish routing_task_created body w.broker).0 ≡ ok tt)
            × (w'.broker ≡ (s.publisher.publish routing_task_created body w.broker).1))
begin_processing-republish s row contract stamp t pb qb w b held stale h h' =
    let w' = (republish_created s stamp t w).1 in
    let (answer, _, _) = begin_processing_lem s row contract t.id w' b h' in
    (
      elim (republish_db s stamp t w h) [
        | inl (e, reset, db) ↦
            let (now, after) = row-mark_pending s row contract t.id w t held reset in
            answer ∙ rw (db, after)
        | inr (e, db) ↦ answer ∙ rw (db, held) (still_pending pb qb t stale e)
      ],
      republish_event s stamp t w h,
    )

-- The snapshot that the sweep holds may be out of date: a task that a worker has completed since
-- then is reopened by a rescue that succeeds.
pub republish_reopens :
    {D C B : Type 0} (s : TaskService D C B) (row : D → Uuid → Option Task)
    → IsContract s.repo row
    → (stamp : Stamp) (t u : Task) (w : World D C B) → t.status ≡ processing
    → row w.db t.id ≡ some u
    → u.status ≡ completed
    → (republish_created s stamp t w).0 ≡ ok tt
    → is_pending (row (republish_created s stamp t w).1.db t.id) ≡ true
republish_reopens s row contract stamp t u w old held done h = elim (republish_db s stamp t w h) [
  | inl (e, reset, db) ↦
      let (now, after) = row-mark_pending s row contract t.id w u held reset in rw (db, after)
  | inr (e, db) ↦ absurd (ground (arith, eq_iff t.status processing))
]
