-- ===== src/Transport/Answers.antt =====
-- What a client is told.
use golang_staterpack.Prelude.{
  String, Bool, false, ◌≡◌, refl, sym, ap, ◌∙◌, ◌⊎◌, inl, inr, Option, none, some, ok, err,
  Result-cases, arith,
}
use golang_staterpack.Errors.{Error, Fault, not_found, invalid_input, is}
use golang_staterpack.Model.{Uuid, Task}
use golang_staterpack.Libraries.Gorm.{IsRetimed}
use golang_staterpack.Repository.Contract.{IsContract}
use golang_staterpack.Service.Defs.{TaskService, World, CreateTaskInput, Stamp, new_task, validate}
use golang_staterpack.Service.Defs
use golang_staterpack.Service.Creation.{create_stores, create_err_inv}
use golang_staterpack.Transport.Defs.{
  Request, Response, Content, error_handler, as_fiber, answer, create_task, reply, error_reply,
  by_fiber,
}

error_handler-plain :
    (trace : String) (e : Error)
    → as_fiber e ≡ none
    → is e not_found ≡ false
    → is e invalid_input ≡ false
    → error_handler false trace e
      ≡ error_reply 500 "internal server error" "internal_error" "" trace
unfolding error_handler
error_handler-plain trace e plain found valid =
    ap (by_fiber false trace e) plain ∙ rw (found, valid) refl

-- Without details, two errors of the last case.
pub error_handler-hides :
    (trace : String) (e x : Error)
    → as_fiber e ≡ none
    → as_fiber x ≡ none
    → is e not_found ≡ false
    → is x not_found ≡ false
    → is e invalid_input ≡ false
    → is x invalid_input ≡ false
    → (error_handler false trace e ≡ error_handler false trace x)
      × ((error_handler false trace e).status ≡ 500)
unfolding error_handler
error_handler-hides trace e x plain plain' found found' valid valid' =
    let at_e = error_handler-plain trace e plain found valid in
    (at_e ∙ sym (error_handler-plain trace x plain' found' valid'), rw at_e refl)

module _ {D C B : Type 0} (s : TaskService D C B) (fresh : Uuid) (stamp : Stamp) (q : Request)
    (w : World D C B) where
  create_task-malformed :
      (e : Fault)
      → q.body ≡ err e
      → create_task s fresh stamp q w ≡ (err (Error.fiber_error 400 "malformed JSON body"), w)
  unfolding create_task
  create_task-malformed e h = rw h refl

  create_task-parsed :
      (input : CreateTaskInput)
      → q.body ≡ ok input
      → let r = Defs.create s fresh stamp input w in
        ((create_task s fresh stamp q w).1 ≡ r.1)
        × (((t : Task) × (r.0 ≡ ok t)
              × ((create_task s fresh stamp q w).0 ≡ ok (reply 201 (Content.task t))))
            ⊎ ((e : Error) × (r.0 ≡ err e) × ((create_task s fresh stamp q w).0 ≡ err e)))
  unfolding create_task
  create_task-parsed input h = (
    ground arith,
    elim (Result-cases (Defs.create s fresh stamp input w).0) [
      | inl (t, e) ↦ inl (t, e, ground arith)
      | inr (x, e) ↦ inr (x, e, ground arith)
    ],
  )

module _ {D C B : Type 0} (s : TaskService D C B) (fresh : Uuid) (stamp : Stamp) (q : Request)
    (w : World D C B) where
  -- A `POST` that succeeds.
  pub create_task_inv :
      (r : Response)
      → (create_task s fresh stamp q w).0 ≡ ok r
      → (input : CreateTaskInput) × (t : Task) × (q.body ≡ ok input)
        × ((Defs.create s fresh stamp input w).0 ≡ ok t)
        × ((create_task s fresh stamp q w).1 ≡ (Defs.create s fresh stamp input w).1)
        × (r ≡ reply 201 (Content.task t))
  create_task_inv r h = elim (Result-cases q.body) [
    | inr (e, k) ↦
        let run = ap (λ x. x.0) (create_task-malformed s fresh stamp q w e k) in absurd (cc)
    | inl (input, k) ↦
        let (world, outcome) = create_task-parsed s fresh stamp q w input k in
        elim outcome [
          | inl (t, done, run) ↦ (input, t, k, done, world, ground arith)
          | inr (e, failed, run) ↦ absurd (cc)
        ]
  ]

refused-status :
    (include_detail : Bool) (trace : String) (input : CreateTaskInput) (e : Error)
    → validate input ≡ err e
    → (error_handler include_detail trace e).status ≡ 400
unfolding validate error_handler
refused-status include_detail trace input e h = ground arith

malformed-status :
    (include_detail : Bool) (trace : String)
    → (error_handler include_detail trace (Error.fiber_error 400 "malformed JSON body")).status
      ≡ 400
unfolding error_handler
malformed-status include_detail trace = refl

abbrev pub posted :
    {D C B : Type 0}
    → TaskService D C B
    → Bool
    → String
    → Uuid
    → Stamp
    → Request
    → World D C B
    → Response
posted s include_detail trace fresh stamp q w =
    answer include_detail trace (create_task s fresh stamp q w).0

-- `POST /api/v1/tasks` answers with 201 and the task only where that task has been stored. A body
-- that does not parse and an input that is not acceptable are answered with 400, and then neither
-- the database nor the cache nor the broker is touched. In every other case the store has refused
-- the task, and nothing is published.
pub create_task-stores :
    {D C B : Type 0} (s : TaskService D C B) (row : D → Uuid → Option Task)
    → IsContract s.repo row
    → (include_detail : Bool) (trace : String) (fresh : Uuid) (stamp : Stamp) (q : Request)
      (w : World D C B)
    → let w' = (create_task s fresh stamp q w).1 in
      let response = posted s include_detail trace fresh stamp q w in
      ((t stored : Task) × (response ≡ reply 201 (Content.task t))
        × IsRetimed t stored
        × (row w'.db fresh ≡ some stored))
      ⊎ (response.status ≡ 400) × (w'.db ≡ w.db) × (w'.cache ≡ w.cache) × (w'.broker ≡ w.broker)
      ⊎ ((input : CreateTaskInput) × (e : Error) × (q.body ≡ ok input)
          × ((s.repo.create fresh (new_task input) w.db).0 ≡ err e)
          × (w'.broker ≡ w.broker))
create_task-stores s row contract include_detail trace fresh stamp q w =
    elim (Result-cases q.body) [
      | inr (e, h) ↦
          let run = create_task-malformed s fresh stamp q w e h in
          inr (inl (rw run (malformed-status include_detail trace), rw run, rw run, rw run))
      | inl (input, h) ↦
          let (world, outcome) = create_task-parsed s fresh stamp q w input h in
          elim outcome [
            | inl (t, done, run) ↦
                let (stored, times, held) =
                  (create_stores s row contract fresh stamp input w t s.publisher done).1 in
                inl (t, stored, rw run refl, times, rw world held)
            | inr (e, failed, run) ↦
                let (broker, cache, cause) = create_err_inv s fresh stamp input w e failed in
                elim cause [
                  | inl (refusal, db) ↦ inr (
                      inl (
                        rw run (refused-status include_detail trace input e refusal),
                        rw world db,
                        rw world cache,
                        rw world broker,
                      ))
                  | inr (checked, store) ↦ inr (inr (input, e, h, store, rw world broker))
                ]
          ]
    ]
