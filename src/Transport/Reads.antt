-- ===== src/Transport/Reads.antt =====
-- What the handlers of one task answer, by the outcomes of the service.
use golang_staterpack.Prelude.{
  String, Bool, true, false, ◌≡◌, refl, ap, ◌⊎◌, inl, inr, none, some, ok, err, Result-cases,
  Option-cases, Bool-cases, arith,
}
use golang_staterpack.Errors.{Error, not_found, invalid_input, is}
use golang_staterpack.Model.{Uuid, Task}
use golang_staterpack.Service.Defs.{TaskService, World, get, delete}
use golang_staterpack.Transport.Defs.{
  Request, Response, Content, error_handler, as_fiber, answer, get_task, delete_task, reply,
}

-- An error that is neither Fiber's nor one of an input.
pub record IsInternal (e : Error) : Type 0 where
  pub plain : as_fiber e ≡ none
  pub valid : is e invalid_input ≡ false

module _ (include_detail : Bool) (trace : String) where
  pub internal-status :
      (e : Error)
      → IsInternal e
      → (is e not_found ≡ true) × ((error_handler include_detail trace e).status ≡ 404)
        ⊎ (is e not_found ≡ false) × ((error_handler include_detail trace e).status ≡ 500)
  unfolding error_handler
  internal-status e i = elim (Bool-cases (is e not_found)) [
    | inl h ↦ inl (h, rw i.plain (rw h refl))
    | inr h ↦ inr (h, rw i.plain (rw (h, i.valid) refl))
  ]

  pub invalid_id-status :
      (text : String)
      → (error_handler include_detail trace (Error.fiber_error 400 text)).status ≡ 400
  unfolding error_handler
  invalid_id-status text = refl

  abbrev pub shown : {D C B : Type 0} → TaskService D C B → Request → World D C B → Response
  shown s q w = answer include_detail trace (get_task s q w).0

  abbrev pub removed : {D C B : Type 0} → TaskService D C B → Request → World D C B → Response
  removed s q w = answer include_detail trace (delete_task s q w).0

module _ {D C B : Type 0} (s : TaskService D C B) (q : Request) (w : World D C B) where
  pub get_task-invalid :
      s.encoding.uuids.parse q.id ≡ none
      → get_task s q w ≡ (err (Error.fiber_error 400 "invalid task id"), w)
  unfolding get_task
  get_task-invalid h = rw h refl

  pub get_task-ok :
      (i : Uuid) (t : Task)
      → s.encoding.uuids.parse q.id ≡ some i
      → (get s i w).0 ≡ ok t
      → get_task s q w ≡ (ok (reply 200 (Content.task t)), (get s i w).1)
  unfolding get_task
  get_task-ok i t h k = rw h (ground arith)

  pub get_task-err :
      (i : Uuid) (e : Error)
      → s.encoding.uuids.parse q.id ≡ some i
      → (get s i w).0 ≡ err e
      → get_task s q w ≡ (err e, (get s i w).1)
  unfolding get_task
  get_task-err i e h k = rw h (ground arith)

  pub delete_task-invalid :
      s.encoding.uuids.parse q.id ≡ none
      → delete_task s q w ≡ (err (Error.fiber_error 400 "invalid task id"), w)
  unfolding delete_task
  delete_task-invalid h = rw h refl

  pub delete_task-ok :
      (i : Uuid)
      → s.encoding.uuids.parse q.id ≡ some i
      → (delete s i w).0 ≡ ok tt
      → delete_task s q w ≡ (ok (reply 204 Content.empty), (delete s i w).1)
  unfolding delete_task
  delete_task-ok i h k = rw h (ground arith)

  pub delete_task-err :
      (i : Uuid) (e : Error)
      → s.encoding.uuids.parse q.id ≡ some i
      → (delete s i w).0 ≡ err e
      → delete_task s q w ≡ (err e, (delete s i w).1)
  unfolding delete_task
  delete_task-err i e h k = rw h (ground arith)

  pub get_task_world :
      (i : Uuid) → s.encoding.uuids.parse q.id ≡ some i → (get_task s q w).1 ≡ (get s i w).1
  get_task_world i h = elim (Result-cases (get s i w).0) [
    | inl (t, k) ↦ rw (get_task-ok i t h k) refl
    | inr (e, k) ↦ rw (get_task-err i e h k) refl
  ]

  -- A deletion that succeeds.
  pub delete_task_inv :
      (r : Response)
      → (delete_task s q w).0 ≡ ok r
      → (i : Uuid) × (s.encoding.uuids.parse q.id ≡ some i)
        × ((delete s i w).0 ≡ ok tt)
        × ((delete_task s q w).1 ≡ (delete s i w).1)
        × (r ≡ reply 204 Content.empty)
  delete_task_inv r h = elim (Option-cases (s.encoding.uuids.parse q.id)) [
    | inl e ↦ let run = ap (λ x. x.0) (delete_task-invalid e) in absurd (cc)
    | inr (i, e) ↦ elim (Result-cases (delete s i w).0) [
      | inl (tt, k) ↦
          let run = delete_task-ok i e k in
          (i, e, k, rw run refl, ground (arith, ap (λ x. x.0) run))
      | inr (x, k) ↦ let run = ap (λ x. x.0) (delete_task-err i x e k) in absurd (cc)
    ]
  ]
