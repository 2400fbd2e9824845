-- ===== src/Api/Requests.antt =====
-- Requests to the task service as `run` of cmd/api/main.go wires it, one after the other.
use golang_staterpack.Prelude.{
  String, Bool, true, ◌≡◌, refl, ◌⊎◌, inl, inr, Option, none, some, err, Result-cases, Option-cases,
  arith,
}
use golang_staterpack.Errors.{Error, failure, missing, not_found, is}
use golang_staterpack.Model.{Uuid, Task, Bytes}
use golang_staterpack.Libraries.Gorm.{Gorm, IsTable, id_is, Same}
use golang_staterpack.Libraries.Redis.{Redis, IsCache}
use golang_staterpack.Libraries.Uuid.{IsUuids}
use golang_staterpack.Libraries.Json.{Decodes}
use golang_staterpack.Repository.Defs.{get_by_id}
use golang_staterpack.Repository.Refines.{task_repository-IsContract}
use golang_staterpack.Service.Defs.{TaskService, World, Publisher, Encoding, get}
use golang_staterpack.Service.Coherence.{public, IsCoherent, IsSound}
use golang_staterpack.Service.Caching.{get_agrees}
use golang_staterpack.Service.Reading.{get_err_inv, get-IsCoherent, get-Same}
use golang_staterpack.Transport.Defs.{Request, Response, Content, get_task, reply}
use golang_staterpack.Transport.Reads.{
  IsInternal, internal-status, invalid_id-status, shown, get_task-invalid, get_task-ok,
  get_task-err,
}
use golang_staterpack.Api.Wiring.{task_service}

-- An error of `GetByID` over GORM, with its cause.
get_by_id_fault :
    {D : Type 0} (g : Gorm D) (i : Uuid) (d : D) (e : Error)
    → (get_by_id g i d).0 ≡ err e
    → IsInternal e
      × ((is e not_found ≡ true)
          ⊎ ((text : String) × ((g.first (id_is i) d).0 ≡ err (failure text))))
unfolding get_by_id
get_by_id_fault g i d e h = elim (Result-cases (g.first (id_is i) d).0) [
  | inl (t, q) ↦ absurd (ground arith)
  | inr (missing text, q) ↦
      (record { plain = ground arith; valid = ground arith }, inl (ground arith))
  | inr (failure text, q) ↦ (record { plain = ground arith; valid = ground arith }, inr (text, q))
]

-- The libraries behind the service behave as documented.
pub record IsServed {D C : Type 0} (g : Gorm D) (rdb : Redis C) (encoding : Encoding)
    (row : D → Uuid → Option Task) (entry : C → String → Option Bytes) : Type 0 where
  pub table : IsTable g row
  pub redis : IsCache rdb entry
  pub uuids : IsUuids encoding.uuids
  pub tasks : Decodes encoding.tasks public

module _ {D C B : Type 0} (g : Gorm D) (brk : Publisher B) (rdb : Redis C) (encoding : Encoding)
    (row : D → Uuid → Option Task) (entry : C → String → Option Bytes)
    (served : IsServed g rdb encoding row entry) where
  abbrev svc : TaskService D C B
  svc = task_service g brk rdb encoding

  pub service-IsSound : IsSound svc row entry
  service-IsSound = record {
    contract = task_repository-IsContract g row served.table;
    redis = served.redis;
    uuids = served.uuids;
    tasks = served.tasks;
  }

  module _ (include_detail : Bool) (trace : String) (q : Request) (w : World D C B)
      (coherent : IsCoherent svc row entry w) where
    abbrev response : Response
    response = shown include_detail trace svc q w

    abbrev w' : World D C B
    w' = (get_task svc q w).1

    -- The task is shown as its row is.
    abbrev pub Shown : Uuid → Type 0
    Shown i =
        (t u : Task) × (response ≡ reply 200 (Content.task t))
        × (row w.db i ≡ some u)
        × (public t ≡ public u)

    abbrev pub Failed : Uuid → Type 0
    Failed i =
        (response.status ≡ 500)
        × ((text : String) × ((g.first (id_is i) w.db).0 ≡ err (failure text)))

    get_task-answer :
        (i : Uuid)
        → encoding.uuids.parse q.id ≡ some i
        → Shown i ⊎ ((response.status ≡ 404) × (row w.db i ≡ none)) ⊎ Failed i
    get_task-answer i h = elim (Result-cases (get svc i w).0) [
      | inl (t, k) ↦
          let ((u, held, same), _) = get_agrees service-IsSound i w t coherent k in
          inl (t, u, rw (get_task-ok svc q w i t h k) refl, held, same)
      | inr (e, k) ↦
          let (failed, _) = get_err_inv service-IsSound i w e k in
          let (internal, cause) = get_by_id_fault g i w.db e failed in
          let run = get_task-err svc q w i e h k in
          elim (internal-status include_detail trace e internal) [
            | inl (absent, status) ↦
                inr (inl (rw run status, service-IsSound.contract.get_err i w.db e failed absent))
            | inr (found, status) ↦ elim cause [
              | inl absent ↦ absurd (cc)
              | inr (text, fault) ↦ inr (inr (rw run status, (text, fault)))
            ]
          ]
    ]

    get_task-frame :
        (i : Uuid)
        → encoding.uuids.parse q.id ≡ some i
        → Same row w.db w'.db × IsCoherent svc row entry w'
    unfolding get_task
    get_task-frame i h =
        let same = get-Same service-IsSound i w in
        let after = get-IsCoherent service-IsSound i w coherent in
        elim (Result-cases (get svc i w).0) [
          | inl (t, k) ↦ let run = get_task-ok svc q w i t h k in (rw run same, rw run after)
          | inr (e, k) ↦ let run = get_task-err svc q w i e h k in (rw run same, rw run after)
        ]

-- `GET /api/v1/tasks/:id` on a cache that agrees with the database: an id that is no UUID is answered
-- with 400, and nothing is touched. For any other id the answer is 200 with the task as its row is,
-- less `DeletedAt`; or 404, and then there is no such row; or 500, and then the database has failed.
-- No row changes, and the cache agrees with the database afterwards.
pub get_task_lem :
    {D C B : Type 0} (g : Gorm D) (brk : Publisher B) (rdb : Redis C) (encoding : Encoding)
    (row : D → Uuid → Option Task) (entry : C → String → Option Bytes)
    → IsServed g rdb encoding row entry
    → (include_detail : Bool) (trace : String) (q : Request) (w : World D C B)
    → let s = task_service g brk rdb encoding in
      let response = shown include_detail trace s q w in
      let w' = (get_task s q w).1 in
      IsCoherent s row entry w
      → (encoding.uuids.parse q.id ≡ none) × (response.status ≡ 400) × (w' ≡ w)
        ⊎ ((i : Uuid) × (encoding.uuids.parse q.id ≡ some i)
            × (((t u : Task) × (response ≡ reply 200 (Content.task t))
                  × (row w.db i ≡ some u)
                  × (public t ≡ public u))
                ⊎ (response.status ≡ 404) × (row w.db i ≡ none)
                ⊎ (response.status ≡ 500)
                  × ((text : String) × ((g.first (id_is i) w.db).0 ≡ err (failure text))))
            × Same row w.db w'.db
            × IsCoherent s row entry w')
get_task_lem g brk rdb encoding row entry served include_detail trace q w coherent =
    elim (Option-cases (encoding.uuids.parse q.id)) [
      | inl h ↦
          let run = get_task-invalid (task_service g brk rdb encoding) q w h in
          inl (h, rw run (invalid_id-status include_detail trace "invalid task id"), rw run refl)
      | inr (i, h) ↦
          let (same, after) =
            get_task-frame g brk rdb encoding row entry served include_detail trace q w coherent i
              h in
          inr (
            i,
            h,
            get_task-answer g brk rdb encoding row entry served include_detail trace q w coherent i
                h,
            same,
            after,
          )
    ]
