-- ===== src/Api/Exchanges.antt =====
-- Two requests about one task, the second right after the first.
use golang_staterpack.Prelude.{
  String, Bool, ◌≡◌, refl, sym, ap, ◌∙◌, ◌⊎◌, inl, inr, Option, none, some, ok, err, ==_refl, arith,
  subst,
}
use golang_staterpack.Errors.{failure}
use golang_staterpack.Model.{Uuid, Task, Bytes}
use mathlib.Core.Option.{some-injective}
use golang_staterpack.Libraries.Gorm.{Gorm, id_is, IsRetimed}
use golang_staterpack.Libraries.Redis.{Redis}
use golang_staterpack.Service.Defs.{World, Publisher, Encoding, Stamp, key, delete}
use golang_staterpack.Service.Defs
use golang_staterpack.Service.Coherence.{public, IsCoherent}
use golang_staterpack.Service.Creation.{create_stores}
use golang_staterpack.Service.Invalidation.{Changes-IsCoherent, Changes, delete_inv}
use golang_staterpack.Service.Reading.{create-IsCoherent}
use golang_staterpack.Transport.Defs.{Request, Response, Content, delete_task, create_task, reply}
use golang_staterpack.Transport.Answers.{create_task_inv}
use golang_staterpack.Transport.Reads.{shown, delete_task_inv}
use golang_staterpack.Api.Wiring.{task_service}
use golang_staterpack.Api.Requests.{IsServed, get_task_lem, service-IsSound}

module _ {D C B : Type 0} (g : Gorm D) (brk : Publisher B) (rdb : Redis C) (encoding : Encoding)
    (row : D → Uuid → Option Task) (entry : C → String → Option Bytes)
    (served : IsServed g rdb encoding row entry) (include_detail : Bool) (trace : String)
    (q : Request) (w : World D C B) (i : Uuid) (named : encoding.uuids.parse q.id ≡ some i)
    (coherent : IsCoherent (task_service g brk rdb encoding) row entry w) where
  abbrev response : Response
  response = shown include_detail trace (task_service g brk rdb encoding) q w

  abbrev Fails : Type 0
  Fails =
      (response.status ≡ 500)
      × ((text : String) × ((g.first (id_is i) w.db).0 ≡ err (failure text)))

  abbrev Shows : Task → Type 0
  Shows t = (u : Task) × (response ≡ reply 200 (Content.task u)) × (public u ≡ public t)

  -- `GET` of a task by its key.
  get_task_by_key :
      ((u : Task) × (row w.db i ≡ some u) × Shows u)
      ⊎ (response.status ≡ 404) × (row w.db i ≡ none)
      ⊎ Fails
  get_task_by_key =
      elim (get_task_lem g brk rdb encoding row entry served include_detail trace q w coherent) [
        | inl (unparsed, _, _) ↦ absurd (cc)
        | inr (j, at_j, answer, _, _) ↦
            let key : j ≡ i = some-injective j i (sym at_j ∙ named) in
            let at_key = ap (λ k. row w.db k) (sym key) in
            elim answer [
              | inl (t, u, shows, found, view) ↦ inl (u, at_key ∙ found, (t, shows, view))
              | inr (inl (status, absent)) ↦ inr (inl (status, at_key ∙ absent))
              | inr (inr (status, (text, fault))) ↦ inr (inr (status, (text, rw (← key) fault)))
            ]
      ]

  get_task-held : (t : Task) → row w.db i ≡ some t → Shows t ⊎ Fails
  get_task-held t held = elim get_task_by_key [
    | inl (u, found, shows) ↦ inl (subst Shows (some-injective u t (sym found ∙ held)) shows)
    | inr (inl (_, absent)) ↦ absurd (cc)
    | inr (inr fails) ↦ inr fails
  ]

  get_task-gone : row w.db i ≡ none → (response.status ≡ 404) ⊎ Fails
  get_task-gone absent = elim get_task_by_key [
    | inl (u, found, shows) ↦ absurd (cc)
    | inr (inl (status, _)) ↦ inl status
    | inr (inr fails) ↦ inr fails
  ]

-- A task that `POST /api/v1/tasks` has answered with 201, on a cache that agrees with the database,
-- is the answer of the next `GET /api/v1/tasks/:id` under its id, field by field but for `DeletedAt`
-- and for the precision of its two times; or else the database fails, and the answer is 500. It is
-- never 400 or 404.
pub get_task-create_task :
    {D C B : Type 0} (g : Gorm D) (brk : Publisher B) (rdb : Redis C) (encoding : Encoding)
    (row : D → Uuid → Option Task) (entry : C → String → Option Bytes)
    → IsServed g rdb encoding row entry
    → (include_detail : Bool) (trace : String) (fresh : Uuid) (stamp : Stamp) (q q' : Request)
      (w : World D C B) (t : Task)
    → let s = task_service g brk rdb encoding in
      let w' = (create_task s fresh stamp q w).1 in
      let response = shown include_detail trace s q' w' in
      IsCoherent s row entry w
      → (create_task s fresh stamp q w).0 ≡ ok (reply 201 (Content.task t))
      → q'.id ≡ encoding.uuids.string t.id
      → ((u stored : Task) × (response ≡ reply 200 (Content.task u))
          × (public u ≡ public stored)
          × IsRetimed t stored)
        ⊎ (response.status ≡ 500)
          × ((text : String) × ((g.first (id_is t.id) w'.db).0 ≡ err (failure text)))
get_task-create_task {D} {C} {B} g brk rdb encoding row entry served include_detail trace fresh
      stamp q q' w t coherent posted named =
    let s = task_service g brk rdb encoding in
    let sound = service-IsSound g brk rdb encoding row entry served in
    let w' = (create_task s fresh stamp q w).1 in
    let (input, u, _, created, world, shape) = create_task_inv s fresh stamp q w _ posted in
    let facts = create_stores s row sound.contract fresh stamp input w u brk created in
    let (stored, times, found) = facts.1 in
    let same : t ≡ u = ground arith in
    let key : t.id ≡ fresh = ap (λ (x : Task). x.id) same ∙ facts.2 in
    let db = ap (λ (x : World D C B). x.db) world in
    let held : row w'.db t.id ≡ some stored =
      ap (λ d. row d t.id) db
      ∙ ap (λ k. row (Defs.create s fresh stamp input w).1.db k) key
      ∙ found in
    elim (get_task-held g brk rdb encoding row entry served include_detail trace q' w' t.id
      (ap encoding.uuids.parse named ∙ served.uuids.parse-string t.id)
      (rw world (create-IsCoherent sound fresh stamp input w u coherent created)) stored held) [
        | inl (v, shows, view) ↦ inl (v, stored, shows, view, rw same times)
        | inr fails ↦ inr fails
      ]

-- After a `DELETE /api/v1/tasks/:id` that has been answered with 204, on a cache that agreed with the
-- database and where Redis has acknowledged the removal of the entry, the next `GET` of that id
-- answers 404, or 500 where the database fails: never with the task.
pub get_task-delete_task :
    {D C B : Type 0} (g : Gorm D) (brk : Publisher B) (rdb : Redis C) (encoding : Encoding)
    (row : D → Uuid → Option Task) (entry : C → String → Option Bytes)
    → IsServed g rdb encoding row entry
    → (include_detail : Bool) (trace : String) (q q' : Request) (w : World D C B) (i : Uuid)
    → let s = task_service g brk rdb encoding in
      let w' = (delete_task s q w).1 in
      let response = shown include_detail trace s q' w' in
      IsCoherent s row entry w
      → (delete_task s q w).0 ≡ ok (reply 204 Content.empty)
      → q'.id ≡ q.id
      → encoding.uuids.parse q.id ≡ some i
      → (rdb.del (key s i) w.cache).0 ≡ ok tt
      → (response.status ≡ 404)
        ⊎ (response.status ≡ 500)
          × ((text : String) × ((g.first (id_is i) w'.db).0 ≡ err (failure text)))
get_task-delete_task {D} {C} {B} g brk rdb encoding row entry served include_detail trace q q' w i
      coherent deleted same named dropped =
    let s = task_service g brk rdb encoding in
    let sound = service-IsSound g brk rdb encoding row entry served in
    let (j, at_j, done, world, _) = delete_task_inv s q w _ deleted in
    let key : j ≡ i = some-injective j i (sym at_j ∙ named) in
    let done_i : (delete s i w).0 ≡ ok tt = ap (λ k. (delete s k w).0) (sym key) ∙ done in
    let after : (delete_task s q w).1 ≡ (delete s i w).1 = world ∙ ap (λ k. (delete s k w).1) key in
    let (result, db, _) = delete_inv sound i w done_i in
    let (_, effect) = sound.contract.delete_ok i w.db result in
    get_task-gone g brk rdb encoding row entry served include_detail trace q' (delete_task s q w).1
      i (ap encoding.uuids.parse same ∙ named)
      (rw after (Changes-IsCoherent sound i w _ coherent dropped (Changes.deletes done_i)))
      (ap (λ (x : World D C B). row x.db i) after ∙ rw db (effect i ∙ rw (==_refl i) refl))
