-- ===== src/Service/Reading.antt =====
-- What a read of a task finds after the calls that write it.
use golang_staterpack.Prelude.{
  String, ◌≡◌, refl, sym, ap, ◌∙◌, inl, inr, Option, ok, err, Result-cases, Option-cases,
  Bool-cases, ◌==◌, arith, ==_iff,
}
use golang_staterpack.Errors.{Error}
use golang_staterpack.Model.{Uuid, Task, Bytes}
use golang_staterpack.Libraries.Gorm.{Same}
use golang_staterpack.Service.Defs.{
  TaskService, World, CreateTaskInput, Stamp, key, get, create, cached_task, cache_set, new_task,
}
use golang_staterpack.Service.Coherence.{IsCoherent, IsSound}
use golang_staterpack.Service.Creation.{create_inv}
use golang_staterpack.Service.Caching.{
  asked, IsCoherent-after_get, get_agrees, cache_set-ok, get_inv,
}

module _ {D C B : Type 0} {s : TaskService D C B} {row : D → Uuid → Option Task}
    {entry : C → String → Option Bytes} (sound : IsSound s row entry) where
  pub cache_set-db : (k : String) (t : Task) (w : World D C B) → (cache_set s k t w).1.db ≡ w.db
  unfolding cache_set
  cache_set-db k t w = ground arith

  -- An error of `Get` is the database's.
  pub get_err_inv :
      (i : Uuid) (w : World D C B) (e : Error)
      → (get s i w).0 ≡ err e
      → ((s.repo.get_by_id i w.db).0 ≡ err e) × ((get s i w).1 ≡ asked s i w)
  unfolding get
  get_err_inv i w e h =
      elim (Option-cases (cached_task s.encoding.tasks (s.cache.get (key s i) w.cache).0)) [
        | inl miss ↦ elim (Result-cases (s.repo.get_by_id i w.db).0) [
          | inl (t, q) ↦ absurd (ground (arith, cache_set-ok sound (key s i) t (asked s i w)))
          | inr (x, q) ↦ (ground arith, ground arith)
        ]
        | inr (u, hit) ↦ absurd (ground arith)
      ]

  -- A row that was inserted was not in the cache.
  pub create-IsCoherent :
      (fresh : Uuid) (stamp : Stamp) (input : CreateTaskInput) (w : World D C B) (t : Task)
      → IsCoherent s row entry w
      → (create s fresh stamp input w).0 ≡ ok t
      → IsCoherent s row entry (create s fresh stamp input w).1
  create-IsCoherent fresh stamp input w t coherent h j v (raw, shown, decoded) =
      let (_, stored, db, cache) = create_inv s fresh stamp input w t h in
      let (free, (kept, (_, _, times), effect), _) =
        sound.contract.create_ok fresh (new_task input) t w.db refl stored in
      let same_id : kept.id ≡ t.id = ap (λ (x : Task). x.id) times in
      let before = ap (λ c. entry c (key s j)) (sym cache) ∙ shown in
      let (u, held, same) = coherent j v (raw, before, decoded) in
      elim (Bool-cases (j == kept.id)) [
        | inl e ↦
            let same_key = (==_iff j kept.id).0 e ∙ same_id in
            let taken = ap (λ k. row w.db k) (sym same_key) ∙ held in absurd (cc)
        | inr e ↦ (u, rw db (effect j ∙ rw e held), same)
      ]

  -- `Get` leaves the cache in agreement with the database whatever it answers.
  pub get-IsCoherent :
      (i : Uuid) (w : World D C B) → IsCoherent s row entry w → IsCoherent s row entry (get s i w).1
  get-IsCoherent i w coherent = elim (Result-cases (get s i w).0) [
    | inl (t, h) ↦ (get_agrees sound i w t coherent h).1
    | inr (e, h) ↦ rw (get_err_inv i w e h).1 (IsCoherent-after_get sound i w coherent)
  ]

  -- `Get` changes no row.
  pub get-Same : (i : Uuid) (w : World D C B) → Same row w.db (get s i w).1.db
  get-Same i w j = elim (Result-cases (get s i w).0) [
    | inl (t, h) ↦ elim (get_inv sound i w t h) [
      | inl (shows, after) ↦ rw after refl
      | inr (found, after) ↦ rw after (
          ap (λ d. row d j) (cache_set-db (key s i) t (asked s i w))
          ∙ sound.contract.get_reads i w.db j)
    ]
    | inr (e, h) ↦ rw (get_err_inv i w e h).1 (sound.contract.get_reads i w.db j)
  ]
