-- ===== src/Service/Invalidation.antt =====
-- The calls that change a row and drop its cached copy.
use golang_staterpack.Prelude.{
  String, Bool, true, false, ◌≡◌, refl, sym, ◌∙◌, inl, Option, ok, if◌then◌else◌, ◌==◌, arith,
}
use golang_staterpack.Model.{Uuid, Time, Task, Bytes, pending}
use golang_staterpack.Repository.Contract.{Rewrites, restatus, claim}
use golang_staterpack.Repository.Effects.{unclaimed-Same}
use golang_staterpack.Service.Defs.{TaskService, World, key, delete, begin_processing, mark_pending}
use golang_staterpack.Service.Coherence.{
  IsCoherent, IsSound, IsCoherent-after_drop, IsCoherent-of_Fades,
}

module _ {D C B : Type 0} {s : TaskService D C B} {row : D → Uuid → Option Task}
    {entry : C → String → Option Bytes} (sound : IsSound s row entry) where
  pub delete_inv :
      (i : Uuid) (w : World D C B)
      → (delete s i w).0 ≡ ok tt
      → ((s.repo.delete i w.db).0 ≡ ok tt)
        × ((delete s i w).1.db ≡ (s.repo.delete i w.db).1)
        × ((delete s i w).1.cache ≡ (s.cache.del (key s i) w.cache).1)
  unfolding delete
  delete_inv i w h = (ground arith, ground arith, ground arith)

  pub mark_pending_inv :
      (i : Uuid) (w : World D C B)
      → (mark_pending s i w).0 ≡ ok tt
      → ((s.repo.update_status i pending "" w.db).0 ≡ ok tt)
        × ((mark_pending s i w).1.db ≡ (s.repo.update_status i pending "" w.db).1)
        × ((mark_pending s i w).1.cache ≡ (s.cache.del (key s i) w.cache).1)
  unfolding mark_pending
  mark_pending_inv i w h = (ground arith, ground arith, ground arith)

  pub begin_processing_inv :
      (i : Uuid) (w : World D C B) (b : Bool)
      → (begin_processing s i w).0 ≡ ok b
      → ((s.repo.mark_processing i w.db).0 ≡ ok b)
        × ((begin_processing s i w).1.db ≡ (s.repo.mark_processing i w.db).1)
        × ((begin_processing s i w).1.cache
            ≡ (if b then (s.cache.del (key s i) w.cache).1 else w.cache))
  unfolding begin_processing
  begin_processing_inv i w b h = (ground arith, ground arith, ground arith)

  pub Rewrites-frame :
      (i : Uuid) (f : Time → Task → Task) (d d' : D)
      → Rewrites row i f d d'
      → (j : Uuid) → (j == i) ≡ false
      → row d' j ≡ row d j
  Rewrites-frame i f d d' (now, effect) j e = effect j ∙ rw e

  pub delete-IsCoherent :
      (i : Uuid) (w : World D C B)
      → (s.cache.del (key s i) w.cache).0 ≡ ok tt
      → IsCoherent s row entry w
      → (delete s i w).0 ≡ ok tt
      → IsCoherent s row entry (delete s i w).1
  delete-IsCoherent i w acknowledged coherent h =
      let (result, db, cache) = delete_inv i w h in
      let (_, effect) = sound.contract.delete_ok i w.db result in
      IsCoherent-after_drop sound i w (delete s i w).1 (λ j e. rw (db, effect j, e))
        (rw cache (sound.redis.del_removes (key s i) w.cache))
        (rw cache (sound.redis.del_ok (key s i) w.cache acknowledged)) coherent

  pub mark_pending-IsCoherent :
      (i : Uuid) (w : World D C B)
      → (s.cache.del (key s i) w.cache).0 ≡ ok tt
      → IsCoherent s row entry w
      → (mark_pending s i w).0 ≡ ok tt
      → IsCoherent s row entry (mark_pending s i w).1
  mark_pending-IsCoherent i w acknowledged coherent h =
      let (result, db, cache) = mark_pending_inv i w h in
      let (_, effect) = sound.contract.update_status_ok i pending "" w.db result in
      IsCoherent-after_drop sound i w (mark_pending s i w).1
        (λ j e. rw db (Rewrites-frame i (restatus pending "") w.db _ effect j e))
        (rw cache (sound.redis.del_removes (key s i) w.cache))
        (rw cache (sound.redis.del_ok (key s i) w.cache acknowledged)) coherent

  pub begin_processing-IsCoherent :
      (i : Uuid) (w : World D C B) (b : Bool)
      → (s.cache.del (key s i) w.cache).0 ≡ ok tt
      → IsCoherent s row entry w
      → (begin_processing s i w).0 ≡ ok b
      → IsCoherent s row entry (begin_processing s i w).1
  begin_processing-IsCoherent i w true acknowledged coherent h =
      let (result, db, cache) = begin_processing_inv i w true h in
      let (_, effect) = sound.contract.mark_processing_ok i w.db true result in
      IsCoherent-after_drop sound i w (begin_processing s i w).1
        (λ j e. rw db (Rewrites-frame i claim w.db _ effect j e))
        (rw cache (sound.redis.del_removes (key s i) w.cache))
        (rw cache (sound.redis.del_ok (key s i) w.cache acknowledged)) coherent
  begin_processing-IsCoherent i w false acknowledged coherent h =
      let (result, db, cache) = begin_processing_inv i w false h in
      let (answer, effect) = sound.contract.mark_processing_ok i w.db false result in
      IsCoherent-of_Fades sound w (begin_processing s i w).1
        (λ j. rw db (unclaimed-Same row i w.db _ (sym answer) effect j)) (λ k. rw cache (inl refl))
        coherent

-- A call that changes the row of task `i`, and that succeeds.
pub data Changes {D C B : Type 0} (s : TaskService D C B) (i : Uuid) (w : World D C B)
    : World D C B → Type 0 where
  deletes : (delete s i w).0 ≡ ok tt → Changes s i w (delete s i w).1
  resets : (mark_pending s i w).0 ≡ ok tt → Changes s i w (mark_pending s i w).1
  begins : (b : Bool) → (begin_processing s i w).0 ≡ ok b → Changes s i w (begin_processing s i w).1

-- `Delete`, `BeginProcessing` and `MarkPending` keep the cache in agreement with the database when
-- they succeed and Redis acknowledges the removal of the task's entry.
pub Changes-IsCoherent :
    {D C B : Type 0} {s : TaskService D C B} {row : D → Uuid → Option Task}
    {entry : C → String → Option Bytes}
    → IsSound s row entry
    → (i : Uuid) (w w' : World D C B) → IsCoherent s row entry w
    → (s.cache.del (key s i) w.cache).0 ≡ ok tt
    → Changes s i w w'
    → IsCoherent s row entry w'
Changes-IsCoherent sound i w w' coherent acknowledged (Changes.deletes h) =
    delete-IsCoherent sound i w acknowledged coherent h
Changes-IsCoherent sound i w w' coherent acknowledged (Changes.resets h) =
    mark_pending-IsCoherent sound i w acknowledged coherent h
Changes-IsCoherent sound i w w' coherent acknowledged (Changes.begins b h) =
    begin_processing-IsCoherent sound i w b acknowledged coherent h
