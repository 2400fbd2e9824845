-- ===== src/System/Calls.antt =====
-- Every operation of the program is a list of calls of the repository, as far as the database is
-- concerned.
use golang_staterpack.Prelude.{
  ℕ, suc, ◌+◌, ◌-ℤ◌, ◌≡◌, refl, sym, inl, inr, List, [], ◌∷◌, none, ok, err, Result-cases, ◌==◌,
  arith, subst,
}
use golang_staterpack.Errors.{Error}
use golang_staterpack.Model.{Uuid, Time, Task, before_create}
use golang_staterpack.Repository.Claims.{RepositoryCall, after, one_if}
use golang_staterpack.Repository.Histories.{removals, creations, savings}
use golang_staterpack.Repository.Footprint.{IsFootprint}
use golang_staterpack.Repository.Traces.{
  Makes, Makes-none, Makes-one, Makes-chain, Works, Works-IsFootprint, nowhere,
}
use golang_staterpack.Service.Defs.{
  TaskService, World, Stamp, CreateTaskInput, create, list, delete, find_stale, republish_created,
  invalidate, new_task, validate,
}
use golang_staterpack.Service.Footprint.{get-Followed, republish_created-Followed}
use golang_staterpack.Worker.Defs.{TaskSummarizer, Process}
use golang_staterpack.Worker.Footprint.{handle-Followed}
use golang_staterpack.Reconciler.Defs.{Options, stale_tasks, rescue, sweep, tally}
use golang_staterpack.System.Defs.{
  Operation, posts, shows, lists, removes, delivers, sweeps, perform, perform_all,
}

-- 1 if the operation is a DELETE of task `i`, and 1 if it is a POST that has drawn `i` as its UUID.
abbrev pub removal : Operation → Uuid → ℕ
removal (removes j) i = one_if (j == i)
removal _ i = 0

abbrev pub post : Operation → Uuid → ℕ
post (posts fresh stamp input) i = one_if (fresh == i)
post _ i = 0

unfoldable pub removal_count : List Operation → Uuid → ℕ
removal_count [] i = 0
removal_count (o ∷ os) i = removal o i + removal_count os i

unfoldable pub post_count : List Operation → Uuid → ℕ
post_count [] i = 0
post_count (o ∷ os) i = post o i + post_count os i

module _ {D C B : Type 0} (s : TaskService D C B) where
  abbrev Worked : World D C B → World D C B → Type 0
  Worked w w' = Works s.repo none w.db w'.db

  foot : IsFootprint s.repo (Works s.repo)
  foot = Works-IsFootprint s.repo

  create_db :
      (fresh : Uuid) (stamp : Stamp) (input : CreateTaskInput) (w : World D C B)
      → validate input ≡ ok tt
      → (create s fresh stamp input w).1.db ≡ (s.repo.create fresh (new_task input) w.db).1
  unfolding create
  create_db fresh stamp input w h =
      elim (Result-cases (s.repo.create fresh (new_task input) w.db).0) [
        | inl (t, e) ↦ ground arith
        | inr (x, e) ↦ ground arith
      ]

  refused_db :
      (fresh : Uuid) (stamp : Stamp) (input : CreateTaskInput) (w : World D C B) (x : Error)
      → validate input ≡ err x
      → (create s fresh stamp input w).1.db ≡ w.db
  unfolding create
  refused_db fresh stamp input w x h = ground arith

  create-Makes :
      (fresh : Uuid) (stamp : Stamp) (input : CreateTaskInput) (w : World D C B)
      → Makes s.repo nowhere
          (post (posts fresh stamp input))
          w.db
          (create s fresh stamp input w).1.db
  unfolding removals creations savings after before_create
  create-Makes fresh stamp input w = elim (Result-cases (validate input)) [
    | inl (tt, e) ↦
        subst (Makes s.repo nowhere (post (posts fresh stamp input)) w.db)
          (sym (create_db fresh stamp input w e))
          (Makes-one s.repo _ _ (RepositoryCall.creates fresh (new_task input) refl) w.db
            (λ i. (refl, omega arith, refl)))
    | inr (x, e) ↦
        subst (Makes s.repo nowhere (post (posts fresh stamp input)) w.db)
          (sym (refused_db fresh stamp input w x e))
          (Makes-none s.repo (post (posts fresh stamp input)) w.db)
  ]

  delete_db : (i : Uuid) (w : World D C B) → (delete s i w).1.db ≡ (s.repo.delete i w.db).1
  unfolding delete invalidate
  delete_db i w = elim (Result-cases (s.repo.delete i w.db).0) [
    | inl (t, e) ↦ ground arith
    | inr (x, e) ↦ ground arith
  ]

  delete-Makes :
      (i : Uuid) (w : World D C B)
      → Makes s.repo (removal (removes i)) nowhere w.db (delete s i w).1.db
  unfolding removals creations savings after
  delete-Makes i w =
      subst (Makes s.repo (removal (removes i)) nowhere w.db) (sym (delete_db i w)) (
        Makes-one s.repo _ _ (RepositoryCall.deletes i) w.db
          (λ j. (omega arith, omega arith, refl)))

  rescue-Worked :
      (stamps : ℕ → Stamp) (k : ℕ) (ts : List Task) (n : ℕ) (w : World D C B)
      → Worked w (rescue (stale_tasks s) stamps k ts n w).1
  unfolding rescue
  rescue-Worked stamps k [] n w = (foot.history none).here w.db
  rescue-Worked stamps k (t ∷ ts) n w =
      let (r, w') = republish_created s (stamps k) t w in
      (foot.history none).then_on w.db w'.db _
        (republish_created-Followed s (Works s.repo) foot t (stamps k) w)
        (rescue-Worked stamps (suc k) ts (tally r n) w')

  sweep-Worked :
      (o : Options) (now : Time) (stamps : ℕ → Stamp) (w : World D C B)
      → Worked w (sweep (stale_tasks s) o now stamps w).1
  unfolding sweep find_stale
  sweep-Worked o now stamps w =
      let found =
        s.repo.find_stale (now -ℤ o.pending_grace) (now -ℤ o.processing_timeout) o.batch_size
          w.db in
      let first =
        foot.finds_stale none (now -ℤ o.pending_grace) (now -ℤ o.processing_timeout) o.batch_size
          w.db in
      elim (Result-cases found.0) [
        | inl (ts, e) ↦
            let w' : World D C B = record w { db = found.1 } in
            let same : (sweep (stale_tasks s) o now stamps w).1
                ≡ (rescue (stale_tasks s) stamps 0 ts 0 w').1 =
              ground arith in
            subst (Worked w) (sym same)
              ((foot.history none).then_on w.db found.1 _ first (rescue-Worked stamps 0 ts 0 w'))
        | inr (x, e) ↦
            let same : (sweep (stale_tasks s) o now stamps w).1.db ≡ found.1 = ground arith in
            subst (Works s.repo none w.db) (sym same) first
      ]

module _ {D C B L : Type 0} (w : TaskSummarizer D C B L) where
  perform-Makes :
      (o : Operation) (q : Process D C B L)
      → Makes w.svc.repo (removal o) (post o) q.world.db (perform w o q).world.db
  unfolding perform list removals creations savings after
  perform-Makes (posts fresh stamp input) q = create-Makes w.svc fresh stamp input q.world
  perform-Makes (shows i) q = get-Followed w.svc (Works w.svc.repo) (foot w.svc) i q.world
  perform-Makes (lists limit offset) q =
      Makes-one w.svc.repo nowhere nowhere (RepositoryCall.lists _ _) q.world.db
        (λ j. (refl, omega arith, refl))
  perform-Makes (removes i) q = delete-Makes w.svc i q.world
  perform-Makes (delivers now body) q = handle-Followed w (Works w.svc.repo) (foot w.svc) now body q
  perform-Makes (sweeps o now stamps) q = sweep-Worked w.svc o now stamps q.world

  -- Whatever requests, deliveries and sweeps the program works on, and whatever becomes of each, what
  -- they have done to the database is a list of calls of the repository, among which there is one
  -- deletion of a task for each DELETE of it, at most one creation for each POST that has drawn its
  -- UUID, and no `Update`.
  pub perform_all-Makes :
      (os : List Operation) (q : Process D C B L)
      → Makes w.svc.repo (removal_count os) (post_count os) q.world.db (perform_all w os q).world.db
  unfolding perform_all removal_count post_count
  perform_all-Makes [] q = Makes-none w.svc.repo nowhere q.world.db
  perform_all-Makes (o ∷ os) q =
      Makes-chain w.svc.repo (removal o) (removal_count os) (post o) (post_count os) q.world.db
        (perform w o q).world.db _ (perform-Makes o q) (perform_all-Makes os (perform w o q))
