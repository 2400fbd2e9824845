-- ===== src/Service/Footprint.antt =====
-- The database before and after the service's calls, whatever they answer, in any relation that its
-- own calls of the repository keep.
use golang_staterpack.Prelude.{
  String, Bool, Option, some, Call, attempt, Result, ok, err, ◌>>=◌, ◌>>◌, pure, none, map_err,
  str_eq, ◌≡◌, refl, Steps, Steps-even, Steps->>=, Steps-if, Steps-attempt, if◌then◌else◌, arith,
}
use Prim.Native.String.{◌++◌}
use golang_staterpack.Errors.{Error, Fault, wrap}
use golang_staterpack.Model.{Uuid, Bytes, Task, pending, processing, completed}
use golang_staterpack.Repository.Footprint.{IsFootprint}
use golang_staterpack.Service.Defs.{
  TaskService, World, key, on_db, on_cache, logged, cache_set, invalidate, begin_processing,
  mark_pending, apply_summary, get, load, serve, cached_task, reset_stranded, republish_created,
  publish_created, created_event, lift, Stamp,
}

module _ {D C B : Type 0} (s : TaskService D C B) (R : Option Uuid → D → D → Type 0)
    (foot : IsFootprint s.repo R) (i : Uuid) where
  abbrev watched : World D C B → D
  watched w = w.db

  abbrev Followed : {A : Type 0} → Call (World D C B) Error A → Type 0
  Followed m = Steps watched (R (some i)) m

  still :
      {A : Type 0} (m : Call (World D C B) Error A)
      → ((w : World D C B) → (m w).1.db ≡ w.db)
      → Followed m
  still m even = Steps-even watched _ (foot.history (some i)) m even

  chained :
      {A A' : Type 0} (m : Call (World D C B) Error A) (f : A → Call (World D C B) Error A')
      → Followed m
      → ((a : A) → Followed (f a))
      → Followed (m >>= f)
  chained m f first rest = Steps->>= watched _ (foot.history (some i)) m f first rest

  invalidate-Followed : Followed (invalidate s i)
  unfolding invalidate
  invalidate-Followed = still (logged (on_cache (s.cache.del (key s i)))) (λ w. refl)

  cache_set-Followed : (t : Task) → Followed (cache_set s (key s i) t)
  unfolding cache_set
  cache_set-Followed t = still (cache_set s (key s i) t) (λ w. ground arith)

  pub mark_pending-Followed : Followed (mark_pending s i)
  unfolding mark_pending
  mark_pending-Followed =
      chained (on_db (s.repo.update_status i pending "")) (λ _. invalidate s i)
        (λ w. foot.updates_status i pending "" w.db) (λ _. invalidate-Followed)

  answered : Bool → Call (World D C B) Error Bool
  answered claimed = do if claimed then invalidate s i else pure tt; pure claimed

  answered-Followed : (claimed : Bool) → Followed (answered claimed)
  unfolding answered
  answered-Followed claimed =
      chained (if claimed then invalidate s i else pure tt) (λ _. pure claimed)
        (Steps-if watched _ (foot.history (some i)) claimed (invalidate s i) (pure tt)
          invalidate-Followed (still (pure tt) (λ w. refl)))
        (λ _. still (pure claimed) (λ w. refl))

  pub begin_processing-Followed : Followed (begin_processing s i)
  unfolding begin_processing answered
  begin_processing-Followed =
      chained (on_db (s.repo.mark_processing i)) answered (λ w. foot.marks_processing i w.db)
        answered-Followed

  refreshed : Result Error Task → Call (World D C B) Error (Unit {0})
  refreshed r = elim r [ ok task ↦ cache_set s (key s i) task | err e ↦ pure tt ]

  refreshed-Followed : (r : Result Error Task) → Followed (refreshed r)
  unfolding refreshed
  refreshed-Followed (ok t) = cache_set-Followed t
  refreshed-Followed (err e) = still (pure tt) (λ w. refl)

  pub apply_summary-Followed : (summary : String) → Followed (apply_summary s i summary)
  unfolding apply_summary refreshed
  apply_summary-Followed summary =
      chained (on_db (s.repo.update_status i completed summary))
        (λ _. attempt (on_db (s.repo.get_by_id i)) refreshed)
        (λ w. foot.updates_status i completed summary w.db)
        (λ _.
          Steps-attempt watched _ (foot.history (some i)) (on_db (s.repo.get_by_id i)) refreshed
            (λ w. foot.gets (some i) i w.db) refreshed-Followed)

  load-Followed : Followed (load s i)
  unfolding load
  load-Followed =
      chained (on_db (s.repo.get_by_id i)) (λ task. cache_set s (key s i) task >> pure task)
        (λ w. foot.gets (some i) i w.db)
        (λ task.
          chained (cache_set s (key s i) task) (λ _. pure task) (cache_set-Followed task)
            (λ _. still (pure task) (λ w. refl)))

  serve-Followed : (o : Option Task) → Followed (serve s i o)
  unfolding serve
  serve-Followed (some t) = still (pure t) (λ w. refl)
  serve-Followed none = load-Followed

  pub get-Followed : Followed (get s i)
  unfolding get
  get-Followed =
      Steps-attempt watched _ (foot.history (some i)) (on_cache (s.cache.get (key s i)))
        (λ r. serve s i (cached_task s.encoding.tasks r))
        (Steps-even watched _ (foot.history (some i)) {A = Bytes}
          (on_cache {E = Fault} (s.cache.get (key s i))) (λ w. refl))
        (λ r. serve-Followed (cached_task s.encoding.tasks r))

module _ {D C B : Type 0} (s : TaskService D C B) (R : Option Uuid → D → D → Type 0)
    (foot : IsFootprint s.repo R) (t : Task) where
  reset_stranded-Followed : Followed s R foot t.id (reset_stranded s t)
  reset_stranded-Followed =
      Steps-if (watched s R foot t.id) _ (foot.history (some t.id)) (str_eq t.status processing)
        (map_err (wrap ("reset stranded task " ++ s.encoding.uuids.string t.id))
          (mark_pending s t.id))
        (pure tt) (λ w. mark_pending-Followed s R foot t.id w)
        (still s R foot t.id (pure tt) (λ w. refl))

  event_body : Stamp → Call (World D C B) Error Bytes
  event_body stamp =
      map_err (wrap ("marshal task.created for " ++ s.encoding.uuids.string t.id))
        (lift (created_event s stamp t))

  event_body-Followed : (stamp : Stamp) → Followed s R foot t.id (event_body stamp)
  unfolding event_body
  event_body-Followed stamp = still s R foot t.id (event_body stamp) (λ w. refl)

  pub republish_created-Followed :
      (stamp : Stamp) → Followed s R foot t.id (republish_created s stamp t)
  unfolding republish_created event_body
  republish_created-Followed stamp =
      chained s R foot t.id (reset_stranded s t) (λ _. event_body stamp >>= publish_created s)
        reset_stranded-Followed
        (λ _.
          chained s R foot t.id (event_body stamp) (publish_created s) (event_body-Followed stamp)
            (λ body. still s R foot t.id (publish_created s body) (λ w. refl)))
