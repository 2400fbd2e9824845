-- ===== src/Worker/Registration.antt =====
-- `Register` of internal/worker/task_summarizer.go, and the worker as the handler of a consumer.
use golang_staterpack.Prelude.{
  pos, String, ◌≡◌, refl, sym, ap, ◌∙◌, inl, List, [], ◌∷◌, ◌++◌, Memᴰ, Option, some, Result, ok,
  Call,
}
use mathlib.Core.List.Memᴰ.{append_left}
use golang_staterpack.Errors.{Error}
use golang_staterpack.Model.{Uuid, Task, Bytes}
use golang_staterpack.Libraries.Amqp.{Amqp, Context}
use golang_staterpack.Repository.Footprint.{Reworks, Reworks-IsFootprint}
use golang_staterpack.Repository.Contract.{IsContract}
use golang_staterpack.Repository.Footprint.{Moves, Moves-trans, Moves-weaken}
use golang_staterpack.Broker.Topology.{queue_task_events}
use golang_staterpack.Broker.Connection.{Broker, Consumer, ConsumerOptions, new_consumer, started}
use golang_staterpack.Broker.Consumer.{Channel}
use golang_staterpack.Broker.Sessions.{Event, run}
use golang_staterpack.Broker.Streams.{bodies, bodies-append, handled, unseen, run_lem}
use golang_staterpack.Worker.Defs.{TaskSummarizer, Process, handle}
use golang_staterpack.Worker.Footprint.{named_task, handle-Followed}

-- What `Register` asks for; `now` is the time that the duplicate markers record.
abbrev worker_options :
    {D C B L : Type 0} → TaskSummarizer D C B L → String → ConsumerOptions (Process D C B L)
worker_options w now = record {
  queue = queue_task_events;
  prefetch = pos 0;
  handler = some (handle w now);
}

ok_injective : {A : Type 0} (a b : A) → ◌≡◌ {A = Result Error A} (ok a) (ok b) → a ≡ b
ok_injective a b h = cc

module _ {N H D C B L : Type 0} (w : TaskSummarizer D C B L) (now : String) where
  unfoldable pub register : Call (Broker N H (Process D C B L)) Error (Consumer N (Process D C B L))
  register = new_consumer (worker_options w now)

  register-started :
      (b : Broker N H (Process D C B L)) (c : Consumer N (Process D C B L))
      → (register b).0 ≡ ok c
      → started b (worker_options w now) (handle w now) ≡ c
  unfolding register new_consumer
  register-started b c h = ok_injective _ c h

module _ {D C B L : Type 0} (w : TaskSummarizer D C B L) where
  abbrev pub Names : List Bytes → Uuid → Type 0
  Names bs j = (b : Bytes) × Memᴰ b bs × (named_task w b ≡ some j)

  -- A row stays, or one of the bodies names its task, which is still the same task.
  abbrev pub IsWorked : (D → Uuid → Option Task) → List Bytes → D → D → Type 0
  IsWorked row bs d d' = (j : Uuid) → Moves (Names bs j) (row d j) (row d' j)

module _ {D C B L : Type 0} (w : TaskSummarizer D C B L) (row : D → Uuid → Option Task)
    (contract : IsContract w.svc.repo row) (now : String) where
  handled-IsWorked :
      (bs : List Bytes) (q : Process D C B L)
      → IsWorked w row bs q.world.db (handled (handle w now) bs q).world.db
  handled-IsWorked [] q j = inl refl
  handled-IsWorked (b ∷ bs) q j =
      let q' = (handle w now b q).1 in
      Moves-trans (Names w (b ∷ bs) j) _ _ _
        (Moves-weaken (named_task w b ≡ some j) (Names w (b ∷ bs) j) _ _
          (λ e. (b, Memᴰ.head refl, e))
          (handle-Followed w (Reworks row) (Reworks-IsFootprint contract) now b q j))
        (Moves-weaken (Names w bs j) (Names w (b ∷ bs) j) _ _ (λ (x, at, e). (x, Memᴰ.tail at, e))
          (handled-IsWorked bs q' j))

-- The run of a registered consumer, as the worker on a part of what it is sent.
pub registered_run :
    {N H X K D C B L : Type 0} (amqp : Amqp N H X K) (deliveries : H → Channel K) (ctx : Context K)
    (w : TaskSummarizer D C B L) (now : String) (b : Broker N H (Process D C B L))
    (c : Consumer N (Process D C B L))
    → (register w now b).0 ≡ ok c
    → (events : List Event) (q : Process D C B L) (k : K)
    → (seen rest : List Bytes) × (bodies events ≡ seen ++ rest)
      × ((run amqp deliveries ctx c b.exchange events (q, k)).1.0 ≡ handled (handle w now) seen q)
registered_run {N} {D = D} {C} {B} {L} amqp deliveries ctx w now b c registered events q k =
    let r = run amqp deliveries ctx c b.exchange events (q, k) in
    let h = run_lem amqp deliveries ctx c b.exchange events (q, k) in
    let worker =
      ap (λ (x : Consumer N (Process D C B L)). x.handler)
        (sym (register-started w now b c registered)) in
    (
      bodies h.seen,
      bodies (unseen r.0),
      ap bodies h.split ∙ bodies-append h.seen (unseen r.0),
      h.handed ∙ ap (λ f. handled f (bodies h.seen) q) worker,
    )

-- Whatever a registered worker is sent, and however its channels break, a run of its consumer changes
-- no rows but those of the tasks that its deliveries name, and each of these is still the same task:
-- none is stored, deleted or renamed.
pub run-IsWorked :
    {N H X K D C B L : Type 0} (amqp : Amqp N H X K) (deliveries : H → Channel K) (ctx : Context K)
    (w : TaskSummarizer D C B L) (row : D → Uuid → Option Task)
    → IsContract w.svc.repo row
    → (now : String) (b : Broker N H (Process D C B L)) (c : Consumer N (Process D C B L))
    → (register w now b).0 ≡ ok c
    → (events : List Event) (q : Process D C B L) (k : K)
    → let (_, (q', _)) = run amqp deliveries ctx c b.exchange events (q, k) in
      IsWorked w row (bodies events) q.world.db q'.world.db
run-IsWorked amqp deliveries ctx w row contract now b c registered events q k =
    let (seen, rest, all, after) =
      registered_run amqp deliveries ctx w now b c registered events q k in
    λ j.
      rw (after, all)
        (Moves-weaken (Names w seen j) (Names w (seen ++ rest) j) _ _
          (λ (x, at, e). (x, append_left rest at, e))
          (handled-IsWorked w row contract now seen q j))
