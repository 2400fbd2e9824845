-- ===== src/System/Defs.antt =====
-- What reaches the parts that cmd/api/main.go connects: requests for the service, deliveries for the
-- worker, and the sweeps of the reconciler.
use golang_staterpack.Prelude.{ℕ, ℤ, String, List, [], ◌∷◌}
use golang_staterpack.Model.{Uuid, Time, Bytes}
use golang_staterpack.Service.Defs.{CreateTaskInput, Stamp, create, get, list, delete}
use golang_staterpack.Worker.Defs.{TaskSummarizer, Process, on_world, handle}
use golang_staterpack.Reconciler.Defs.{Options, stale_tasks, sweep}

pub data Operation : Type 0 where
  posts : Uuid → Stamp → CreateTaskInput → Operation
  shows : Uuid → Operation
  lists : ℤ → ℤ → Operation
  removes : Uuid → Operation
  delivers : String → Bytes → Operation
  sweeps : Options → Time → (ℕ → Stamp) → Operation

module _ {D C B L : Type 0} (w : TaskSummarizer D C B L) where
  unfoldable pub perform : Operation → Process D C B L → Process D C B L
  perform (posts fresh stamp input) q = (on_world (create w.svc fresh stamp input) q).1
  perform (shows i) q = (on_world (get w.svc i) q).1
  perform (lists limit offset) q = (on_world (list w.svc limit offset) q).1
  perform (removes i) q = (on_world (delete w.svc i) q).1
  perform (delivers now body) q = (handle w now body q).1
  perform (sweeps o now stamps) q = (on_world (sweep (stale_tasks w.svc) o now stamps) q).1

  unfoldable pub perform_all : List Operation → Process D C B L → Process D C B L
  perform_all [] q = q
  perform_all (o ∷ os) q = perform_all os (perform o q)
