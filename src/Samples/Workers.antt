-- ===== src/Samples/Workers.antt =====
-- Workers over the sample service, with a model that answers and one that does not.
use golang_staterpack.Prelude.{
  ℕ, suc, String, true, ◌≡◌, ◌≢◌, str_eq, eq_iff, refl, Option, some, ok, err, pos, List,
}
use golang_staterpack.Errors.{Error}
use golang_staterpack.Model.{Task, Bytes}
use golang_staterpack.Broker.Dedupe.{Dedupe}
use golang_staterpack.Worker.Defs.{Process, TaskSummarizer}
use golang_staterpack.Llm.Defs.{Client}
use golang_staterpack.Worker.Outcomes.{IsEvent}
use golang_staterpack.Samples.Database.{Store}
use golang_staterpack.Samples.Memory.{Memory, memory}
use golang_staterpack.Samples.Services.{service, world_with, envelope, payload}

-- The state of the provider is the number of calls that it has had.
abbrev pub answering : Client ℕ
answering = record {
  complete = λ prompt n. (ok "short", suc n);
  summarize = λ text n. (ok "short", suc n);
  model = "sample";
}

abbrev pub overloaded : Client ℕ
overloaded = record {
  complete = λ prompt n. (err (Error.external "overloaded"), suc n);
  summarize = λ text n. (err (Error.external "overloaded"), suc n);
  model = "sample";
}

abbrev pub dedupe : Dedupe Memory
dedupe = record { client = memory; ttl = pos 1000 }

abbrev pub worker : Client ℕ → TaskSummarizer Store Memory (List Bytes) ℕ
worker llm = record { svc = service; llm = llm; dedupe = some dedupe }

abbrev pub Run : Type 0
Run = Process Store Memory (List Bytes) ℕ

abbrev pub run_with : Option Task → Run
run_with held = record { world = world_with held; llm = 0 }

pub worker-IsEvent : (llm : Client ℕ) → IsEvent (worker llm) "an event" envelope payload
worker-IsEvent llm = record { envelope = refl; type = refl; payload = refl }

abbrev pub event_id : String
event_id = "e1"

pub known_id : event_id ≢ ""
known_id h = let same : str_eq event_id "" ≡ true = (eq_iff event_id "").1 h in absurd (cc)
