-- ===== src/Event.antt =====
-- internal/event/event.go.
pub mod RoundTrip
use golang_staterpack.Prelude.{String, Result, ok, err, map_result}
use golang_staterpack.Errors.{Error, Fault, from_fault}
use golang_staterpack.Model.{Uuid, Time, Bytes}
use golang_staterpack.Libraries.Json.{Codec}

abbrev pub routing_task_created : String
routing_task_created = "task.created"

abbrev pub routing_task_summarized : String
routing_task_summarized = "task.summarized"

pub record Envelope : Type 0 where
  pub id : String
  pub type : String
  pub timestamp : Time
  pub payload : Bytes

pub record TaskCreatedPayload : Type 0 where
  pub task_id : Uuid
  pub title : String
  pub description : String

pub record TaskSummarizedPayload : Type 0 where
  pub task_id : Uuid
  pub summary : String

abbrev and_then : Result Fault Bytes → (Bytes → Result Fault Bytes) → Result Fault Bytes
and_then (ok b) f = f b
and_then (err e) f = err e

-- `New`; `fresh` is what `uuid.NewString()` returns and `now` what the clock shows.
unfoldable pub new :
    {A : Type 0} → Codec A → Codec Envelope → String → Time → String → A → Result Error Bytes
new payloads envelopes fresh now event_type payload = map_result from_fault (
    and_then (payloads.marshal payload) λ raw.
      envelopes.marshal (record { id = fresh; type = event_type; timestamp = now; payload = raw }))
