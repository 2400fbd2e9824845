-- ===== src/Tests/Consumers.antt =====
-- The sample worker as the handler of a consumer at the sample server.
use golang_staterpack.Prelude.{◌≡◌, refl, All, inl, inr, false, List, [], ◌∷◌, some, ok, pos}
use golang_staterpack.Model.{Bytes, pending, completed}
use golang_staterpack.Libraries.Gorm.{Same}
use golang_staterpack.Broker.Connection.{Broker, Consumer, connected, new_consumer}
use golang_staterpack.Broker.Consumer.{Delivery, Channel}
use golang_staterpack.Broker.Sessions.{Event, run}
use golang_staterpack.Broker.Streams.{bodies}
use golang_staterpack.Worker.Defs.{handle, decode_json}
use golang_staterpack.Worker.Footprint.{named_task}
use golang_staterpack.Worker.Registration.{register, IsWorked, run-IsWorked}
use golang_staterpack.Worker.Redelivery.{IsIdle, run-Rests}
use golang_staterpack.Samples.Database.{row}
use golang_staterpack.Samples.Services.{service-IsContract, task_at}
use golang_staterpack.Samples.Workers.{worker, answering, run_with, Run}
use golang_staterpack.Samples.Broker.{Server, server, patient, booting}

abbrev Link : Type 0
Link = Broker (Unit {0}) (Unit {0}) Run

abbrev link : Link
link = connected tt tt (record { url = "amqp"; exchange = "app.events"; prefetch = pos 10 })

abbrev consumer : Consumer (Unit {0}) Run
consumer = record {
  conn = tt;
  queue = "task.events";
  handler = handle (worker answering) "now";
  prefetch = pos 10;
  stop_closed = false;
  stopped = false;
}

registered_run : (register (worker answering) "now" link).0 ≡ ok consumer
unfolding register new_consumer
registered_run = refl

abbrev delivery : Bytes → Delivery
delivery body = record {
  headers = [];
  routing_key = "task.created";
  content_type = "application/json";
  body = body;
}

abbrev acknowledging : Unit {0} → Channel Server
acknowledging ch = record {
  publish = λ queue m k. (ok tt, k);
  ack = λ d k. (ok tt, k);
  nack = λ d requeue k. (ok tt, k);
}

-- The event twice, on two channels, and a body that is no event.
abbrev events : List Event
events =
    Event.delivered (delivery "an event")
    ∷ Event.broken
    ∷ Event.delivered (delivery "an event")
    ∷ Event.delivered (delivery "noise")
    ∷ []

run-IsWorked_example :
    let q = run_with (some (task_at pending)) in
    let (_, (q', _)) =
      run server acknowledging patient consumer "app.events" events (q, booting 0) in
    IsWorked (worker answering) row (bodies events) q.world.db q'.world.db
run-IsWorked_example =
    run-IsWorked server acknowledging patient (worker answering) row service-IsContract "now" link
      consumer registered_run events (run_with (some (task_at pending))) (booting 0)

abbrev done : Run
done = run_with (some (task_at completed))

idle : All (IsIdle (worker answering) row done.world.db) (bodies events)
unfolding named_task decode_json
idle = (inr (7, refl, refl), (inr (7, refl, refl), (inl refl, tt)))

run-Rests_example :
    let (_, (q', _)) =
      run server acknowledging patient consumer "app.events" events (done, booting 0) in
    (q'.llm ≡ 0) × Same row done.world.db q'.world.db
run-Rests_example =
    run-Rests server acknowledging patient (worker answering) row service-IsContract "now" link
      consumer registered_run events done (booting 0) idle
