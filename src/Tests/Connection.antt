-- ===== src/Tests/Connection.antt =====
-- Runs of the broker's connection and of its consumers over the sample server.
use golang_staterpack.Prelude.{
  Is, Left, ℕ, suc, pos, String, true, false, ◌≡◌, refl, ◌↔◌, ◌⊎◌, All, List, [], ◌∷◌, Memᴰ, some,
  Result, ok, err,
}
use golang_staterpack.Errors.{Error, external}
use golang_staterpack.Model.{Bytes, pending}
use golang_staterpack.Libraries.Amqp.{Declaration}
use golang_staterpack.Event
use golang_staterpack.Event.{routing_task_created}
use golang_staterpack.Service.Defs.{TaskService, World, republish_created, created_event}
use golang_staterpack.Broker.Dial.{dial, dial_from}
use golang_staterpack.Broker.Dialled
use golang_staterpack.Broker.Dialled.{dial_lem, dial_bounded}
use golang_staterpack.Broker.Topology.{declare_topology}
use golang_staterpack.Broker.Declared.{topology, declare_topology_idem}
use golang_staterpack.Broker.Connection.{
  Broker, Consumer, ConsumerOptions, Handler, Options, connected, new, new_consumer, publisher,
  publish, close, stop, json_message, started,
}
use golang_staterpack.Broker.Held.{new_lem}
use golang_staterpack.Broker.Confirmed.{republish-queued}
use golang_staterpack.Broker.Closing.{Reachable, IsStopped, close_lem}
use golang_staterpack.Broker.Consumer.{Delivery, Channel, handle}
use golang_staterpack.Broker.Sessions.{Event as Arrival, Exit, receive, consume_once, run, run_from}
use golang_staterpack.Broker.Streams.{Handed, unseen, run_lem}
use golang_staterpack.Broker.Breaks.{IsServing, script, run-gives_up}
use golang_staterpack.Repository.Defs.{task_repository}
use golang_staterpack.Samples.Database.{Store, one_row}
use golang_staterpack.Samples.Memory.{Memory, memory, no_entries}
use golang_staterpack.Samples.Services.{encoding, stamp, task_at}
use golang_staterpack.Samples.Broker.{
  Server, server, patient, booting, Has, Routes, Queued, server-IsDeclaring, server-IsCounting,
  server-IsConfirming,
}

-- Three attempts fail, the fourth connects.
dial_run :
    dial server patient "amqp" (booting 3)
    ≡ (ok tt, record (booting 0) { connections = 1; slept = 3500000000 })
unfolding dial_from
dial_run = refl

-- The server never comes up.
dial_down : (dial server patient "amqp" (booting 20)).1.slept ≡ 55500000000
unfolding dial_from
dial_down = refl

dial_lem_example :
    Dialled.Ends server patient "amqp" (booting 3) (dial server patient "amqp" (booting 3))
dial_lem_example = dial_lem server patient "amqp" (booting 3)

declare_topology_idem_example :
    let (r, k₁) = declare_topology server tt "app.events" (booting 0) in
    let k₂ = (declare_topology server tt "app.events" k₁).1 in
    ((y : Declaration) → Has (booting 0) y → Has k₁ y)
    × ((y : Declaration) → Has k₁ y → Has (booting 0) y ⊎ Memᴰ y (topology "app.events"))
    × (((e : Error) × (r ≡ err e))
        ⊎ ((y : Declaration) → Memᴰ y (topology "app.events") → Has k₁ y)
          × ((y : Declaration) → Has k₂ y ↔ Has k₁ y))
declare_topology_idem_example =
    declare_topology_idem server Has server-IsDeclaring tt tt "app.events" (booting 0)

abbrev options : Options
options = record { url = "amqp"; exchange = "app.events"; prefetch = pos 10 }

abbrev Link : Type 0
Link = Broker (Unit {0}) (Unit {0}) ℕ

new_lem_example :
    Left (λ k. k.connections) {A = Link} (Is 1) (Is 0) (new server patient options (booting 2))
new_lem_example =
    new_lem ℕ server patient (λ k. k.connections) server-IsCounting options (booting 2)

abbrev link : Link
link = connected tt tt options

abbrev linked : TaskService Store Memory (Link × Server)
linked = record {
  repo = task_repository one_row;
  publisher = publisher server;
  cache = memory;
  encoding = encoding;
}

-- A server with a queue for the events of new tasks.
abbrev topped : Server
topped = record (booting 0) {
  declarations = Declaration.binding "task.events" routing_task_created "app.events" ∷ [];
}

abbrev place : World Store Memory (Link × Server)
place = record {
  db = record { up = true; held = some (task_at pending); clock = pos 9 };
  cache = record { up = true; entries = no_entries };
  broker = (link, topped);
}

republished_run : (republish_created linked stamp (task_at pending) place).0 ≡ ok tt
unfolding republish_created publish Event.new
republished_run = refl

republish-queued_example :
    let (b, k) = (republish_created linked stamp (task_at pending) place).1.broker in
    (body : Bytes) × (created_event linked stamp (task_at pending) ≡ ok body)
    × (link.closed ≡ false)
    × (b ≡ link)
    × Queued k "task.events" (json_message body)
republish-queued_example =
    republish-queued server Routes Queued server-IsConfirming linked refl stamp (task_at pending)
      place "task.events" (Memᴰ.head refl) republished_run

abbrev counted : Handler ℕ
counted body n = (ok tt, suc n)

abbrev consumer_options : ConsumerOptions ℕ
consumer_options = record { queue = "task.events"; prefetch = pos 0; handler = some counted }

abbrev consumer : Consumer (Unit {0}) ℕ
consumer = started link consumer_options counted

-- One consumer that its owner stops before the broker is closed.
abbrev stopped : Consumer (Unit {0}) ℕ
stopped = record consumer { stopped = true; stop_closed = true }

abbrev used : Link
used = record link { consumers = stopped ∷ [] }

used-Reachable : Reachable server used
unfolding new_consumer stop
used-Reachable =
    Reachable.stopping (new_consumer consumer_options link).1 [] [] consumer stopped
      (Reachable.consuming link consumer_options (Reachable.opened tt tt options)) refl refl

close_lem_example :
    (r : Result Error (Unit {0})) × (b' : Link) × (k' : Server) × (close server used (booting 0)
      ≡ some (r, b', k'))
    × ((used.closed ≡ true) ⊎ All IsStopped b'.consumers)
    × ((k₁ : Server) → close server b' k₁ ≡ some (ok tt, b', k₁))
    × ((routing_key : String) (body : Bytes) (k₁ : Server)
        → publish server b' routing_key body k₁ ≡ (err (external "broker: closed"), k₁))
close_lem_example = close_lem server used used-Reachable (booting 0)

abbrev delivery : Delivery
delivery = record {
  headers = [];
  routing_key = "task.created";
  content_type = "application/json";
  body = "an event";
}

abbrev acknowledging : Unit {0} → Channel Server
acknowledging ch = record {
  publish = λ queue m k. (ok tt, k);
  ack = λ d k. (ok tt, k);
  nack = λ d requeue k. (ok tt, k);
}

abbrev twice : List Arrival
twice =
    Arrival.delivered delivery
    ∷ Arrival.broken
    ∷ Arrival.delivered delivery
    ∷ Arrival.stopping
    ∷ Arrival.broken
    ∷ []

two_channels :
    ((run server acknowledging patient consumer "app.events" twice (0, booting 0)).0
      ≡ Exit.returned (Arrival.broken ∷ []))
    × ((run server acknowledging patient consumer "app.events" twice (0, booting 0)).1.0 ≡ 2)
unfolding run_from consume_once receive handle declare_topology
two_channels = (refl, refl)

run_lem_example :
    let (exit, (p, _)) =
      run server acknowledging patient consumer "app.events" twice (0, booting 0) in
    Handed counted twice (unseen exit) 0 p 10
run_lem_example = run_lem server acknowledging patient consumer "app.events" twice (0, booting 0)

server-IsServing : IsServing server acknowledging patient consumer "app.events"
unfolding declare_topology
server-IsServing = record {
  channel_ok = λ k. (tt, refl);
  set_up_ok = λ ch k. refl;
  elapses = λ d k. refl;
}

abbrev one : List Delivery
one = delivery ∷ []

abbrev days : List (List Delivery)
days = one ∷ one ∷ [] ∷ one ∷ one ∷ one ∷ [] ∷ one ∷ one ∷ one ∷ []

abbrev later : List Arrival
later = Arrival.delivered delivery ∷ []

run-gives_up_example :
    (run server acknowledging patient consumer "app.events" (script days later) (0, booting 0)).0
    ≡ Exit.gave_up later
run-gives_up_example =
    run-gives_up server acknowledging patient consumer "app.events" server-IsServing days refl later
      (0, booting 0)
