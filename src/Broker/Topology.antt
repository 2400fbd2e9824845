-- ===== src/Broker/Topology.antt =====
-- internal/broker/broker.go: `declareTopologyOnAll` and `declareTopology`.
use golang_staterpack.Prelude.{String, none, some, Call, ◌>>=◌, ◌>>◌, attempt}
use Prim.Native.String.{◌++◌}
use golang_staterpack.Errors.{wrap_call, Error}
use golang_staterpack.Libraries.Amqp.{Amqp, exchange, queue, binding}

abbrev pub queue_task_events : String
queue_task_events = "task.events"

abbrev pub queue_task_dlq : String
queue_task_dlq = "task.events.dlq"

abbrev pub routing_task_any : String
routing_task_any = "task.*"

module _ {N H X K : Type 0} (amqp : Amqp N H X K) where
  unfoldable pub declare_topology : H → String → Call K Error (Unit {0})
  declare_topology ch name = do
    wrap_call ("broker: declare exchange " ++ name) (amqp.declare ch (exchange name "topic"))
    wrap_call "broker: declare dlx" (amqp.declare ch (exchange (name ++ ".dlx") "fanout"))
    wrap_call "broker: declare dlq" (amqp.declare ch (queue queue_task_dlq none))
    wrap_call "broker: bind dlq" (amqp.declare ch (binding queue_task_dlq "" (name ++ ".dlx")))
    wrap_call ("broker: declare queue " ++ queue_task_events)
        (amqp.declare ch (queue queue_task_events (some (name ++ ".dlx"))))
    wrap_call ("broker: bind queue " ++ queue_task_events)
        (amqp.declare ch (binding queue_task_events routing_task_any name))

  -- `defer ch.Close()`, whose error is dropped.
  abbrev pub then_close : {A : Type 0} → H → Call K Error A → Call K Error A
  then_close ch m = attempt m λ r k. (r, (amqp.close_channel ch k).1)

  unfoldable pub declare_topology_on_all : N → String → Call K Error (Unit {0})
  declare_topology_on_all conn name = do
    ch ← wrap_call "broker: topology channel" (amqp.channel conn)
    then_close ch (declare_topology ch name)
