-- ===== src/Broker/Sessions.antt =====
-- internal/broker/consumer.go: `run` and `consumeOnce`. A consumer's events are what its two `select`
-- statements receive, in order.
use golang_staterpack.Prelude.{
  ℕ, zero, suc, String, true, false, List, [], ◌∷◌, Result, ok, err, Call, ◌>>◌,
}
use golang_staterpack.Errors.{wrap_call, Error, external}
use golang_staterpack.Libraries.Amqp.{Amqp, Context}
use golang_staterpack.Broker.Dial.{first_backoff, next_backoff, max_attempts}
use golang_staterpack.Broker.Topology.{declare_topology}
use golang_staterpack.Broker.Connection.{Consumer}
use golang_staterpack.Broker.Consumer.{Delivery, Channel, handle}

-- A delivery, the end of the channel of deliveries, or the stop channel.
pub data Event : Type 0 where
  delivered : Delivery → Event
  broken stopping : Event

-- How `consumeOnce` ends, with the events that it has not received. It waits for more where it has
-- received them all.
pub data Ended : Type 0 where
  clean : List Event → Ended
  failed : Error → List Event → Ended
  waiting : Ended

-- How `run` ends.
pub data Exit : Type 0 where
  returned gave_up : List Event → Exit
  running : Exit

module _ {N H X K P : Type 0} (amqp : Amqp N H X K) (deliveries : H → Channel K) (ctx : Context K)
    (c : Consumer N P) (exchange : String) where
  -- The loop of `consumeOnce`.
  unfoldable pub receive : H → List Event → P × K → Ended × (P × K)
  receive ch [] s = (Ended.waiting, s)
  receive ch (Event.stopping ∷ events) s = (Ended.clean events, s)
  receive ch (Event.broken ∷ events) s =
      (Ended.failed (external "delivery channel closed") events, s)
  receive ch (Event.delivered d ∷ events) s =
      receive ch events (handle (deliveries ch) c.queue c.handler d s)

  abbrev pub set_up : H → Call K Error (Unit {0})
  set_up ch = do
    declare_topology amqp ch exchange
    wrap_call "set qos" (amqp.qos ch c.prefetch)
    wrap_call "consume" (amqp.consume ch c.queue)

  -- `defer ch.Close()`.
  abbrev pub leave : H → Ended × (P × K) → Ended × (P × K)
  leave ch (Ended.waiting, s) = (Ended.waiting, s)
  leave ch (Ended.clean events, (p, k)) = (Ended.clean events, (p, (amqp.close_channel ch k).1))
  leave ch (Ended.failed e events, (p, k)) =
      (Ended.failed e events, (p, (amqp.close_channel ch k).1))

  abbrev pub on_channel : List Event → P → Result Error H → K → Ended × (P × K)
  on_channel events p (err e) k = (Ended.failed e events, (p, k))
  on_channel events p (ok ch) k =
      let (r, k') = set_up ch k in
      leave ch
        (elim r [ err e ↦ (Ended.failed e events, (p, k')) | ok _ ↦ receive ch events (p, k') ])

  unfoldable pub consume_once : List Event → P × K → Ended × (P × K)
  unfolding receive
  consume_once events (p, k) =
      let (r, k') = wrap_call "open channel" (amqp.channel c.conn) k in on_channel events p r k'

  -- The loop of `run`, with the attempts that are left.
  unfoldable pub run_from : ℕ → ℕ → List Event → P × K → Exit × (P × K)
  run_from zero backoff events s = (Exit.gave_up events, s)
  run_from (suc n) backoff events s =
      let (ended, (p, k)) = consume_once events s in
      elim ended [
        | Ended.waiting ↦ (Exit.running, (p, k))
        | Ended.clean rest ↦ (Exit.returned rest, (p, k))
        | Ended.failed e rest ↦
            let (elapsed, k') = ctx.wait backoff k in
            elim elapsed [
              | false ↦ (Exit.returned rest, (p, k'))
              | true ↦ run_from n (next_backoff backoff) rest (p, k')
            ]
      ]

  abbrev pub run : List Event → P × K → Exit × (P × K)
  run = run_from max_attempts first_backoff
