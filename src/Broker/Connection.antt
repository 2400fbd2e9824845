-- ===== src/Broker/Connection.antt =====
-- internal/broker/broker.go: the broker with its connection, and `NewConsumer` and `Stop` of
-- internal/broker/consumer.go. Methods run one at a time, as the mutex makes them. A handler works on
-- a state `P`.
use golang_staterpack.Prelude.{
  ℤ, pos, String, Bool, true, false, List, [], ◌∷◌, ◌++◌, Option, none, some, Result, ok, err, Call,
  ◌>>=◌, ◌>>◌, pure, map_result, if◌then◌else◌, leb_ℤ,
}
use mathlib.Core.Option
use golang_staterpack.Errors.{wrap_call, Error, external, from_fault}
use golang_staterpack.Model.{Bytes}
use golang_staterpack.Libraries.Amqp.{Amqp, Context, Message}
use golang_staterpack.Service.Defs.{Publisher}
use golang_staterpack.Broker.Dial.{dial}
use golang_staterpack.Broker.Topology.{declare_topology_on_all}

abbrev pub Handler : Type 0 → Type 0
Handler P = Bytes → Call P Error (Unit {0})

-- `stop_closed` where the channel `stop` is closed.
pub record Consumer (N P : Type 0) : Type 0 where
  pub conn : N
  pub queue : String
  pub handler : Handler P
  pub prefetch : ℤ
  pub stop_closed : Bool
  pub stopped : Bool

pub record ConsumerOptions (P : Type 0) : Type 0 where
  pub queue : String
  pub prefetch : ℤ
  pub handler : Option (Handler P)

-- `pub_ch` is not nil once `New` has returned.
pub record Broker (N H P : Type 0) : Type 0 where
  pub conn : N
  pub exchange : String
  pub prefetch : ℤ
  pub pub_ch : H
  pub consumers : List (Consumer N P)
  pub closed : Bool

pub record Options : Type 0 where
  pub url : String
  pub exchange : String
  pub prefetch : ℤ

-- `close(c.stop)`: none where it panics, since the channel is closed already.
abbrev close_stop : {N P : Type 0} → Consumer N P → Option (Consumer N P)
close_stop c = if c.stop_closed then none else some (record c { stop_closed = true })

-- `Stop`, less the wait for `run` to end.
unfoldable pub stop : {N P : Type 0} → Consumer N P → Option (Consumer N P)
stop c = if c.stopped then some c else close_stop (record c { stopped = true })

-- The loop in `Close`.
unfoldable pub stop_all : {N P : Type 0} → List (Consumer N P) → Option (List (Consumer N P))
unfolding stop
stop_all [] = some []
stop_all (c ∷ cs) = elim (stop c) [ none ↦ none | some d ↦ Option.map (λ ds. d ∷ ds) (stop_all cs) ]

-- The consumer that `NewConsumer` starts.
abbrev pub started : {N H P : Type 0} → Broker N H P → ConsumerOptions P → Handler P → Consumer N P
started b opts handler = record {
  conn = b.conn;
  queue = opts.queue;
  handler = handler;
  prefetch = if leb_ℤ opts.prefetch (pos 0) then b.prefetch else opts.prefetch;
  stop_closed = false;
  stopped = false;
}

-- `NewConsumer`; `run` is in Broker/Sessions.
unfoldable pub new_consumer :
    {N H P : Type 0} → ConsumerOptions P → Call (Broker N H P) Error (Consumer N P)
new_consumer opts b = elim opts.handler [
  | none ↦ (err (external "broker: consumer handler is nil"), b)
  | some handler ↦
      let c = started b opts handler in (ok c, record b { consumers = b.consumers ++ (c ∷ []) })
]

abbrev pub json_message : Bytes → Message
json_message body = record { content_type = "application/json"; body = body }

abbrev answered : Bool → Result Error (Unit {0})
answered ack = if ack then ok tt else err (external "broker: message nacked by broker")

-- What `New` returns.
abbrev pub connected : {N H P : Type 0} → N → H → Options → Broker N H P
connected conn ch opts = record {
  conn = conn;
  exchange = opts.exchange;
  prefetch = opts.prefetch;
  pub_ch = ch;
  consumers = [];
  closed = false;
}

module _ {N H X K : Type 0} (amqp : Amqp N H X K) where
  -- A call that closes the connection where it fails.
  abbrev pub or_close : {A : Type 0} → N → Call K Error A → Call K Error A
  or_close conn m k =
      let (r, k₁) = m k in elim r [ ok a ↦ (ok a, k₁) | err e ↦ (err e, (amqp.close conn k₁).1) ]

  unfoldable pub new : {P : Type 0} → Context K → Options → Call K Error (Broker N H P)
  new ctx opts = do
    conn ← dial amqp ctx opts.url
    or_close conn (declare_topology_on_all amqp conn opts.exchange)
    ch ← or_close conn (wrap_call "broker: open publish channel" (amqp.channel conn))
    or_close conn (wrap_call "broker: enable publisher confirms" (amqp.confirm ch))
    pure (connected conn ch opts)

  module _ {P : Type 0} where
    abbrev send : Broker N H P → String → Bytes → Call K Error (Unit {0})
    send b routing_key body = do
      conf ←
          wrap_call "broker: publish"
            (amqp.publish b.pub_ch b.exchange routing_key (json_message body))
      ack ← wrap_call "broker: await confirm" (amqp.wait conf)
      λ k. (answered ack, k)

    -- `Publish`.
    unfoldable pub publish : Broker N H P → String → Bytes → Call K Error (Unit {0})
    publish b routing_key body k =
        if b.closed then (err (external "broker: closed"), k) else send b routing_key body k

    -- The broker as the service sees it.
    abbrev pub publisher : Publisher (Broker N H P × K)
    publisher = record {
      publish =
          λ routing_key body (b, k). let (r, k') = publish b routing_key body k in (r, (b, k'));
    }

    -- `Close`; none where it panics.
    unfoldable pub close : Broker N H P → K → Option (Result Error (Unit {0}) × Broker N H P × K)
    unfolding stop_all
    close b k = if b.closed then some (ok tt, b, k) else elim (stop_all b.consumers) [
      | none ↦ none
      | some consumers ↦
          let (r, k') = amqp.close b.conn (amqp.close_channel b.pub_ch k).1 in
          some (map_result from_fault r, record b { closed = true; consumers = consumers }, k')
    ]
