-- ===== src/Broker/Breaks.antt =====
-- A consumer whose channel breaks now and then, while the server is well.
use golang_staterpack.Prelude.{ℕ, String, true, ◌≡◌, refl, List, [], ◌∷◌, ◌++◌, map, ok, length}
use golang_staterpack.Errors.{Error, external}
use golang_staterpack.Libraries.Amqp.{Amqp, Context}
use golang_staterpack.Broker.Dial.{first_backoff, next_backoff}
use golang_staterpack.Broker.Connection.{Consumer}
use golang_staterpack.Broker.Consumer.{Delivery, Channel, handle}
use golang_staterpack.Broker.Sessions.{
  Event, Ended, Exit, receive, set_up, leave, consume_once, run_from, run,
}

-- Deliveries until the channel breaks, for each of these lists in turn, and then the rest.
abbrev pub script : List (List Delivery) → List Event → List Event
script [] later = later
script (ds ∷ dss) later = map Event.delivered ds ++ Event.broken ∷ script dss later

module _ {N H X K P : Type 0} (amqp : Amqp N H X K) (deliveries : H → Channel K) (ctx : Context K)
    (c : Consumer N P) (exchange : String) where
  -- Every channel can be opened and set up, and no wait is cut short.
  pub record IsServing : Type 0 where
    pub channel_ok : (k : K) → (ch : H) × ((amqp.channel c.conn k).0 ≡ ok ch)
    pub set_up_ok : (ch : H) (k : K) → (set_up amqp deliveries ctx c exchange ch k).0 ≡ ok tt
    pub elapses : (d : ℕ) (k : K) → (ctx.wait d k).0 ≡ true

  receive-script :
      (ch : H) (ds : List Delivery) (rest : List Event) (s : P × K)
      → (receive amqp deliveries ctx c exchange ch
          (map Event.delivered ds ++ Event.broken ∷ rest)
          s).0
        ≡ Ended.failed (external "delivery channel closed") rest
  unfolding receive
  receive-script ch [] rest s = refl
  receive-script ch (d ∷ ds) rest s =
      receive-script ch ds rest (handle (deliveries ch) c.queue c.handler d s)

  leave-failed :
      (ch : H) (e : Error) (rest : List Event) (r : Ended × (P × K))
      → r.0 ≡ Ended.failed e rest
      → (leave amqp deliveries ctx c exchange ch r).0 ≡ Ended.failed e rest
  leave-failed ch e rest (Ended.waiting, s) h = h
  leave-failed ch e rest (Ended.clean es, s) h = h
  leave-failed ch e rest (Ended.failed x es, s) h = h

  module _ (serving : IsServing) where
    consume_once-script :
        (ds : List Delivery) (rest : List Event) (s : P × K)
        → (consume_once amqp deliveries ctx c exchange
            (map Event.delivered ds ++ Event.broken ∷ rest)
            s).0
          ≡ Ended.failed (external "delivery channel closed") rest
    unfolding consume_once
    consume_once-script ds rest s =
        let (ch, found) = serving.channel_ok s.1 in
        let k₁ = (amqp.channel c.conn s.1).1 in
        let k₂ = (set_up amqp deliveries ctx c exchange ch k₁).1 in
        rw (consume_once, found, serving.set_up_ok ch k₁)
          (leave-failed ch (external "delivery channel closed") rest
            (receive amqp deliveries ctx c exchange ch
              (map Event.delivered ds ++ Event.broken ∷ rest) (s.0, k₂))
            (receive-script ch ds rest (s.0, k₂)))

    run_from-script :
        (dss : List (List Delivery)) (later : List Event) (backoff : ℕ) (s : P × K)
        → (run_from amqp deliveries ctx c exchange (length dss) backoff (script dss later) s).0
          ≡ Exit.gave_up later
    unfolding run_from
    run_from-script [] later backoff s = refl
    run_from-script (ds ∷ dss) later backoff s =
        let r = consume_once amqp deliveries ctx c exchange (script (ds ∷ dss) later) s in
        let k' = (ctx.wait backoff r.1.1).1 in
        rw (run_from, consume_once-script ds (script dss later) s, serving.elapses backoff r.1.1)
          (run_from-script dss later (next_backoff backoff) (r.1.0, k'))

-- A consumer ends for good when its channel has broken ten times since it was started, however many
-- deliveries it has handled in between and although the server opens a channel whenever it is asked:
-- what arrives later is left in the queue.
pub run-gives_up :
    {N H X K P : Type 0} (amqp : Amqp N H X K) (deliveries : H → Channel K) (ctx : Context K)
    (c : Consumer N P) (exchange : String)
    → IsServing amqp deliveries ctx c exchange
    → (dss : List (List Delivery)) → length dss ≡ 10
    → (later : List Event) (s : P × K)
    → (run amqp deliveries ctx c exchange (script dss later) s).0 ≡ Exit.gave_up later
run-gives_up amqp deliveries ctx c exchange serving dss ten later s =
    rw (← ten) (run_from-script amqp deliveries ctx c exchange serving dss later first_backoff s)
