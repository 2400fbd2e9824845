-- ===== src/Libraries/Amqp.antt =====
-- The RabbitMQ client: connections `N`, channels `H` and pending confirms `X`. The state is the
-- server's, with the timers of the process.
use golang_staterpack.Prelude.{
  ℕ, suc, ◌-◌, ℤ, String, Bool, true, List, [], ◌∷◌, Memᴰ, ◌≡◌, ◌⊎◌, Option, ok, err, Call,
}
use golang_staterpack.Errors.{Error, Fault}
use golang_staterpack.Model.{Bytes}

-- `ExchangeDeclare` with a name and a kind, `QueueDeclare` with a name and the dead-letter exchange
-- that its arguments may name, `QueueBind` with a queue, a routing key and an exchange. Exchanges and
-- queues are durable, and no other flag is set.
pub data Declaration : Type 0 where
  exchange : String → String → Declaration
  queue : String → Option String → Declaration
  binding : String → String → String → Declaration

-- A persistent message with its content type.
pub record Message : Type 0 where
  pub content_type : String
  pub body : Bytes

pub record Amqp (N H X K : Type 0) : Type 0 where
  pub dial : String → Call K Fault N
  pub channel : N → Call K Fault H
  pub close_channel : H → Call K Fault (Unit {0})
  pub close : N → Call K Fault (Unit {0})
  pub confirm : H → Call K Fault (Unit {0})
  pub declare : H → Declaration → Call K Fault (Unit {0})
  -- `PublishWithDeferredConfirmWithContext` to an exchange with a routing key, and `WaitContext`.
  pub publish : H → String → String → Message → Call K Fault X
  pub wait : X → Call K Fault Bool
  pub qos : H → ℤ → Call K Fault (Unit {0})
  pub consume : H → String → Call K Fault (Unit {0})

-- `select` between the end of a context (or a closed channel) and `time.After`: true where the time
-- has passed.
pub record Context (K : Type 0) : Type 0 where
  pub wait : ℕ → K → Bool × K
  pub err : Error

-- What the server has after a declaration: a queue is also bound to the default exchange, which has no
-- name, under its own name.
abbrev pub brings : Declaration → List Declaration
brings (exchange name kind) = exchange name kind ∷ []
brings (queue name dead_letters) = queue name dead_letters ∷ binding name name "" ∷ []
brings (binding name routing_key source) = binding name routing_key source ∷ []

-- The documented behaviour of declarations; `declared k x` where the server in state `k` has `x`.
pub record IsDeclaring {N H X K : Type 0} (amqp : Amqp N H X K)
    (declared : K → Declaration → Type 0) : Type 0 where
  pub declare_ok :
      (ch : H) (x : Declaration) (k : K)
      → (amqp.declare ch x k).0 ≡ ok tt
      → (y : Declaration) → Memᴰ y (brings x)
      → declared (amqp.declare ch x k).1 y
  pub declare_keeps :
      (ch : H) (x : Declaration) (k : K) (y : Declaration)
      → declared k y
      → declared (amqp.declare ch x k).1 y
  pub declare_only :
      (ch : H) (x : Declaration) (k : K) (y : Declaration)
      → declared (amqp.declare ch x k).1 y
      → declared k y ⊎ Memᴰ y (brings x)

-- `held k` counts the connections that have been dialled and not been closed yet.
pub record IsCounting {N H X K : Type 0} (amqp : Amqp N H X K) (ctx : Context K) (held : K → ℕ)
    : Type 0 where
  pub dial_ok :
      (url : String) (k : K) (conn : N)
      → (amqp.dial url k).0 ≡ ok conn
      → held (amqp.dial url k).1 ≡ suc (held k)
  pub dial_err :
      (url : String) (k : K) (f : Fault)
      → (amqp.dial url k).0 ≡ err f
      → held (amqp.dial url k).1 ≡ held k
  pub close : (conn : N) (k : K) → held (amqp.close conn k).1 ≡ held k - 1
  pub channel : (conn : N) (k : K) → held (amqp.channel conn k).1 ≡ held k
  pub close_channel : (ch : H) (k : K) → held (amqp.close_channel ch k).1 ≡ held k
  pub confirm : (ch : H) (k : K) → held (amqp.confirm ch k).1 ≡ held k
  pub declare : (ch : H) (x : Declaration) (k : K) → held (amqp.declare ch x k).1 ≡ held k
  pub wait : (d : ℕ) (k : K) → held (ctx.wait d k).1 ≡ held k

-- What a positive confirm says, and no more: the message is in every queue to which the exchange routed
-- the key when it was published. A message that is routed to no queue is confirmed too, and dropped.
pub record IsConfirming {N H X K : Type 0} (amqp : Amqp N H X K)
    (routes : K → String → String → String → Type 0) (queued : K → String → Message → Type 0)
    : Type 0 where
  pub acknowledged :
      (ch : H) (name routing_key : String) (m : Message) (k : K) (x : X)
      → (amqp.publish ch name routing_key m k).0 ≡ ok x
      → (amqp.wait x (amqp.publish ch name routing_key m k).1).0 ≡ ok true
      → (queue : String) → routes k name routing_key queue
      → queued (amqp.wait x (amqp.publish ch name routing_key m k).1).1 queue m
