-- ===== src/Broker/Declared.antt =====
-- What the declarations of the topology leave behind on the server.
use golang_staterpack.Prelude.{
  String, ◌≡◌, ◌↔◌, ◌⊎◌, inl, inr, List, [], ◌∷◌, Memᴰ, none, some, err, Result-cases,
}
use Prim.Native.String.{◌++◌}
use mathlib.Core.Logic.{⊎_elim}
use golang_staterpack.Errors.{wrap_call, Error}
use golang_staterpack.Libraries.Amqp.{
  Amqp, Declaration, exchange, queue, binding, IsDeclaring, brings,
}
use golang_staterpack.Broker.Declares.{Declares, Declares-one, Declares->>}
use golang_staterpack.Broker.Topology.{
  declare_topology, queue_task_events, queue_task_dlq, routing_task_any,
}

-- The topology around an exchange: the exchange itself, the dead-letter exchange with its queue, and
-- the work queue, which is bound to the one and dead-letters to the other. The default exchange
-- reaches both queues by their names.
abbrev pub topology : String → List Declaration
topology name =
    exchange name "topic"
    ∷ exchange (name ++ ".dlx") "fanout"
    ∷ queue queue_task_dlq none
    ∷ binding queue_task_dlq queue_task_dlq ""
    ∷ binding queue_task_dlq "" (name ++ ".dlx")
    ∷ queue queue_task_events (some (name ++ ".dlx"))
    ∷ binding queue_task_events queue_task_events ""
    ∷ binding queue_task_events routing_task_any name
    ∷ []

module _ {N H X K : Type 0} (amqp : Amqp N H X K) (declared : K → Declaration → Type 0)
    (server : IsDeclaring amqp declared) where
  one :
      (s : String) (ch : H) (x : Declaration)
      → Declares amqp declared (brings x) (wrap_call s (amqp.declare ch x))
  one = Declares-one amqp declared server

  declare_topology-Declares :
      (ch : H) (name : String)
      → Declares amqp declared (topology name) (declare_topology amqp ch name)
  unfolding declare_topology
  declare_topology-Declares ch name =
      Declares->> amqp declared server (brings (exchange name "topic")) _ _ _ (one _ ch _) (
        Declares->> amqp declared server (brings (exchange (name ++ ".dlx") "fanout")) _ _ _
          (one _ ch _)
          (Declares->> amqp declared server (brings (queue queue_task_dlq none)) _ _ _ (one _ ch _)
            (Declares->> amqp declared server (brings (binding queue_task_dlq "" (name ++ ".dlx")))
              _ _ _ (one _ ch _)
              (Declares->> amqp declared server
                (brings (queue queue_task_events (some (name ++ ".dlx")))) _ _ _ (one _ ch _)
                (one _ ch _)))))

-- Declaring the topology adds nothing to the server but the exchanges, queues and bindings of the
-- topology, those of its queues to the default exchange among them, and takes nothing away. Where it succeeds all of them are there, and to declare it once
-- more, from any channel and whatever that answers, leaves the server's declarations as they are.
pub declare_topology_idem :
    {N H X K : Type 0} (amqp : Amqp N H X K) (declared : K → Declaration → Type 0)
    → IsDeclaring amqp declared
    → (ch ch' : H) (name : String) (k : K)
    → let (r, k₁) = declare_topology amqp ch name k in
      let k₂ = (declare_topology amqp ch' name k₁).1 in
      ((y : Declaration) → declared k y → declared k₁ y)
      × ((y : Declaration) → declared k₁ y → declared k y ⊎ Memᴰ y (topology name))
      × (((e : Error) × (r ≡ err e))
          ⊎ ((y : Declaration) → Memᴰ y (topology name) → declared k₁ y)
            × ((y : Declaration) → declared k₂ y ↔ declared k₁ y))
declare_topology_idem amqp declared server ch ch' name k =
    let once = declare_topology-Declares amqp declared server ch name in
    let again = declare_topology-Declares amqp declared server ch' name in
    let k₁ = (declare_topology amqp ch name k).1 in
    (
      once.kept k,
      once.framed k,
      elim (Result-cases (declare_topology amqp ch name k).0) [
        | inr (e, h) ↦ inl (e, h)
        | inl (_, h) ↦
            let all : (y : Declaration) → Memᴰ y (topology name) → declared k₁ y =
              λ y at. once.done k y h at in
            inr (
              all,
              λ y. (λ new. ⊎_elim (λ old. old) (all y) (again.framed k₁ y new), again.kept k₁ y),
            )
      ],
    )
