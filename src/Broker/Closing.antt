-- ===== src/Broker/Closing.antt =====
-- Brokers in use: consumers that are started and stopped, and `Close`.
use golang_staterpack.Prelude.{
  String, true, false, ◌≡◌, refl, sym, ◌∙◌, List, [], ◌∷◌, ◌++◌, All, some, Result, ok, err,
  Option-cases, Bool-cases, ◌⊎◌, inl, inr, arith, map_result,
}
use golang_staterpack.Errors.{Error, external, from_fault}
use golang_staterpack.Model.{Bytes}
use golang_staterpack.Libraries.Amqp.{Amqp}
use golang_staterpack.Broker.Connection.{
  Broker, Consumer, ConsumerOptions, Options, connected, new_consumer, started, stop, stop_all,
  close, publish,
}

-- The brokers that a process can come to hold.
pub data Reachable {N H X K P : Type 0} (amqp : Amqp N H X K) : Broker N H P → Type 0 where
  opened : (conn : N) (ch : H) (opts : Options) → Reachable amqp (connected conn ch opts)
  consuming :
      (b : Broker N H P) (opts : ConsumerOptions P)
      → Reachable amqp b
      → Reachable amqp (new_consumer opts b).1
  stopping :
      (b : Broker N H P) (xs ys : List (Consumer N P)) (c d : Consumer N P)
      → Reachable amqp b
      → b.consumers ≡ xs ++ c ∷ ys
      → stop c ≡ some d
      → Reachable amqp (record b { consumers = xs ++ d ∷ ys })
  closing :
      (b b' : Broker N H P) (k k' : K) (r : Result Error (Unit {0}))
      → Reachable amqp b
      → close amqp b k ≡ some (r, b', k')
      → Reachable amqp b'

module _ {N P : Type 0} where
  -- The channel is closed just where the flag says so.
  abbrev IsOrderly : Consumer N P → Type 0
  IsOrderly c = c.stopped ≡ c.stop_closed

  abbrev pub IsStopped : Consumer N P → Type 0
  IsStopped c = c.stopped ≡ true

  stop-IsOrderly :
      (c : Consumer N P)
      → IsOrderly c
      → (d : Consumer N P) × (stop c ≡ some d) × IsOrderly d × IsStopped d
  unfolding stop
  stop-IsOrderly c h = elim (Bool-cases c.stopped) [
    | inl e ↦ (c, rw e refl, h, e)
    | inr e ↦ (record c { stopped = true; stop_closed = true }, rw (e, sym h ∙ e) refl, refl, refl)
  ]

  stop_all-IsOrderly :
      (cs : List (Consumer N P))
      → All IsOrderly cs
      → (ds : List (Consumer N P)) × (stop_all cs ≡ some ds) × All IsOrderly ds × All IsStopped ds
  unfolding stop_all
  stop_all-IsOrderly [] h = ([], refl, tt, tt)
  stop_all-IsOrderly (c ∷ cs) (h, hs) =
      let (d, e, o, s) = stop-IsOrderly c h in
      let (ds, es, os, ss) = stop_all-IsOrderly cs hs in
      (d ∷ ds, rw (stop_all, e, es) refl, (o, os), (s, ss))

module _ {ℓ κ} {A : Type ℓ} (Q : A → Type κ) where
  All-append : (xs ys : List A) → All Q xs → All Q ys → All Q (xs ++ ys)
  All-append [] ys p q = q
  All-append (x ∷ xs) ys (p, ps) q = (p, All-append xs ys ps q)

  All-split : (xs ys : List A) → All Q (xs ++ ys) → All Q xs × All Q ys
  All-split [] ys h = (tt, h)
  All-split (x ∷ xs) ys (p, h) = let (ps, q) = All-split xs ys h in ((p, ps), q)

module _ {N H X K P : Type 0} (amqp : Amqp N H X K) where
  closed : (b : Broker N H P) (k : K) → b.closed ≡ true → close amqp b k ≡ some (ok tt, b, k)
  unfolding close
  closed b k e = rw e refl

  -- `Close` of a broker whose consumers are in order.
  close-IsOrderly :
      (b : Broker N H P) (k : K)
      → All IsOrderly b.consumers
      → b.closed ≡ false
      → (r : Result Error (Unit {0})) × (b' : Broker N H P) × (k' : K) × (close amqp b k
          ≡ some (r, b', k'))
        × (b'.closed ≡ true)
        × All IsOrderly b'.consumers
        × All IsStopped b'.consumers
  unfolding close
  close-IsOrderly b k h e =
      let (ds, stopped, os, ss) = stop_all-IsOrderly b.consumers h in
      let (r, k') = amqp.close b.conn (amqp.close_channel b.pub_ch k).1 in
      (
        map_result from_fault r,
        record b { closed = true; consumers = ds },
        k',
        rw (e, stopped) refl,
        refl,
        os,
        ss,
      )

  close_keeps :
      (b b' : Broker N H P) (k k' : K) (r : Result Error (Unit {0}))
      → All IsOrderly b.consumers
      → close amqp b k ≡ some (r, b', k')
      → All IsOrderly b'.consumers
  close_keeps b b' k k' r h e = elim (Bool-cases b.closed) [
    | inl done ↦ let same : b ≡ b' = ground (arith, closed b k done, e) in rw (← same) h
    | inr running ↦
        let (r₁, b₁, k₁, run, _, os, _) = close-IsOrderly b k h running in
        let same : b₁ ≡ b' = ground (arith, run, e) in rw (← same) os
  ]

  new_consumer_keeps :
      (b : Broker N H P) (opts : ConsumerOptions P)
      → All IsOrderly b.consumers
      → All IsOrderly (new_consumer opts b).1.consumers
  unfolding new_consumer
  new_consumer_keeps b opts h = elim (Option-cases opts.handler) [
    | inl none_set ↦ rw none_set h
    | inr (f, set) ↦ rw set (All-append IsOrderly b.consumers (started b opts f ∷ []) h (refl, tt))
  ]

  pub Reachable-IsOrderly : (b : Broker N H P) → Reachable amqp b → All IsOrderly b.consumers
  Reachable-IsOrderly _ (Reachable.opened conn ch opts) = tt
  Reachable-IsOrderly _ (Reachable.consuming b opts reached) =
      new_consumer_keeps b opts (Reachable-IsOrderly b reached)
  Reachable-IsOrderly _ (Reachable.stopping b xs ys c d reached at stopped) =
      let (before, (o, after)) =
        All-split IsOrderly xs (c ∷ ys) (rw at at (Reachable-IsOrderly b reached)) in
      let (d₁, e, o₁, _) = stop-IsOrderly c o in
      let same : d₁ ≡ d = ground (arith, e, stopped) in
      All-append IsOrderly xs (d ∷ ys) before (rw (← same) o₁, after)
  Reachable-IsOrderly _ (Reachable.closing b b' k k' r reached run) =
      close_keeps b b' k k' r (Reachable-IsOrderly b reached) run

  refuses :
      (b : Broker N H P) (routing_key : String) (body : Bytes) (k : K)
      → b.closed ≡ true
      → publish amqp b routing_key body k ≡ (err (external "broker: closed"), k)
  unfolding publish
  refuses b routing_key body k e = rw e refl

  close_cases :
      (b : Broker N H P) (k : K)
      → Reachable amqp b
      → (r : Result Error (Unit {0})) × (b' : Broker N H P) × (k' : K) × (close amqp b k
          ≡ some (r, b', k'))
        × (b'.closed ≡ true)
        × ((b.closed ≡ true) ⊎ All IsStopped b'.consumers)
  close_cases b k reached = elim (Bool-cases b.closed) [
    | inl done ↦ (ok tt, b, k, closed b k done, done, inl done)
    | inr running ↦
        let (r, b', k', run, done, _, stopped) =
          close-IsOrderly b k (Reachable-IsOrderly b reached) running in
        (r, b', k', run, done, inr stopped)
  ]

-- However consumers were started and stopped before, `Close` of a broker does not panic. It leaves the
-- broker closed, with all consumers stopped if it was open; to close it again does nothing, and it
-- refuses to publish without a request to the server.
pub close_lem :
    {N H X K P : Type 0} (amqp : Amqp N H X K) (b : Broker N H P)
    → Reachable amqp b
    → (k : K)
    → (r : Result Error (Unit {0})) × (b' : Broker N H P) × (k' : K) × (close amqp b k
        ≡ some (r, b', k'))
      × ((b.closed ≡ true) ⊎ All IsStopped b'.consumers)
      × ((k₁ : K) → close amqp b' k₁ ≡ some (ok tt, b', k₁))
      × ((routing_key : String) (body : Bytes) (k₁ : K)
          → publish amqp b' routing_key body k₁ ≡ (err (external "broker: closed"), k₁))
close_lem amqp b reached k =
    let (r, b', k', run, done, stopped) = close_cases amqp b k reached in
    (
      r,
      b',
      k',
      run,
      stopped,
      λ k₁. closed amqp b' k₁ done,
      λ routing_key body k₁. refuses amqp b' routing_key body k₁ done,
    )
