-- ===== src/Broker/Held.antt =====
-- How many connections `New` leaves open.
use golang_staterpack.Prelude.{
  Is, Left, Left-same, Triple, Triple->>=, ℕ, zero, suc, String, ◌≡◌, refl, ◌∙◌, Result, ok, err,
  Call, pure, Result-cases, Bool-cases, inl, inr, arith,
}
use golang_staterpack.Errors.{wrap_call, Error, Fault, from_fault, external}
use golang_staterpack.Libraries.Amqp.{Amqp, Context, IsCounting, Declaration}
use golang_staterpack.Broker.Dial.{dial_from, next_backoff, first_backoff}
use golang_staterpack.Broker.Topology.{declare_topology, declare_topology_on_all}
use golang_staterpack.Broker.Connection.{Broker, Options, new, or_close, connected}

module _ {K : Type 0} (held : K → ℕ) where
  -- A call that neither dials nor closes.
  Triple-wrap_call :
      {A : Type 0} (p : ℕ) (s : String) (call : Call K Fault A)
      → ((k : K) → held (call k).1 ≡ held k)
      → Triple held (Is p) (wrap_call s call) (Is p) (Is p)
  Triple-wrap_call p s call even k h =
      Left-same held (Is p) (wrap_call s call k).0 (call k).1 (even k ∙ h)

module _ {N H X K : Type 0} (amqp : Amqp N H X K) (ctx : Context K) (held : K → ℕ)
    (counting : IsCounting amqp ctx held) where
  declared_even :
      (p : ℕ) (s : String) (ch : H) (x : Declaration)
      → Triple held (Is p) (wrap_call s (amqp.declare ch x)) (Is p) (Is p)
  declared_even p s ch x = Triple-wrap_call held p s (amqp.declare ch x) (counting.declare ch x)

  declare_topology_even :
      (p : ℕ) (ch : H) (name : String)
      → Triple held (Is p) (declare_topology amqp ch name) (Is p) (Is p)
  unfolding declare_topology
  declare_topology_even p ch name =
      Triple->>= held (Is p) (Is p) (Is p) (Is p) _ _ (declared_even p _ ch _) (λ a.
        Triple->>= held (Is p) (Is p) (Is p) (Is p) _ _ (declared_even p _ ch _) (λ a.
          Triple->>= held (Is p) (Is p) (Is p) (Is p) _ _ (declared_even p _ ch _) (λ a.
            Triple->>= held (Is p) (Is p) (Is p) (Is p) _ _ (declared_even p _ ch _) (λ a.
              Triple->>= held (Is p) (Is p) (Is p) (Is p) _ _ (declared_even p _ ch _)
                (λ a. declared_even p _ ch _)))))

  Left-closed :
      {A : Type 0} (p : ℕ) (ch : H) (r : Result Error A) (k : K)
      → Left held (Is p) (Is p) (r, k)
      → Left held (Is p) (Is p) (r, (amqp.close_channel ch k).1)
  Left-closed p ch (ok a) k h = counting.close_channel ch k ∙ h
  Left-closed p ch (err e) k h = counting.close_channel ch k ∙ h

  on_all_even :
      (p : ℕ) (conn : N) (name : String)
      → Triple held (Is p) (declare_topology_on_all amqp conn name) (Is p) (Is p)
  unfolding declare_topology_on_all
  on_all_even p conn name =
      Triple->>= held (Is p) (Is p) (Is p) (Is p) _ _
        (Triple-wrap_call held p _ (amqp.channel conn) (counting.channel conn))
        (λ ch k h.
          let run = declare_topology amqp ch name k in
          Left-closed p ch run.0 run.1 (declare_topology_even p ch name k h))

  Left-or_close :
      {A : Type 0} (p : ℕ) (conn : N) (r : Result Error A × K)
      → Left held (Is (suc p)) (Is (suc p)) r
      → Left {E = Error} held {A = A}
          (Is (suc p))
          (Is p)
          (elim r.0 [ ok a ↦ (ok a, r.1) | err e ↦ (err e, (amqp.close conn r.1).1) ])
  Left-or_close p conn (ok a, k) h = h
  Left-or_close p conn (err e, k) h = omega (arith, counting.close conn k)

  dial_from_counts :
      (url : String) (p n backoff : ℕ) (e : Error)
      → Triple held (Is p) (dial_from amqp ctx url n backoff e) (Is (suc p)) (Is p)
  unfolding dial_from
  dial_from_counts url p zero backoff e k h = h
  dial_from_counts url p (suc n) backoff e k h = elim (Result-cases (amqp.dial url k).0) [
    | inl (conn, up) ↦ rw (dial_from, up) (counting.dial_ok url k conn up ∙ rw h refl)
    | inr (f, down) ↦
        let k₁ = (amqp.dial url k).1 in
        let k₂ = (ctx.wait backoff k₁).1 in
        let same : held k₂ ≡ p = counting.wait backoff k₁ ∙ (counting.dial_err url k f down ∙ h) in
        elim (Bool-cases (ctx.wait backoff k₁).0) [
          | inr cut ↦ rw (dial_from, down, cut) same
          | inl elapsed ↦
              rw (dial_from, down, elapsed)
                (dial_from_counts url p n (next_backoff backoff) (from_fault f) k₂ same)
        ]
  ]

  or_close_counts :
      {A : Type 0} (p : ℕ) (conn : N) (m : Call K Error A)
      → Triple held (Is (suc p)) m (Is (suc p)) (Is (suc p))
      → Triple held (Is (suc p)) (or_close amqp conn m) (Is (suc p)) (Is p)
  or_close_counts p conn m even k h = Left-or_close p conn (m k) (even k h)

  new_counts :
      (P : Type 0) (opts : Options) (p : ℕ)
      → Triple held (Is p) (new amqp {P = P} ctx opts) (Is (suc p)) (Is p)
  unfolding new
  new_counts P opts p =
      Triple->>= held (Is p) (Is (suc p)) (Is (suc p)) (Is p) _ _
        (dial_from_counts opts.url p 10 first_backoff (external "%!w(<nil>)"))
        (λ conn.
          Triple->>= held (Is (suc p)) (Is (suc p)) (Is (suc p)) (Is p) _ _
            (or_close_counts p conn _ (on_all_even (suc p) conn opts.exchange))
            (λ a.
              Triple->>= held (Is (suc p)) (Is (suc p)) (Is (suc p)) (Is p) _ _
                (or_close_counts p conn _
                  (Triple-wrap_call held (suc p) _ (amqp.channel conn) (counting.channel conn)))
                (λ ch.
                  Triple->>= held (Is (suc p)) (Is (suc p)) (Is (suc p)) (Is p) _
                    (λ a. pure (connected conn ch opts))
                    (or_close_counts p conn _
                      (Triple-wrap_call held (suc p) _ (amqp.confirm ch) (counting.confirm ch)))
                    (λ a k h. h))))

-- `New` leaves exactly one more connection open where it succeeds. Where it fails, at any of its
-- steps, it leaves as many open as before: it closes the one that it has dialled.
pub new_lem :
    {N H X K : Type 0} (P : Type 0) (amqp : Amqp N H X K) (ctx : Context K) (held : K → ℕ)
    → IsCounting amqp ctx held
    → (opts : Options) (k : K)
    → Left held {A = Broker N H P} (Is (suc (held k))) (Is (held k)) (new amqp ctx opts k)
new_lem P amqp ctx held counting opts k = new_counts amqp ctx held counting P opts (held k) k refl
