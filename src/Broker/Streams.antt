-- ===== src/Broker/Streams.antt =====
-- What a consumer does with the deliveries that it receives, over all its channels.
use golang_staterpack.Prelude.{
  ℕ, zero, suc, ◌+◌, ◌≤◌, String, ◌≡◌, refl, sym, ap, ◌∙◌, List, [], ◌∷◌, ◌++◌, Result, ok, err,
  Bool-cases, ◌⊎◌, inl, inr, arith,
}
use mathlib.Core.List.{append_assoc}
use golang_staterpack.Errors.{wrap_call, Error}
use golang_staterpack.Model.{Bytes}
use golang_staterpack.Libraries.Amqp.{Amqp, Context}
use golang_staterpack.Broker.Dial.{first_backoff, next_backoff}
use golang_staterpack.Broker.Connection.{Consumer, Handler}
use golang_staterpack.Broker.Consumer.{Delivery, Channel, handle}
use golang_staterpack.Broker.Sessions.{
  Event, Ended, Exit, receive, set_up, leave, on_channel, consume_once, run_from, run,
}

abbrev pub bodies : List Event → List Bytes
bodies [] = []
bodies (Event.delivered d ∷ es) = d.body ∷ bodies es
bodies (Event.broken ∷ es) = bodies es
bodies (Event.stopping ∷ es) = bodies es

abbrev pub breaks : List Event → ℕ
breaks [] = 0
breaks (Event.delivered d ∷ es) = breaks es
breaks (Event.broken ∷ es) = suc (breaks es)
breaks (Event.stopping ∷ es) = breaks es

-- The handler on these bodies, one after the other.
abbrev pub handled : {P : Type 0} → Handler P → List Bytes → P → P
handled f [] p = p
handled f (b ∷ bs) p = handled f bs (f b p).1

pub bodies-append : (xs ys : List Event) → bodies (xs ++ ys) ≡ bodies xs ++ bodies ys
bodies-append [] ys = refl
bodies-append (Event.delivered d ∷ xs) ys = ap (λ bs. d.body ∷ bs) (bodies-append xs ys)
bodies-append (Event.broken ∷ xs) ys = bodies-append xs ys
bodies-append (Event.stopping ∷ xs) ys = bodies-append xs ys

breaks-append : (xs ys : List Event) → breaks (xs ++ ys) ≡ breaks xs + breaks ys
breaks-append [] ys = omega arith
breaks-append (Event.delivered d ∷ xs) ys = breaks-append xs ys
breaks-append (Event.broken ∷ xs) ys = omega (arith, breaks-append xs ys)
breaks-append (Event.stopping ∷ xs) ys = breaks-append xs ys

handled-append :
    {P : Type 0} (f : Handler P) (xs ys : List Bytes) (p : P)
    → handled f (xs ++ ys) p ≡ handled f ys (handled f xs p)
handled-append f [] ys p = refl
handled-append f (x ∷ xs) ys p = handled-append f xs ys (f x p).1

-- From `events` to `rest`, the handler has had every delivery in between exactly once and in order,
-- and at most `limit` channels have broken.
pub record Handed {P : Type 0} (f : Handler P) (events rest : List Event) (p p' : P) (limit : ℕ)
    : Type 0 where
  pub seen : List Event
  pub split : events ≡ seen ++ rest
  pub handed : p' ≡ handled f (bodies seen) p
  pub bounded : breaks seen ≤ limit

module _ {P : Type 0} (f : Handler P) where
  Handed-none : (events : List Event) (p : P) (limit : ℕ) → Handed f events events p p limit
  Handed-none events p limit = record {
    seen = [];
    split = refl;
    handed = refl;
    bounded = omega arith;
  }

  Handed-then :
      (events middle rest : List Event) (p p₁ p₂ : P) (a b limit : ℕ)
      → a + b ≤ limit
      → Handed f events middle p p₁ a
      → Handed f middle rest p₁ p₂ b
      → Handed f events rest p p₂ limit
  Handed-then events middle rest p p₁ p₂ a b limit le u v = record {
    seen = u.seen ++ v.seen;
    split = u.split ∙ ap (λ es. u.seen ++ es) v.split ∙ sym (append_assoc u.seen v.seen rest);
    handed =
        v.handed
        ∙ ap (handled f (bodies v.seen)) u.handed
        ∙ sym (handled-append f (bodies u.seen) (bodies v.seen) p)
        ∙ ap (λ bs. handled f bs p) (sym (bodies-append u.seen v.seen));
    bounded = let x = u.bounded in let y = v.bounded in omega (arith, breaks-append u.seen v.seen);
  }

  Handed-one :
      (e : Event) (es : List Event) (p : P) (limit : ℕ)
      → breaks (e ∷ []) ≤ limit
      → Handed f (e ∷ es) es p (handled f (bodies (e ∷ [])) p) limit
  Handed-one e es p limit h = record { seen = e ∷ []; split = refl; handed = refl; bounded = h }

  Handed-le :
      (events rest : List Event) (p p' : P) (a b : ℕ)
      → a ≤ b
      → Handed f events rest p p' a
      → Handed f events rest p p' b
  Handed-le events rest p p' a b le u =
      let x = u.bounded in
      record { seen = u.seen; split = u.split; handed = u.handed; bounded = omega arith }

pub Ended-cases :
    (e : Ended)
    → (e ≡ Ended.waiting)
      ⊎ ((rest : List Event) × (e ≡ Ended.clean rest))
      ⊎ ((x : Error) × (rest : List Event) × (e ≡ Ended.failed x rest))
Ended-cases Ended.waiting = inl refl
Ended-cases (Ended.clean rest) = inr (inl (rest, refl))
Ended-cases (Ended.failed x rest) = inr (inr (x, rest, refl))

abbrev pub left : List Event → Ended → List Event
left events (Ended.clean rest) = rest
left events (Ended.failed e rest) = rest
left events Ended.waiting = []

abbrev pub unseen : Exit → List Event
unseen (Exit.returned rest) = rest
unseen (Exit.gave_up rest) = rest
unseen Exit.running = []

module _ {N H X K P : Type 0} (amqp : Amqp N H X K) (deliveries : H → Channel K) (ctx : Context K)
    (c : Consumer N P) (exchange : String) where
  handle-handler :
      (ch : H) (d : Delivery) (p : P) (k : K)
      → (handle (deliveries ch) c.queue c.handler d (p, k)).0 ≡ (c.handler d.body p).1
  unfolding handle
  handle-handler ch d p k = refl

  abbrev Hands : List Event → P → Ended × (P × K) → Type 0
  Hands events p r = Handed c.handler events (left events r.0) p r.1.0 1

  receive-Hands :
      (ch : H) (events : List Event) (s : P × K)
      → Hands events s.0 (receive amqp deliveries ctx c exchange ch events s)
  unfolding receive
  receive-Hands ch [] s = Handed-none c.handler [] s.0 1
  receive-Hands ch (Event.stopping ∷ events) s =
      Handed-one c.handler Event.stopping events s.0 1 (omega arith)
  receive-Hands ch (Event.broken ∷ events) s =
      Handed-one c.handler Event.broken events s.0 1 (omega arith)
  receive-Hands ch (Event.delivered d ∷ events) s =
      let s' = handle (deliveries ch) c.queue c.handler d s in
      let r = receive amqp deliveries ctx c exchange ch events s' in
      let same : s'.0 ≡ (c.handler d.body s.0).1 = handle-handler ch d s.0 s.1 in
      Handed-then c.handler (Event.delivered d ∷ events) events _ s.0 s'.0 r.1.0 0 1 1 (omega arith)
        (rw same (Handed-one c.handler (Event.delivered d) events s.0 0 (omega arith)))
        (receive-Hands ch events s')

  leave-Hands :
      (ch : H) (events : List Event) (p : P) (r : Ended × (P × K))
      → Hands events p r
      → Hands events p (leave amqp deliveries ctx c exchange ch r)
  leave-Hands ch events p (Ended.waiting, s) h = h
  leave-Hands ch events p (Ended.clean rest, s) h = h
  leave-Hands ch events p (Ended.failed e rest, s) h = h

  set_up-Hands :
      (ch : H) (events : List Event) (p : P) (r : Result Error (Unit {0})) (k : K)
      → Hands events p (elim r [
        | err e ↦ (Ended.failed e events, (p, k))
        | ok _ ↦ receive amqp deliveries ctx c exchange ch events (p, k)
      ])
  set_up-Hands ch events p (err e) k = Handed-none c.handler events p 1
  set_up-Hands ch events p (ok _) k = receive-Hands ch events (p, k)

  on_channel-Hands :
      (events : List Event) (p : P) (r : Result Error H) (k : K)
      → Hands events p (on_channel amqp deliveries ctx c exchange events p r k)
  on_channel-Hands events p (err e) k = Handed-none c.handler events p 1
  on_channel-Hands events p (ok ch) k =
      let r = set_up amqp deliveries ctx c exchange ch k in
      leave-Hands ch events p _ (set_up-Hands ch events p r.0 r.1)

  consume_once-Hands :
      (events : List Event) (s : P × K)
      → Hands events s.0 (consume_once amqp deliveries ctx c exchange events s)
  unfolding consume_once
  consume_once-Hands events s =
      let r = wrap_call "open channel" (amqp.channel c.conn) s.1 in
      on_channel-Hands events s.0 r.0 r.1

  run_from-Handed :
      (n backoff : ℕ) (events : List Event) (s : P × K)
      → let r = run_from amqp deliveries ctx c exchange n backoff events s in
        Handed c.handler events (unseen r.0) s.0 r.1.0 n
  unfolding run_from
  run_from-Handed zero backoff events s = Handed-none c.handler events s.0 0
  run_from-Handed (suc n) backoff events s =
      let r = consume_once amqp deliveries ctx c exchange events s in
      let h = consume_once-Hands events s in
      elim (Ended-cases r.0) [
        | inl e ↦
            rw (run_from, e)
              (Handed-le c.handler events [] s.0 r.1.0 1 (suc n) (omega arith) (rw e at h))
        | inr (inl (rest, e)) ↦
            rw (run_from, e)
              (Handed-le c.handler events rest s.0 r.1.0 1 (suc n) (omega arith) (rw e at h))
        | inr (inr (x, rest, e)) ↦ elim (Bool-cases (ctx.wait backoff r.1.1).0) [
          | inr cut ↦
              rw (run_from, e, cut)
                (Handed-le c.handler events rest s.0 r.1.0 1 (suc n) (omega arith) (rw e at h))
          | inl elapsed ↦
              let k' = (ctx.wait backoff r.1.1).1 in
              let later = run_from-Handed n (next_backoff backoff) rest (r.1.0, k') in
              let final =
                run_from amqp deliveries ctx c exchange n (next_backoff backoff) rest (r.1.0, k') in
              rw (run_from, e, elapsed)
                (Handed-then c.handler events rest (unseen final.0) s.0 r.1.0 final.1.0 1 n (suc n)
                  (omega arith) (rw e at h) later)
        ]
      ]

-- However its channels open and break, a consumer gives the handler every delivery that it has
-- received exactly once and in the order of their arrival, and has received nothing behind the events
-- at which it ended. At most ten of its channels of deliveries break while it runs.
pub run_lem :
    {N H X K P : Type 0} (amqp : Amqp N H X K) (deliveries : H → Channel K) (ctx : Context K)
    (c : Consumer N P) (exchange : String) (events : List Event) (s : P × K)
    → let (exit, (p, _)) = run amqp deliveries ctx c exchange events s in
      Handed c.handler events (unseen exit) s.0 p 10
run_lem amqp deliveries ctx c exchange events s =
    run_from-Handed amqp deliveries ctx c exchange 10 first_backoff events s
