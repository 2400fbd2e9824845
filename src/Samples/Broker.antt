-- ===== src/Samples/Broker.antt =====
-- A RabbitMQ server that keeps its declarations and the messages that it routes, and that may be down
-- for the first attempts. It meets the laws of Libraries/Amqp.
use golang_staterpack.Prelude.{
  ℕ, zero, suc, ◌+◌, ◌-◌, String, true, ◌≡◌, refl, inl, inr, List, [], ◌∷◌, ◌++◌, Memᴰ,
  Memᴰ-append_left, Memᴰ-append_right, Memᴰ-append_cases, Result, ok, err, arith,
}
use mathlib.Core.Logic.{⊎_elim}
use golang_staterpack.Errors.{Fault, failure, external}
use golang_staterpack.Libraries.Amqp.{
  Amqp, Context, Declaration, brings, Message, IsDeclaring, IsCounting, IsConfirming,
}

-- `down` counts the attempts that will fail.
pub record Server : Type 0 where
  pub down : ℕ
  pub connections : ℕ
  pub slept : ℕ
  pub declarations : List Declaration
  pub messages : List (String × String × Message)

abbrev dial_server : ℕ → Server → Result Fault (Unit {0}) × Server
dial_server zero k = (ok tt, record k { connections = suc k.connections })
dial_server (suc n) k = (err (failure "connection refused"), record k { down = n })

abbrev pub server : Amqp (Unit {0}) (Unit {0}) (Unit {0}) Server
server = record {
  dial = λ url k. dial_server k.down k;
  channel = λ conn k. (ok tt, k);
  close_channel = λ ch k. (ok tt, k);
  close = λ conn k. (ok tt, record k { connections = k.connections - 1 });
  confirm = λ ch k. (ok tt, k);
  declare = λ ch x k. (ok tt, record k { declarations = brings x ++ k.declarations });
  publish = λ ch name routing_key m k.
      (ok tt, record k { messages = (name, routing_key, m) ∷ k.messages });
  wait = λ x k. (ok true, k);
  qos = λ ch n k. (ok tt, k);
  consume = λ ch queue k. (ok tt, k);
}

abbrev pub patient : Context Server
patient = record {
  wait = λ d k. (true, record k { slept = k.slept + d });
  err = external "context canceled";
}

abbrev pub booting : ℕ → Server
booting n = record { down = n; connections = 0; slept = 0; declarations = []; messages = [] }

abbrev pub Has : Server → Declaration → Type 0
Has k x = Memᴰ x k.declarations

-- A queue that is bound under the very key.
abbrev pub Routes : Server → String → String → String → Type 0
Routes k name routing_key queue = Has k (Declaration.binding queue routing_key name)

-- A message that an exchange has, for a queue that is bound to it.
abbrev pub Queued : Server → String → Message → Type 0
Queued k queue m =
    (name : String) × (routing_key : String) × Memᴰ (name, routing_key, m) k.messages
    × Routes k name routing_key queue

pub server-IsDeclaring : IsDeclaring server Has
server-IsDeclaring = record {
  declare_ok = λ ch x k h y. Memᴰ-append_left (brings x) k.declarations y;
  declare_keeps = λ ch x k y. Memᴰ-append_right (brings x) k.declarations y;
  declare_only = λ ch x k y h. ⊎_elim inr inl (Memᴰ-append_cases (brings x) k.declarations y h);
}

dial_ok :
    (n : ℕ) (k : Server) (conn : Unit {0})
    → (dial_server n k).0 ≡ ok conn
    → (dial_server n k).1.connections ≡ suc k.connections
dial_ok zero k conn h = refl
dial_ok (suc n) k conn h = absurd (ground arith)

dial_err :
    (n : ℕ) (k : Server) (f : Fault)
    → (dial_server n k).0 ≡ err f
    → (dial_server n k).1.connections ≡ k.connections
dial_err zero k f h = absurd (ground arith)
dial_err (suc n) k f h = refl

pub server-IsCounting : IsCounting server patient (λ k. k.connections)
server-IsCounting = record {
  dial_ok = λ url k. dial_ok k.down k;
  dial_err = λ url k. dial_err k.down k;
  close = λ conn k. refl;
  channel = λ conn k. refl;
  close_channel = λ ch k. refl;
  confirm = λ ch k. refl;
  declare = λ ch x k. refl;
  wait = λ d k. refl;
}

pub server-IsConfirming : IsConfirming server Routes Queued
server-IsConfirming = record {
  acknowledged =
      λ ch name routing_key m k x h h' queue bound. (name, routing_key, Memᴰ.head refl, bound);
}

pub dial_sleeps : (url : String) (k : Server) → (server.dial url k).1.slept ≡ k.slept
dial_sleeps url k = down_sleeps k.down k
  where
    down_sleeps : (n : ℕ) (k : Server) → (dial_server n k).1.slept ≡ k.slept
    down_sleeps zero k = refl
    down_sleeps (suc n) k = refl
