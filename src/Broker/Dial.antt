-- ===== src/Broker/Dial.antt =====
-- internal/broker/broker.go: `dial`. Durations are in nanoseconds.
use golang_staterpack.Prelude.{
  ℕ, zero, suc, ◌*◌, String, true, false, ok, err, Call, if◌then◌else◌, ltb,
}
use golang_staterpack.Errors.{Error, external, wrap, from_fault}
use golang_staterpack.Libraries.Amqp.{Amqp, Context}

-- `500 * time.Millisecond`, and what a loop makes of it after each wait; `run` of the consumer has
-- the same two.
abbrev pub first_backoff : ℕ
first_backoff = 500000000

abbrev pub next_backoff : ℕ → ℕ
next_backoff backoff = if ltb backoff 8000000000 then backoff * 2 else backoff

abbrev pub max_attempts : ℕ
max_attempts = 10

module _ {N H X K : Type 0} (amqp : Amqp N H X K) (ctx : Context K) (url : String) where
  -- The loop, with the attempts that are left.
  unfoldable pub dial_from : ℕ → ℕ → Error → Call K Error N
  dial_from zero backoff last_err k = (err (wrap "broker: dial after 10 attempts" last_err), k)
  dial_from (suc n) backoff last_err k =
      let (r, k₁) = amqp.dial url k in
      elim r [
        | ok conn ↦ (ok conn, k₁)
        | err e ↦
            let (elapsed, k₂) = ctx.wait backoff k₁ in
            elim elapsed [
              | false ↦ (err ctx.err, k₂)
              | true ↦ dial_from n (next_backoff backoff) (from_fault e) k₂
            ]
      ]

  -- `lastErr` is nil before the first attempt, which nothing reads.
  abbrev pub dial : Call K Error N
  dial = dial_from max_attempts first_backoff (external "%!w(<nil>)")
