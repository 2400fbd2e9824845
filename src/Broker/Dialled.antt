-- ===== src/Broker/Dialled.antt =====
-- How the loop of `dial` ends, and how long it waits.
use golang_staterpack.Prelude.{
  ℕ, zero, suc, ◌+◌, ◌*◌, ◌^◌, ◌≤◌, ◌<◌, String, true, false, ◌≡◌, refl, subst, inl, inr, Result,
  ok, err, if◌then◌else◌, ltb, Result-cases, Bool-cases, arith,
}
use native.Mathlib.Decide.{dec_lt}
use native.Mathlib.Nat.{one-le-pow}
use golang_staterpack.Errors.{Error, Fault, external, wrap, from_fault}
use golang_staterpack.Libraries.Amqp.{Amqp, Context}
use golang_staterpack.Broker.Dial.{dial, dial_from, first_backoff, next_backoff}

-- The wait after the attempt of this index: half a second, doubled up to eight seconds.
abbrev pub pause : ℕ → ℕ
pause i = if ltb (500000000 * 2 ^ i) 8000000000 then 500000000 * 2 ^ i else 8000000000

pause-suc : (i : ℕ) → next_backoff (pause i) ≡ pause (suc i)
pause-suc zero = refl
pause-suc (suc zero) = refl
pause-suc (suc (suc zero)) = refl
pause-suc (suc (suc (suc zero))) = refl
pause-suc (suc (suc (suc (suc j)))) = let h = one-le-pow j 2 (omega arith) in ground arith

module _ {N H X K : Type 0} (amqp : Amqp N H X K) (ctx : Context K) (url : String) where
  -- The state before the attempt of this index, if no attempt before it ends the loop.
  unfoldable pub before : ℕ → K → K
  before zero k = k
  before (suc i) k = (ctx.wait (pause i) (amqp.dial url (before i k)).1).1

  abbrev pub attempted : ℕ → K → Result Fault N × K
  attempted i k = amqp.dial url (before i k)

  -- The attempt fails and the wait after it is not cut short.
  abbrev pub Fails : ℕ → K → Type 0
  Fails i k =
      ((f : Fault) × ((attempted i k).0 ≡ err f))
      × ((ctx.wait (pause i) (attempted i k).1).0 ≡ true)

  -- The ways in which `dial` ends.
  pub data Ends (k : K) (r : Result Error N × K) : Type 0 where
    connected :
        (i : ℕ) (conn : N)
        → i < 10
        → ((j : ℕ) → j < i → Fails j k)
        → (attempted i k).0 ≡ ok conn
        → r ≡ (ok conn, (attempted i k).1)
        → Ends k r
    cancelled :
        (i : ℕ) (f : Fault)
        → i < 10
        → ((j : ℕ) → j < i → Fails j k)
        → (attempted i k).0 ≡ err f
        → (ctx.wait (pause i) (attempted i k).1).0 ≡ false
        → r ≡ (err ctx.err, before (suc i) k)
        → Ends k r
    exhausted :
        (f : Fault)
        → ((j : ℕ) → j < 10 → Fails j k)
        → (attempted 9 k).0 ≡ err f
        → r ≡ (err (wrap "broker: dial after 10 attempts" (from_fault f)), before 10 k)
        → Ends k r

  -- The error that the loop carries is that of the attempt before.
  abbrev Carries : ℕ → Error → K → Type 0
  Carries zero e k = Unit
  Carries (suc i) e k = (f : Fault) × ((attempted i k).0 ≡ err f) × (e ≡ from_fault f)

  Fails-suc :
      (i : ℕ) (k : K) → ((j : ℕ) → j < i → Fails j k) → Fails i k → (j : ℕ) → j < suc i → Fails j k
  Fails-suc i k earlier now j lt = elim (dec_lt j i) [
    | yes h ↦ earlier j h
    | no h ↦ let same : i ≡ j = omega arith in subst (λ x. Fails x k) same now
  ]

  dial_from_cases :
      (n i : ℕ) (e : Error) (k : K)
      → i + n ≡ 10
      → Carries i e k
      → ((j : ℕ) → j < i → Fails j k)
      → Ends k (dial_from amqp ctx url n (pause i) e (before i k))
  unfolding dial_from before
  dial_from_cases zero zero e k h carried failed = absurd (omega arith)
  dial_from_cases zero (suc i) e k h (f, refused, same) failed =
      let last : i ≡ 9 = omega arith in
      let all : suc i ≡ 10 = omega arith in
      Ends.exhausted f (λ j lt. failed j (omega arith)) (rw (← last) refused) (rw (same, all) refl)
  dial_from_cases (suc n) i e k h carried failed = elim (Result-cases (attempted i k).0) [
    | inl (conn, up) ↦ Ends.connected i conn (omega arith) failed up (rw (dial_from, up) refl)
    | inr (f, down) ↦ elim (Bool-cases (ctx.wait (pause i) (attempted i k).1).0) [
      | inr cut ↦ Ends.cancelled i f (omega arith) failed down cut (rw (dial_from, down, cut) refl)
      | inl elapsed ↦
          let rest =
            dial_from_cases n (suc i) (from_fault f) k (omega arith) (f, down, refl)
              (Fails-suc i k failed ((f, down), elapsed)) in
          rw (dial_from, down, elapsed, pause-suc i) rest
    ]
  ]

-- `dial` answers the connection of the first attempt that succeeds, among at most ten, after a wait
-- of half a second that doubles up to eight seconds behind each failure. It ends early, with the
-- context's error, where a wait is cut short, and with the last failure where all ten attempts fail.
pub dial_lem :
    {N H X K : Type 0} (amqp : Amqp N H X K) (ctx : Context K) (url : String) (k : K)
    → Ends amqp ctx url k (dial amqp ctx url k)
unfolding before
dial_lem amqp ctx url k =
    dial_from_cases amqp ctx url 10 0 (external "%!w(<nil>)") k refl tt
      (λ j lt. absurd (omega arith))

-- The waits of the attempts that are left.
abbrev waits : ℕ → ℕ → ℕ
waits zero backoff = 0
waits (suc n) backoff = backoff + waits n (next_backoff backoff)

module _ {N H X K : Type 0} (amqp : Amqp N H X K) (ctx : Context K) (url : String) (slept : K → ℕ)
    (timer : (d : ℕ) (k : K) → slept (ctx.wait d k).1 ≤ slept k + d)
    (calls : (k : K) → slept (amqp.dial url k).1 ≡ slept k) where
  dial_from-waits :
      (n backoff : ℕ) (e : Error) (k : K)
      → slept (dial_from amqp ctx url n backoff e k).1 ≤ slept k + waits n backoff
  unfolding dial_from
  dial_from-waits zero backoff e k = omega arith
  dial_from-waits (suc n) backoff e k = elim (Result-cases (amqp.dial url k).0) [
    | inl (conn, up) ↦ rw (dial_from, up) (omega (arith, calls k))
    | inr (f, down) ↦
        let k₁ = (amqp.dial url k).1 in
        let k₂ = (ctx.wait backoff k₁).1 in
        elim (Bool-cases (ctx.wait backoff k₁).0) [
          | inr cut ↦ rw (dial_from, down, cut) (omega (arith, calls k, timer backoff k₁))
          | inl elapsed ↦
              rw (dial_from, down, elapsed)
                (omega (
                  arith,
                  calls k,
                  timer backoff k₁,
                  dial_from-waits n (next_backoff backoff) (from_fault f) k₂,
                ))
        ]
  ]

-- Whatever the server does, `dial` spends at most 55.5 seconds in its waits.
pub dial_bounded :
    {N H X K : Type 0} (amqp : Amqp N H X K) (ctx : Context K) (url : String) (slept : K → ℕ)
    → ((d : ℕ) (k : K) → slept (ctx.wait d k).1 ≤ slept k + d)
    → ((k : K) → slept (amqp.dial url k).1 ≡ slept k)
    → (k : K) → slept (dial amqp ctx url k).1 ≤ slept k + 55500000000
dial_bounded amqp ctx url slept timer calls k =
    dial_from-waits amqp ctx url slept timer calls 10 first_backoff (external "%!w(<nil>)") k
