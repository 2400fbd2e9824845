-- ===== src/Broker/Consumer.antt =====
-- internal/broker/consumer.go: what becomes of one delivery.
use golang_staterpack.Prelude.{
  ℕ, ◌-◌, ◌*◌, ◌^◌, ◌%◌, ℤ, pos, negsuc, ◌+ℤ◌, String, Bool, false, List, [], ◌∷◌, Option, none,
  some, Result, ok, err, Call, if◌then◌else◌, ltb, str_eq, leb_ℤ,
}
use golang_staterpack.Errors.{Error, Fault}
use golang_staterpack.Model.{Bytes, Duration}
use golang_staterpack.Strconv.Integers.{atoi}

-- A value of an `amqp.Table`, by its Go type.
pub data Value : Type 0 where
  int32 int64 int : ℤ → Value
  text : String → Value
  other : Value

abbrev pub Table : Type 0
Table = List (String × Value)

pub record Delivery : Type 0 where
  pub headers : Table
  pub routing_key : String
  pub content_type : String
  pub body : Bytes

-- `amqp.Publishing`, less the constant delivery mode and the time.
pub record Publishing : Type 0 where
  pub content_type : String
  pub headers : Table
  pub body : Bytes

-- The channel of a delivery: `PublishWithContext` to a queue by the default exchange, `Ack(false)`
-- and `Nack(false, requeue)`.
pub record Channel (Q : Type 0) : Type 0 where
  pub publish : String → Publishing → Call Q Fault (Unit {0})
  pub ack : Delivery → Call Q Fault (Unit {0})
  pub nack : Delivery → Bool → Call Q Fault (Unit {0})

abbrev pub max_retries : ℤ
max_retries = pos 3

abbrev pub header_retry_count : String
header_retry_count = "x-retry-count"

unfoldable pub lookup : String → Table → Option Value
lookup k [] = none
lookup k ((j, v) ∷ t) = if str_eq j k then some v else lookup k t

-- `headers[k] = v`.
unfoldable pub insert : String → Value → Table → Table
insert k v [] = (k, v) ∷ []
insert k v ((j, u) ∷ t) = if str_eq j k then (k, v) ∷ t else (j, u) ∷ insert k v t

abbrev pub or_zero : Option ℤ → ℤ
or_zero none = pos 0
or_zero (some n) = n

abbrev pub count_of : Option Value → ℤ
count_of none = pos 0
count_of (some (int32 n)) = n
count_of (some (int64 n)) = n
count_of (some (int n)) = n
count_of (some (text s)) = or_zero (atoi s)
count_of (some other) = pos 0

unfoldable pub retry_count : Table → String → ℤ
unfolding lookup
retry_count h k = count_of (lookup k h)

-- The conversion `int32(n)` keeps the low 32 bits.
abbrev low_bits : ℤ → ℕ
low_bits (pos n) = n % 2 ^ 32
low_bits (negsuc n) = 2 ^ 32 - 1 - n % 2 ^ 32

abbrev pub to_int32 : ℤ → ℤ
to_int32 n =
    if ltb (low_bits n) (2 ^ 31) then pos (low_bits n) else negsuc (2 ^ 32 - low_bits n - 1)

-- `time.Duration(1<<uint(retries)) * time.Second`, for a count below `max_retries`: a negative one
-- is a shift by 2 ^ 63 or more, which leaves 0. The code logs the delay and does not wait.
unfoldable pub retry_delay : ℤ → Duration
retry_delay (pos n) = pos (2 ^ n * 1000000000)
retry_delay (negsuc n) = pos 0

-- The message that is republished.
unfoldable pub retry_message : Delivery → Publishing
unfolding retry_count insert
retry_message d = record {
  content_type = d.content_type;
  headers =
      insert header_retry_count
        (int32 (to_int32 (retry_count d.headers header_retry_count +ℤ pos 1))) d.headers;
  body = d.body;
}

unfoldable pub is_exhausted : Delivery → Bool
unfolding retry_count
is_exhausted d = leb_ℤ max_retries (retry_count d.headers header_retry_count)

module _ {Q : Type 0} (ch : Channel Q) (queue : String) where
  -- The results of `Ack` and `Nack` are only logged.
  settle : Call Q Fault (Unit {0}) → Q → Q
  settle m q = (m q).1

  after_publish : Delivery → Result Fault (Unit {0}) → Q → Q
  unfolding settle
  after_publish d (ok _) = settle (ch.ack d)
  after_publish d (err e) = settle (ch.nack d false)

  unfoldable pub retry_or_dead_letter : Delivery → Q → Q
  unfolding settle after_publish is_exhausted retry_message
  retry_or_dead_letter d q =
      let (r, q') = ch.publish queue (retry_message d) q in
      if is_exhausted d then settle (ch.nack d false) q else after_publish d r q'

  finish : Delivery → Result Error (Unit {0}) → Q → Q
  unfolding settle retry_or_dead_letter
  finish d (ok _) = settle (ch.ack d)
  finish d (err cause) = retry_or_dead_letter d

  -- `handle`; the handler has a state of its own, and gets the body alone.
  unfoldable pub handle :
      {P : Type 0} → (Bytes → Call P Error (Unit {0})) → Delivery → P × Q → P × Q
  unfolding finish
  handle handler d (p, q) = let (r, p') = handler d.body p in (p', finish d r q)
