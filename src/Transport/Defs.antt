-- ===== src/Transport/Defs.antt =====
-- internal/transport/http/middleware.go, task_handler.go and health_handler.go, and the counter of
-- cmd/api/main.go. What Fiber reads of a request and writes of a response are values here.
use golang_staterpack.Prelude.{
  ℕ, zero, suc, ◌+◌, ◌/◌, ℤ, pos, negsuc, ◌-ℤ◌, String, Bool, true, false, ◌&&◌, List, [], ◌∷◌,
  Option, none, some, Result, ok, err, Call, ◌>>=◌, ◌>>◌, pure, if◌then◌else◌, str_eq, ltb_ℤ,
}
use Prim.Native.String.{◌++◌}
use golang_staterpack.Errors.{
  Error, Fault, sentinel, external, fiber_error, wrap, detail, not_found, invalid_input, is,
  message,
}
use golang_staterpack.Model.{Uuid, Task, Duration}
use golang_staterpack.Libraries.Redis.{Redis}
use golang_staterpack.Service.Defs.{World, TaskService, CreateTaskInput, Stamp}
use golang_staterpack.Service.Defs

pub record ErrorBody : Type 0 where
  pub error : String
  pub code : String
  pub details : String
  pub trace_id : String

-- What a handler gives to `c.JSON` or sends.
pub data Content : Type 0 where
  failure : ErrorBody → Content
  task : Task → Content
  tasks : List Task → ℕ → ℤ → ℤ → Content
  health : String → String → String → Content
  alive : Content
  empty : Content

-- `c.QueryInt` has found a number, or takes the default.
pub record Request : Type 0 where
  pub body : Result Fault CreateTaskInput
  pub id : String
  pub limit : Option ℤ
  pub offset : Option ℤ

-- A header whose value `itoa` prints is kept as its number.
pub record Response : Type 0 where
  pub status : ℕ
  pub headers : List (String × ℤ)
  pub content : Content

abbrev pub reply : ℕ → Content → Response
reply status content = record { status = status; headers = []; content = content }

-- `errors.As(err, &fe)` for a `*fiber.Error`.
abbrev pub as_fiber : Error → Option (ℕ × String)
as_fiber (sentinel s) = none
as_fiber (external s) = none
as_fiber (fiber_error n s) = some (n, s)
as_fiber (wrap s e) = as_fiber e
as_fiber (detail e s) = as_fiber e

abbrev pub error_reply : ℕ → String → String → String → String → Response
error_reply status error code details trace =
    reply status
      (Content.failure (record { error = error; code = code; details = details; trace_id = trace }))

abbrev pub classified : Bool → String → Error → Response
classified include_detail trace e =
    if is e not_found
    then error_reply 404 "resource not found" "not_found" "" trace
    else if is e invalid_input
    then error_reply 400 (message e) "invalid_input" "" trace
    else error_reply 500 "internal server error" "internal_error"
        (if include_detail then message e else "") trace

abbrev pub by_fiber : Bool → String → Error → Option (ℕ × String) → Response
by_fiber include_detail trace e none = classified include_detail trace e
by_fiber include_detail trace e (some (code, text)) =
    error_reply code text "internal_error" "" trace

-- `ErrorHandler`.
unfoldable pub error_handler : Bool → String → Error → Response
error_handler include_detail trace e = by_fiber include_detail trace e (as_fiber e)

-- What the application sends for the result of a handler.
abbrev pub answer : Bool → String → Result Error Response → Response
answer include_detail trace (ok r) = r
answer include_detail trace (err e) = error_handler include_detail trace e

unfoldable pub request_id : String → String → String
request_id inbound fresh = if str_eq inbound "" then fresh else inbound

-- What `RequestID` leaves: the local of the request, if it is set, and the header of the response.
pub record Correlation : Type 0 where
  pub local : Option String
  pub header : Option String

abbrev pub correlate : String → String → Correlation
correlate inbound fresh =
    let id = request_id inbound fresh in record { local = some id; header = some id }

-- `traceID`.
abbrev pub trace_id : Option String → String
trace_id none = ""
trace_id (some id) = id

-- How the handlers behind a middleware end.
pub data Outcome : Type 0 where
  returned : Result Error Response → Outcome
  panicked : Outcome

-- `Recoverer`: a panic is answered, and is no error for the handlers in front.
abbrev pub recoverer : String → Outcome → Result Error Response
recoverer trace (returned r) = r
recoverer trace panicked = ok (error_reply 500 "internal server error" "panic" "" trace)

abbrev pub or_default : ℤ → Option ℤ → ℤ
or_default n none = n
or_default n (some m) = m

abbrev pub parsed : String → Option Uuid → Result Error Uuid
parsed text none = err (fiber_error 400 text)
parsed text (some i) = ok i

abbrev pub body_of : Result Fault CreateTaskInput → Result Error CreateTaskInput
body_of (ok input) = ok input
body_of (err e) = err (fiber_error 400 "malformed JSON body")

module _ {D C B : Type 0} (s : TaskService D C B) where
  abbrev pub Handler : Type 0
  Handler = Call (World D C B) Error Response

  abbrev pub task_id : Request → Result Error Uuid
  task_id q = parsed "invalid task id" (s.encoding.uuids.parse q.id)

  unfoldable pub create_task : Uuid → Stamp → Request → Handler
  create_task fresh stamp q = do
    input ← Defs.lift (body_of q.body)
    t ← Defs.create s fresh stamp input
    pure (reply 201 (Content.task t))

  unfoldable pub get_task : Request → Handler
  get_task q = do i ← Defs.lift (task_id q); t ← Defs.get s i; pure (reply 200 (Content.task t))

  unfoldable pub list_tasks : Request → Handler
  list_tasks q = do
    (ts, total) ← Defs.list s (or_default (pos 20) q.limit) (or_default (pos 0) q.offset)
    pure (
        reply 200
          (Content.tasks ts total (or_default (pos 20) q.limit) (or_default (pos 0) q.offset)))

  unfoldable pub delete_task : Request → Handler
  delete_task q = do i ← Defs.lift (task_id q); Defs.delete s i; pure (reply 204 Content.empty)

abbrev pub is_ok : {A : Type 0} → Result Fault A → Bool
is_ok (ok a) = true
is_ok (err e) = false

abbrev checked : Bool → String
checked up = if up then "ok" else "unavailable"

-- `Live`.
abbrev pub live : Response
live = reply 200 Content.alive

-- `NotFound`.
abbrev pub no_route : String → Response
no_route trace = error_reply 404 "route not found" "route_not_found" "" trace

-- `Ready`, given what `DB()` with `PingContext` and the ping of Redis have answered.
unfoldable pub ready : Result Fault (Unit {0}) → Result Fault (Unit {0}) → Response
ready postgres redis =
    if is_ok postgres && is_ok redis
    then reply 200 (Content.health "ok" "ok" "ok")
    else reply 503 (Content.health "degraded" (checked (is_ok postgres)) (checked (is_ok redis)))

abbrev minus : ℕ → ℤ
minus zero = pos 0
minus (suc n) = negsuc n

-- `int(window.Seconds())`, which rounds towards 0.
abbrev pub seconds : Duration → ℤ
seconds (pos n) = pos (n / 1000000000)
seconds (negsuc n) = minus ((n + 1) / 1000000000)

abbrev pub at_least_zero : ℤ → ℤ
at_least_zero (pos n) = pos n
at_least_zero (negsuc n) = pos 0

abbrev pub limit_headers : ℤ → ℤ → List (String × ℤ)
limit_headers limit count =
    ("X-RateLimit-Limit", limit) ∷ ("X-RateLimit-Remaining", at_least_zero (limit -ℤ count)) ∷ []

-- What the limiter decides: the headers to set, and the response that stops the request, if any.
abbrev pub verdict : ℤ → Duration → String → Result Fault ℤ → List (String × ℤ) × Option Response
verdict limit window trace (err e) = ([], none)
verdict limit window trace (ok count) = (
  limit_headers limit count,
  if ltb_ℤ limit count
      then some (record (error_reply 429 "rate limit exceeded" "rate_limited" "" trace) {
        headers = ("Retry-After", seconds window) ∷ [];
      })
      else none,
)

module _ {C : Type 0} (cache : Redis C) where
  -- `redisRateIncrementer`.
  abbrev pub increment : String → Duration → Call C Fault ℤ
  increment k window = cache.incr_expire k window

  -- `RateLimiter` up to `c.Next()`, for a client's address.
  unfoldable pub rate_limiter :
      ℤ → Duration → String → String → C → (List (String × ℤ) × Option Response) × C
  rate_limiter limit window ip trace c =
      let (r, c') = increment ("ratelimit:" ++ ip) window c in (verdict limit window trace r, c')
