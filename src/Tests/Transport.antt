-- ===== src/Tests/Transport.antt =====
-- Runs of the transport over the sample service and a counter.
use golang_staterpack.Prelude.{
  ℕ, suc, pos, Bool, true, ◌&&◌, ◌||◌, [], ◌∷◌, str_eq, ◌≡◌, refl, none, ok, err, if◌then◌else◌,
  leb,
}
use golang_staterpack.Errors.{Error, failure}
use golang_staterpack.Libraries.Redis.{Redis}
use golang_staterpack.Samples.Database.{Store}
use golang_staterpack.Samples.Memory.{Memory}
use golang_staterpack.Samples.Services.{service, world_with, request, stamp}
use golang_staterpack.Transport.Defs.{Request, error_reply, rate_limiter}
use golang_staterpack.Transport.Router.{
  Arrival, HealthHandler, Registration, Served, serve, matched, registrations,
}
use golang_staterpack.Transport.Admission.{IsNested, IsGuarded, serve-IsGuarded}
use golang_staterpack.Transport.Limits.{CountsUp, admitted, admitted_lem}

abbrev refusal : Error
refusal = Error.wrap "get task" (Error.external "password authentication failed")

abbrev timeout : Error
timeout = Error.external "timeout"

abbrev post : Request
post = record { body = ok request; id = ""; limit = none; offset = none }

-- A Redis that counts.
abbrev counter : Redis ℕ
counter = record {
  get = λ k n. (err (failure "no entry"), n);
  set = λ k b ttl n. (ok tt, n);
  set_nx = λ k b ttl n. (err (failure "no entry"), n);
  del = λ k n. (ok tt, n);
  incr_expire = λ k ttl n. (ok (pos (suc n)), suc n);
  ping = λ n. (ok tt, n);
}

counter-CountsUp : CountsUp counter (λ n. n) "ratelimit:10.0.0.1" (pos 60000000000)
counter-CountsUp n = (refl, refl)

admitted_lem_example :
    admitted counter (pos 3) (pos 60000000000) "10.0.0.1" "r1" 5 0 ≡ (if leb 5 3 then 5 else 3)
admitted_lem_example =
    admitted_lem counter (λ n. n) 3 (pos 60000000000) "10.0.0.1" "r1" counter-CountsUp 5 0 refl

-- `POST /api/v1/tasks/` from an address whose limit of 0 is used up.
abbrev arrival : Arrival
arrival = record {
  request = post;
  ip = "10.0.0.1";
  trace = "r1";
  fresh = 7;
  stamp = stamp;
  unrouted = Error.fiber_error 404 "Cannot POST /api/v1/tasks/";
}

abbrev health : HealthHandler Store Memory
health = record { ping_postgres = λ d. (ok tt, d); ping_redis = λ c. (ok tt, c) }

abbrev is_posted : Registration → Bool
is_posted r =
    str_eq r.method "" && (str_eq r.path "" || str_eq r.path "/api/v1")
    || str_eq r.method "POST" && str_eq r.path "/api/v1/tasks/"

is_posted-IsNested : IsNested is_posted
is_posted-IsNested r at h = refl

abbrev refused : Served service health (pos 0) (pos 60000000000) arrival
refused =
    serve service health (pos 0) (pos 60000000000) arrival (matched is_posted (registrations true))
      (world_with none)

refused_run :
    refused.0.1
    ≡ ok (record (error_reply 429 "rate limit exceeded" "rate_limited" "" "r1") {
      headers = ("Retry-After", pos 60) ∷ [];
    })
unfolding serve matched rate_limiter
refused_run = refl

serve-IsGuarded_example :
    IsGuarded service health (pos 0) (pos 60000000000) arrival is_posted (world_with none) refused
serve-IsGuarded_example =
    serve-IsGuarded service health (pos 0) (pos 60000000000) arrival is_posted is_posted-IsNested
      (world_with none)
