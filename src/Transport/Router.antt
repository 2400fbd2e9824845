-- ===== src/Transport/Router.antt =====
-- internal/transport/http/router.go: the registrations of `NewRouter`, and what they do with a request.
-- Which of them match it is Fiber's decision, and a parameter. No handler of
-- this model panics, so that the recoverer hands every result on; the header of the request ID is
-- left out, and an arrival holds the trace that `traceID` finds.
use golang_staterpack.Prelude.{
  ℤ, String, Bool, true, false, List, [], ◌∷◌, ◌++◌, Option, none, some, Result, ok, err, Call,
  if◌then◌else◌,
}
use golang_staterpack.Errors.{Error, Fault}
use golang_staterpack.Model.{Uuid, Duration}
use golang_staterpack.Service.Defs.{World, TaskService, Stamp}
use golang_staterpack.Transport.Defs.{
  Request, Response, create_task, get_task, list_tasks, delete_task, live, ready, no_route,
  rate_limiter, Handler, Outcome, recoverer,
}

-- `HealthHandler`: `DB()` with `PingContext`, and the ping of Redis.
pub record HealthHandler (D C : Type 0) : Type 0 where
  pub ping_postgres : Call D Fault (Unit {0})
  pub ping_redis : Call C Fault (Unit {0})

pub data Action : Type 0 where
  request_ids recovers limits lives readies creates lists gets deletes missing : Action

-- `Use` has no method.
pub record Registration : Type 0 where
  pub method : String
  pub path : String
  pub action : Action

abbrev pub on : String → String → Action → Registration
on method path action = record { method = method; path = path; action = action }

abbrev pub uses : String → Action → Registration
uses path action = on "" path action

abbrev pub task_routes : List Registration
task_routes =
    on "POST" "/api/v1/tasks/" Action.creates
    ∷ on "GET" "/api/v1/tasks/" Action.lists
    ∷ on "GET" "/api/v1/tasks/:id" Action.gets
    ∷ on "DELETE" "/api/v1/tasks/:id" Action.deletes
    ∷ []

-- The limiter may be nil.
abbrev pub api_routes : Bool → List Registration
api_routes true = uses "/api/v1" Action.limits ∷ task_routes
api_routes false = task_routes

abbrev pub registrations : Bool → List Registration
registrations is_limited =
    uses "" Action.request_ids
      ∷ uses "" Action.recovers
      ∷ on "GET" "/health/live" Action.lives
      ∷ on "GET" "/health/ready" Action.readies
      ∷ api_routes is_limited
    ++ (uses "" Action.missing ∷ [])

-- The actions of the registrations that match, in their order.
unfoldable pub matched : (Registration → Bool) → List Registration → List Action
matched matches [] = []
matched matches (r ∷ rs) =
    let rest = matched matches rs in if matches r then r.action ∷ rest else rest

-- A request with the address and the ID that Fiber has for it, what the handlers draw, and what Fiber
-- answers where nothing is left to run.
pub record Arrival : Type 0 where
  pub request : Request
  pub ip : String
  pub trace : String
  pub fresh : Uuid
  pub stamp : Stamp
  pub unrouted : Error

module _ {D C B : Type 0} (s : TaskService D C B) (health : HealthHandler D C) (limit : ℤ)
    (window : Duration) (a : Arrival) where
  -- The headers that are set, with the result of the handler.
  abbrev pub Served : Type 0
  Served = (List (String × ℤ) × Result Error Response) × World D C B

  abbrev ends : Handler s → World D C B → Served
  ends m w = let (r, w') = m w in (([], r), w')

  abbrev pub limited : World D C B → (List (String × ℤ) × Option Response) × C
  limited w = rate_limiter s.cache limit window a.ip a.trace w.cache

  -- Both pings are made, whatever the first one answers.
  abbrev pub probed : World D C B → Response × World D C B
  probed w =
      let (postgres, d) = health.ping_postgres w.db in
      let (redis, c) = health.ping_redis w.cache in
      (ready postgres redis, record w { db = d; cache = c })

  unfoldable pub serve : List Action → World D C B → Served
  serve [] w = (([], err a.unrouted), w)
  serve (Action.request_ids ∷ rest) w = serve rest w
  serve (Action.recovers ∷ rest) w =
      let ((headers, r), w') = serve rest w in
      ((headers, recoverer a.trace (Outcome.returned r)), w')
  serve (Action.limits ∷ rest) w =
      let ((headers, stop), c) = limited w in
      let w' = record w { cache = c } in
      let ((hs, r), w'') = serve rest w' in
      elim stop [ some refusal ↦ ((headers, ok refusal), w') | none ↦ ((headers ++ hs, r), w'') ]
  serve (Action.lives ∷ rest) w = (([], ok live), w)
  serve (Action.readies ∷ rest) w = let (response, w') = probed w in (([], ok response), w')
  serve (Action.creates ∷ rest) w = ends (create_task s a.fresh a.stamp a.request) w
  serve (Action.lists ∷ rest) w = ends (list_tasks s a.request) w
  serve (Action.gets ∷ rest) w = ends (get_task s a.request) w
  serve (Action.deletes ∷ rest) w = ends (delete_task s a.request) w
  serve (Action.missing ∷ rest) w = (([], ok (no_route a.trace)), w)
