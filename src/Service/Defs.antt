-- ===== src/Service/Defs.antt =====
-- internal/service/task_service.go. The world that a call changes is the database, the cache and
-- the message broker, each with a state of its own.
use golang_staterpack.Prelude.{
  ℕ, ℤ, pos, String, Bool, ◌||◌, List, Option, none, some, Result, ok, err, Call, ◌>>=◌, ◌>>◌, pure,
  map_err, attempt, if◌then◌else◌, ◌==◌, ltb, str_eq, leb_ℤ, ltb_ℤ,
}
use Prim.Native.String.{◌++◌, len}
use golang_staterpack.Errors.{Error, Fault, sentinel, invalid_input, wrap, detail}
use golang_staterpack.Model.{
  Uuid, Time, Duration, Bytes, Task, pending, processing, completed, failed, nil_uuid,
}
use golang_staterpack.Libraries.Redis.{Redis}
use golang_staterpack.Libraries.Json.{Codec}
use golang_staterpack.Libraries.Uuid.{Uuids}
use golang_staterpack.Event.{Envelope, TaskCreatedPayload, new, routing_task_created}
use golang_staterpack.Repository.Defs.{TaskRepository}

-- `Publisher`.
pub record Publisher (B : Type 0) : Type 0 where
  pub publish : String → Bytes → Call B Error (Unit {0})

-- What the libraries do without a state.
pub record Encoding : Type 0 where
  pub uuids : Uuids
  pub tasks : Codec Task
  pub payloads : Codec TaskCreatedPayload
  pub envelopes : Codec Envelope

pub record World (D C B : Type 0) : Type 0 where
  pub db : D
  pub cache : C
  pub broker : B

-- `TaskService`.
pub record TaskService (D C B : Type 0) : Type 0 where
  pub repo : TaskRepository D
  pub publisher : Publisher B
  pub cache : Redis C
  pub encoding : Encoding

-- `NewTaskService`; encoding/json and google/uuid are packages in Go.
abbrev pub new_task_service :
    {D C B : Type 0} → TaskRepository D → Publisher B → Redis C → Encoding → TaskService D C B
new_task_service repo publisher cache encoding = record {
  repo = repo;
  publisher = publisher;
  cache = cache;
  encoding = encoding;
}

pub record CreateTaskInput : Type 0 where
  pub title : String
  pub description : String

-- What a call draws from `uuid.NewString()` and `time.Now()` for an event.
pub record Stamp : Type 0 where
  pub event_id : String
  pub now : Time

abbrev pub invalid : String → Result Error (Unit {0})
invalid s = err (detail (sentinel invalid_input) s)

-- `len` counts bytes.
unfoldable pub validate : CreateTaskInput → Result Error (Unit {0})
validate input =
    if len input.title == 0
    then invalid "title is required"
    else if ltb 255 (len input.title)
    then invalid "title exceeds 255 characters"
    else if ltb 20000 (len input.description)
    then invalid "description exceeds 20000 characters"
    else ok tt

-- The literal in `Create`; the other fields are zero values.
abbrev pub new_task : CreateTaskInput → Task
new_task input = record {
  id = nil_uuid;
  title = input.title;
  description = input.description;
  status = pending;
  summary = "";
  created_at = pos 0;
  updated_at = pos 0;
  deleted_at = none;
}

-- `5*time.Minute`.
abbrev pub cache_ttl : Duration
cache_ttl = pos 300000000000

module _ {D C B : Type 0} where
  abbrev pub on_db {ℓ} : {E A : Type ℓ} → Call D E A → Call (World D C B) E A
  on_db m w = let (r, d) = m w.db in (r, record w { db = d })

  abbrev pub on_cache {ℓ} : {E A : Type ℓ} → Call C E A → Call (World D C B) E A
  on_cache m w = let (r, c) = m w.cache in (r, record w { cache = c })

  abbrev pub on_broker {ℓ} : {E A : Type ℓ} → Call B E A → Call (World D C B) E A
  on_broker m w = let (r, b) = m w.broker in (r, record w { broker = b })

abbrev pub lift : {W A : Type 0} → Result Error A → Call W Error A
lift r w = (r, w)

-- A call whose error is only logged.
abbrev pub logged : {W E A : Type 0} → Call W E A → Call W Error (Unit {0})
logged m = attempt m λ _. pure tt

-- `json.Unmarshal` of what the cache has answered.
abbrev pub cached_task : Codec Task → Result Fault Bytes → Option Task
cached_task tasks (err e) = none
cached_task tasks (ok raw) = elim (tasks.unmarshal raw) [ ok t ↦ some t | err e ↦ none ]

module _ {D C B : Type 0} (s : TaskService D C B) where
  abbrev pub Do : Type 0 → Type 0
  Do A = Call (World D C B) Error A

  abbrev pub key : Uuid → String
  key i = "task:" ++ s.encoding.uuids.string i

  abbrev pub created_event : Stamp → Task → Result Error Bytes
  created_event stamp t =
      new s.encoding.payloads s.encoding.envelopes stamp.event_id stamp.now routing_task_created
        (record { task_id = t.id; title = t.title; description = t.description })

  abbrev pub publish_created : Bytes → Do (Unit {0})
  publish_created body = on_broker (s.publisher.publish routing_task_created body)

  -- `cacheSet`.
  unfoldable pub cache_set : String → Task → Do (Unit {0})
  cache_set k t = elim (s.encoding.tasks.marshal t) [
    | ok raw ↦ logged (on_cache (s.cache.set k raw cache_ttl))
    | err e ↦ pure tt
  ]

  unfoldable pub invalidate : Uuid → Do (Unit {0})
  invalidate i = logged (on_cache (s.cache.del (key i)))

  unfoldable pub create : Uuid → Stamp → CreateTaskInput → Do Task
  create fresh stamp input = do
    lift (validate input)
    task ← on_db (s.repo.create fresh (new_task input))
    logged (do body ← lift (created_event stamp task); publish_created body)
    pure task

  -- A miss, an error of the cache and an entry that does not decode all fall through.
  unfoldable pub load : Uuid → Do Task
  load i = do task ← on_db (s.repo.get_by_id i); cache_set (key i) task; pure task

  unfoldable pub serve : Uuid → Option Task → Do Task
  unfolding load
  serve i (some cached) = pure cached
  serve i none = load i

  unfoldable pub get : Uuid → Do Task
  unfolding serve
  get i = attempt (on_cache (s.cache.get (key i))) λ r. serve i (cached_task s.encoding.tasks r)

  unfoldable pub list : ℤ → ℤ → Do (List Task × ℕ)
  list limit offset = on_db (
      s.repo.list (if leb_ℤ limit (pos 0) || ltb_ℤ (pos 100) limit then pos 20 else limit)
        (if ltb_ℤ offset (pos 0) then pos 0 else offset))

  unfoldable pub delete : Uuid → Do (Unit {0})
  unfolding invalidate
  delete i = do on_db (s.repo.delete i); invalidate i

  unfoldable pub begin_processing : Uuid → Do Bool
  unfolding invalidate
  begin_processing i = do
    claimed ← on_db (s.repo.mark_processing i)
    if claimed then invalidate i else pure tt
    pure claimed

  unfoldable pub find_stale : Time → Time → ℤ → Do (List Task)
  find_stale pending_before processing_before limit =
      on_db (s.repo.find_stale pending_before processing_before limit)

  unfoldable pub mark_failed : Uuid → Do (Unit {0})
  mark_failed i = on_db (s.repo.update_status i failed "")

  unfoldable pub mark_pending : Uuid → Do (Unit {0})
  unfolding invalidate
  mark_pending i = do on_db (s.repo.update_status i pending ""); invalidate i

  abbrev pub reset_stranded : Task → Do (Unit {0})
  reset_stranded task =
      if str_eq task.status processing
      then map_err (wrap ("reset stranded task " ++ s.encoding.uuids.string task.id))
          (mark_pending task.id)
      else pure tt

  unfoldable pub republish_created : Stamp → Task → Do (Unit {0})
  republish_created stamp task = do
    reset_stranded task
    body ←
        map_err (wrap ("marshal task.created for " ++ s.encoding.uuids.string task.id))
          (lift (created_event stamp task))
    publish_created body

  unfoldable pub apply_summary : Uuid → String → Do (Unit {0})
  apply_summary i summary = do
    on_db (s.repo.update_status i completed summary)
    attempt (on_db (s.repo.get_by_id i))
        λ r. elim r [ ok task ↦ cache_set (key i) task | err e ↦ pure tt ]
