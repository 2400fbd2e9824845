-- ===== src/Repository/Defs.antt =====
-- internal/repository/task_repository.go: the interface that the service depends on, and its
-- implementation over GORM. The state `D` is the database's.
use golang_staterpack.Prelude.{
  ℕ, ℤ, pos, String, Bool, List, [], ◌∷◌, none, some, Result, ok, err, Call, ◌>>=◌, pure, fail,
  map_err, if◌then◌else◌, ◌==◌, str_eq, leb_ℤ,
}
use golang_staterpack.Errors.{Error, Fault, missing, failure, sentinel, not_found, wrap, from_fault}
use golang_staterpack.Model.{Uuid, Time, TaskStatus, Task, pending, processing, before_create}
use golang_staterpack.Libraries.Gorm.{
  Gorm, Query, Condition, id_is, status_is, created_before, updated_before, both, either, Column,
  set_status, set_summary, created_asc, created_desc,
}

-- `TaskRepository`. `create` takes the UUID that the `BeforeCreate` hook would draw, and returns the
-- task that the pointer holds afterwards.
pub record TaskRepository (D : Type 0) : Type 0 where
  pub create : Uuid → Task → Call D Error Task
  pub get_by_id : Uuid → Call D Error Task
  pub list : ℤ → ℤ → Call D Error (List Task × ℕ)
  pub update : Task → Call D Error (Unit {0})
  pub update_status : Uuid → TaskStatus → String → Call D Error (Unit {0})
  pub delete : Uuid → Call D Error (Unit {0})
  pub mark_processing : Uuid → Call D Error Bool
  pub find_stale : Time → Time → ℤ → Call D Error (List Task)

abbrev pub wrapped : String → Fault → Error
wrapped s e = wrap s (from_fault e)

-- `errors.Is(err, gorm.ErrRecordNotFound)`.
abbrev pub first_result : Result Fault Task → Result Error Task
first_result (ok t) = ok t
first_result (err (missing s)) = err (sentinel not_found)
first_result (err (failure s)) = err (wrapped "get task" (failure s))

-- The map that `UpdateStatus` builds.
abbrev pub status_columns : TaskStatus → String → List Column
status_columns s summary =
    set_status s ∷ (if str_eq summary "" then [] else set_summary summary ∷ [])

-- `if res.RowsAffected == 0 { return ErrNotFound }`.
abbrev pub found : {D : Type 0} → ℕ → Call D Error (Unit {0})
found n = if n == 0 then fail (sentinel not_found) else pure tt

abbrev pub page : ℤ → ℤ → Query
page limit offset = record { filter = none; order = created_desc; limit = limit; offset = offset }

-- `id = ? AND status = ?`, at `pending`.
abbrev pub claimable : Uuid → Condition
claimable i = both (id_is i) (status_is pending)

abbrev pub stale_condition : Time → Time → Condition
stale_condition pending_before processing_before =
    either (both (status_is pending) (created_before pending_before))
      (both (status_is processing) (updated_before processing_before))

abbrev pub stale_query : Time → Time → ℤ → Query
stale_query pending_before processing_before limit = record {
  filter = some (stale_condition pending_before processing_before);
  order = created_asc;
  limit = if leb_ℤ limit (pos 0) then pos 100 else limit;
  offset = pos 0;
}

module _ {D : Type 0} (g : Gorm D) where
  unfoldable pub create : Uuid → Task → Call D Error Task
  create fresh t = map_err (wrapped "create task") (g.insert (before_create fresh t))

  unfoldable pub get_by_id : Uuid → Call D Error Task
  get_by_id i d = let (r, d') = g.first (id_is i) d in (first_result r, d')

  unfoldable pub list : ℤ → ℤ → Call D Error (List Task × ℕ)
  list limit offset = do
    total ← map_err (wrapped "count tasks") g.count
    tasks ← map_err (wrapped "list tasks") (g.find (page limit offset))
    pure (tasks, total)

  unfoldable pub update : Task → Call D Error (Unit {0})
  update t = map_err (wrapped "update task") (g.save t)

  unfoldable pub update_status : Uuid → TaskStatus → String → Call D Error (Unit {0})
  update_status i s summary = do
    n ← map_err (wrapped "update task status") (g.updates (id_is i) (status_columns s summary))
    found n

  unfoldable pub delete : Uuid → Call D Error (Unit {0})
  delete i = do n ← map_err (wrapped "delete task") (g.delete (id_is i)); found n

  unfoldable pub mark_processing : Uuid → Call D Error Bool
  mark_processing i = do
    n ← map_err (wrapped "mark processing") (g.updates (claimable i) (set_status processing ∷ []))
    pure (n == 1)

  unfoldable pub find_stale : Time → Time → ℤ → Call D Error (List Task)
  find_stale pending_before processing_before limit =
      map_err (wrapped "find stale tasks")
        (g.find (stale_query pending_before processing_before limit))

  unfoldable pub auto_migrate : Call D Error (Unit {0})
  auto_migrate = map_err (wrapped "auto-migrate") g.auto_migrate

  -- `NewTaskRepository`.
  abbrev pub task_repository : TaskRepository D
  task_repository = record {
    create = create;
    get_by_id = get_by_id;
    list = list;
    update = update;
    update_status = update_status;
    delete = delete;
    mark_processing = mark_processing;
    find_stale = find_stale;
  }
