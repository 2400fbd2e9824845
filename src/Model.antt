-- ===== src/Model.antt =====
-- internal/model/task.go. A UUID is read as the number that its 16 bytes spell, `uuid.Nil` is 0; a
-- time is a count of nanoseconds. `TaskStatus` is a string type, so a status may be any text.
use golang_staterpack.Prelude.{
  ℕ, ℤ, String, Bool, true, false, Option, ◌||◌, if◌then◌else◌, ◌==◌, str_eq,
}

abbrev pub Uuid : Type 0
Uuid = ℕ

abbrev pub Time : Type 0
Time = ℤ

abbrev pub Duration : Type 0
Duration = ℤ

abbrev pub Bytes : Type 0
Bytes = String

abbrev pub nil_uuid : Uuid
nil_uuid = 0

abbrev pub TaskStatus : Type 0
TaskStatus = String

abbrev pub pending : TaskStatus
pending = "pending"

abbrev pub processing : TaskStatus
processing = "processing"

abbrev pub completed : TaskStatus
completed = "completed"

abbrev pub failed : TaskStatus
failed = "failed"

pub record Task : Type 0 where
  pub id : Uuid
  pub title : String
  pub description : String
  pub status : TaskStatus
  pub summary : String
  pub created_at : Time
  pub updated_at : Time
  pub deleted_at : Option Time

-- `TaskStatus.Valid`.
unfoldable pub valid : TaskStatus → Bool
valid s =
    if str_eq s pending || str_eq s processing || str_eq s completed || str_eq s failed
    then true
    else false

abbrev set_default_id : Uuid → Task → Task
set_default_id fresh t = if t.id == nil_uuid then record t { id = fresh } else t

abbrev set_default_status : Task → Task
set_default_status t = if str_eq t.status "" then record t { status = pending } else t

-- `BeforeCreate`; `fresh` is what `uuid.New()` returns. It always returns a nil error.
unfoldable pub before_create : Uuid → Task → Task
before_create fresh t = set_default_status (set_default_id fresh t)
