-- ===== src/Errors.antt =====
-- Go error values, as the program builds and tests them: sentinels made by `errors.New`, the two
-- forms of `fmt.Errorf` with `%w` (the wrapped error behind or before a text), `fiber.NewError`
-- and the errors of the libraries, which are known by their text.
use golang_staterpack.Prelude.{ℕ, String, Bool, true, false, Call, map_err}
use Prim.Native.String.{◌++◌}

pub data Sentinel : Type 0 where
  not_found invalid_input llm_disabled : Sentinel

pub data Error : Type 0 where
  sentinel : Sentinel → Error
  external : String → Error
  fiber_error : ℕ → String → Error
  wrap : String → Error → Error
  detail : Error → String → Error

-- An error of a library: its sentinel for a missing record or key (`gorm.ErrRecordNotFound`,
-- `redis.Nil`), or another one, each with its text.
pub data Fault : Type 0 where
  missing failure : String → Fault

abbrev pub fault_text : Fault → String
fault_text (missing s) = s
fault_text (failure s) = s

abbrev pub from_fault : Fault → Error
from_fault e = external (fault_text e)

-- `fmt.Errorf("…: %w", err)` around a call of a library.
abbrev pub wrap_call : {K A : Type 0} → String → Call K Fault A → Call K Error A
wrap_call s m = map_err (λ e. wrap s (from_fault e)) m

abbrev pub same : Sentinel → Sentinel → Bool
same not_found not_found = true
same invalid_input invalid_input = true
same llm_disabled llm_disabled = true
same _ _ = false

-- `errors.Is(err, target)` follows the wrapped errors.
abbrev pub is : Error → Sentinel → Bool
is (sentinel s) target = same s target
is (external s) target = false
is (fiber_error n s) target = false
is (wrap s e) target = is e target
is (detail e s) target = is e target

abbrev sentinel_text : Sentinel → String
sentinel_text not_found = "repository: resource not found"
sentinel_text invalid_input = "service: invalid input"
sentinel_text llm_disabled = "llm: client disabled (no API key configured)"

-- `err.Error()`.
unfoldable pub message : Error → String
message (sentinel s) = sentinel_text s
message (external s) = s
message (fiber_error n s) = s
message (wrap s e) = s ++ (": " ++ message e)
message (detail e s) = message e ++ (": " ++ s)
