-- ===== src/Libraries/Slog.antt =====
-- log/slog and context, as internal/logger uses them. `L` is slog's logger, `A` an argument of a log
-- call, `X` a context and `V` a value in one.
use golang_staterpack.Prelude.{ℤ, String, List, Option, some, ◌≡◌}

pub data Level : Type 0 where
  debug info warn error : Level

-- A logger over `os.Stdout`, from `NewJSONHandler` or `NewTextHandler`.
pub record Slog (L A W : Type 0) : Type 0 where
  pub json : Level → L
  pub text : Level → L
  pub attach : List A → L → L
  pub error : L → String → List A → W → W
  pub exit : ℤ → W → W

-- A key is known by its type: the one of the logger, or another package's.
pub data Key : Type 0 where
  logger_key : Key
  foreign : String → Key

pub record Contexts (X V : Type 0) : Type 0 where
  pub value : X → Key → Option V
  pub with_value : X → Key → V → X

pub record IsContexts {X V : Type 0} (c : Contexts X V) : Type 0 where
  pub value-with_value : (x : X) (k : Key) (v : V) → c.value (c.with_value x k v) k ≡ some v
  pub value-with_foreign :
      (x : X) (name : String) (v : V)
      → c.value (c.with_value x (Key.foreign name) v) Key.logger_key ≡ c.value x Key.logger_key
