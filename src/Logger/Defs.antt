-- ===== src/Logger/Defs.antt =====
-- internal/logger/logger.go. A logger is slog's `L`, embedded; `A` is an argument of a log call, and
-- pointers to loggers may be nil.
use golang_staterpack.Prelude.{pos, String, ◌||◌, List, Option, none, some, if◌then◌else◌, str_eq}
use golang_staterpack.Libraries.Slog.{Slog, Level, Contexts, Key}
use golang_staterpack.Strings.Lower.{lowers_to}

pub record Logger (L : Type 0) : Type 0 where
  pub slog : L

unfoldable pub level_of : String → Level
level_of level =
    if lowers_to level "debug"
    then Level.debug
    else if lowers_to level "warn" || lowers_to level "warning"
    then Level.warn
    else if lowers_to level "error"
    then Level.error
    else Level.info

-- What a context holds under a key: a pointer to a logger, or a value of another type.
pub data Value (L : Type 0) : Type 0 where
  logger : Option (Logger L) → Value L
  other : Value L

-- `ok && l != nil`.
abbrev pub held : {L : Type 0} → Option (Value L) → Option (Logger L)
held none = none
held (some other) = none
held (some (logger l)) = l

abbrev pub or_fallback : {L : Type 0} → Option (Logger L) → Option (Logger L) → Option (Logger L)
or_fallback fallback none = fallback
or_fallback fallback (some l) = some l

module _ {L A W : Type 0} (slog : Slog L A W) where
  unfoldable pub new : String → String → Logger L
  unfolding level_of
  new level env = record {
    slog =
        if str_eq env "production" then slog.json (level_of level) else slog.text (level_of level);
  }

  -- `With`.
  unfoldable pub with_args : List A → Logger L → Logger L
  with_args args l = record { slog = slog.attach args l.slog }

  unfoldable pub fatal : String → List A → Logger L → W → W
  fatal message args l w = slog.exit (pos 1) (slog.error l.slog message args w)

module _ {X L : Type 0} (contexts : Contexts X (Value L)) where
  unfoldable pub from_context : Option X → Option (Logger L) → Option (Logger L)
  from_context none fallback = fallback
  from_context (some ctx) fallback = or_fallback fallback (held (contexts.value ctx Key.logger_key))

  unfoldable pub with_context : X → Option (Logger L) → X
  with_context ctx l = contexts.with_value ctx Key.logger_key (logger l)
