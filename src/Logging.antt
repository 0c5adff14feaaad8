-- ===== src/Logging.antt =====
-- internal/logging/logging.go: the logger of a configuration; and internal/qqbot/log.go: what becomes
-- of the lines that BotGo logs. The handlers of log/slog write a record whose level is high enough.
pub mod Accepted
use gatus_qqbot.Base.{
  ℕ, Bool, true, false, List, [], ◌∷◌, ◌++◌, Option, none, some, if◌then◌else◌, ◌⊎◌, inl, inr, leb,
}
use gatus_qqbot.Config.{LogConfig}
use gatus_qqbot.Errors.{Error, message}
use gatus_qqbot.Server.Handler.{Level, debug, info, warn, error}
use gatus_qqbot.Strings.{Text, codes, text_eq, to_lower}

pub data Format : Type 0 where
  text_format json_format : Format

pub record Logger : Type 0 where
  pub level : Level
  pub format : Format

unfoldable pub level_of : Text → Option Level
level_of t =
    if text_eq t (codes "debug")
    then some debug
    else if text_eq t (codes "info")
    then some info
    else if text_eq t (codes "warn")
    then some warn
    else if text_eq t (codes "error")
    then some error
    else none

unfoldable pub format_of : Text → Option Format
format_of t =
    if text_eq t (codes "text")
    then some text_format
    else if text_eq t (codes "json")
    then some json_format
    else none

-- The values are printed without the escapes of %q.
abbrev unsupported : Text → Text → Error
unsupported what value =
    message (codes "unsupported log " ++ (what ++ (codes " \"" ++ (value ++ codes "\""))))

unfoldable pub with_format : LogConfig → Level → Option Format → Error ⊎ Logger
with_format c level none = inl (unsupported (codes "format") c.format)
with_format c level (some f) = inr (record { level = level; format = f })

unfoldable pub with_level : LogConfig → Option Level → Error ⊎ Logger
unfolding with_format
with_level c none = inl (unsupported (codes "level") c.level)
with_level c (some level) = with_format c level (format_of (to_lower c.format))

-- New
unfoldable pub new_logger : LogConfig → Error ⊎ Logger
unfolding with_level
new_logger c = with_level c (level_of (to_lower c.level))

-- the methods of SlogAdapter, with the printed line; Sync returns nil
unfoldable pub adapt : Level → Text → List (Level × Text)
adapt debug line = []
adapt info line = []
adapt warn line = (warn, line) ∷ []
adapt error line = (error, line) ∷ []

-- the logger that SlogAdapter writes to: its own, or else slog's default one
unfoldable pub adapter_logger : Option Logger → Logger → Logger
adapter_logger none standard = standard
adapter_logger (some l) standard = l
