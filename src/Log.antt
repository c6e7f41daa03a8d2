-- ===== src/Log.antt =====
-- src/log.c and src/log.h: levels, sources, and the parts of a line of the log.
pub mod Paths
pub mod Reference
use righack.Base.{ℕ, Bool, true, false, List, [], ◌∷◌, Text, bytes, ltb, leb, ◌==◌, if◌then◌else◌}

pub data LogLevel : Type 0 where
  level_fatal level_error level_warn level_notice level_info level_verbose level_debug level_lots
        level_trace :
      LogLevel

-- The values of `enum log_level`.
unfoldable pub level_value : LogLevel → ℕ
level_value level_fatal = 100
level_value level_error = 8
level_value level_warn = 7
level_value level_notice = 6
level_value level_info = 5
level_value level_verbose = 4
level_value level_debug = 3
level_value level_lots = 2
level_value level_trace = 1

pub data LogSource : Type 0 where
  source_unknown source_righack source_hamlib : LogSource

unfoldable pub log_levelname : LogLevel → Text
log_levelname level_fatal = bytes "FATAL"
log_levelname level_error = bytes "ERROR"
log_levelname level_warn = bytes "WARN"
log_levelname level_notice = bytes "NOTICE"
log_levelname level_info = bytes "INFO"
log_levelname level_verbose = bytes "VERBOSE"
log_levelname level_debug = bytes "DEBUG"
log_levelname level_lots = bytes "LOTS"
log_levelname level_trace = bytes "TRACE"

unfoldable pub log_sourcename : LogSource → Text
log_sourcename source_unknown = bytes "unknown"
log_sourcename source_righack = bytes "righack"
log_sourcename source_hamlib = bytes "hamlib"

abbrev pub slash : ℕ
slash = b'/'

-- What `log_basename` comes to: the rest of the path that `filename` points to, or a read beyond the
-- terminating NUL.
pub data Basename : Type 0 where
  found : Text → Basename
  overrun : Basename

-- The loop of `log_basename`: `filename` and `p` are the bytes from there to the NUL. After a slash
-- `p` moves on twice, by the `++p` of the body and the `p++` of the loop.
unfoldable pub basename_loop : (filename p : Text) → Basename
basename_loop filename [] = found filename
basename_loop filename (c ∷ []) = if c == slash then overrun else found filename
basename_loop filename (c ∷ d ∷ p) =
    let after_slash = basename_loop (d ∷ p) p in
    let on = basename_loop filename (d ∷ p) in if c == slash then after_slash else on

unfoldable pub log_basename : Text → Basename
unfolding basename_loop
log_basename path = basename_loop path path
