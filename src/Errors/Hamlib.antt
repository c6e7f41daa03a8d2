-- ===== src/Errors/Hamlib.antt =====
-- src/main.c: `hamlib_debug_handler`, which passes hamlib's messages on to the log.
use righack.Base.{ℕ, Option, none, some, [], ◌∷◌, Text, ltb, ◌==◌, if◌then◌else◌}
use righack.Errors.{Cmd, returned, overran, log__level_args}
use righack.Log.{
  LogLevel, level_fatal, level_error, level_warn, level_verbose, level_trace, level_value,
  source_hamlib,
}

-- enum rig_debug_level_e; `debug_other` is any level that the switch does not name
pub data DebugLevel : Type 0 where
  debug_none debug_bug debug_err debug_warn debug_verbose debug_trace : DebugLevel
  debug_other : ℕ → DebugLevel

-- The switch of the handler.
unfoldable pub hamlib_log_at : DebugLevel → LogLevel
hamlib_log_at debug_none = level_trace
hamlib_log_at debug_bug = level_error
hamlib_log_at debug_err = level_error
hamlib_log_at debug_warn = level_warn
hamlib_log_at debug_verbose = level_verbose
hamlib_log_at debug_trace = level_trace
hamlib_log_at (debug_other n) = level_fatal

abbrev pub newline : ℕ
newline = 10

-- `new_fmt` less one newline at its end; nothing for the empty text, where `new_fmt[len - 1]` lies
-- outside the copy.
unfoldable pub strip_newline : Text → Option Text
strip_newline [] = none
strip_newline (c ∷ []) = some (if c == newline then [] else c ∷ [])
strip_newline (c ∷ d ∷ p) = elim (strip_newline (d ∷ p)) [ none ↦ none | some q ↦ some (c ∷ q) ]

-- `format` is what `vsnprintf` makes of a format with the handler's arguments; the copy by
-- `ad_strdup` is taken to succeed.
unfoldable pub hamlib_debug_handler :
    (util_zalloc : ℕ → Cmd (Unit {0})) → (format : Text → Text) → DebugLevel → Text → Cmd (Unit {0})
unfolding hamlib_log_at strip_newline
hamlib_debug_handler util_zalloc format debug_level fmt s =
    if ltb (level_value (hamlib_log_at debug_level)) (level_value s.current_level)
    then returned tt s
    else elim (strip_newline fmt) [
      | none ↦ overran s
      | some new_fmt ↦
          log__level_args util_zalloc source_hamlib (hamlib_log_at debug_level) none none
            (format new_fmt) s
    ]
