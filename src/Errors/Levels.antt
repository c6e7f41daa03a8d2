-- ===== src/Errors/Levels.antt =====
-- src/log.h: the macros that log at a level, with the name of the calling function and its file.
use Prim.Native.Nat.{ℕ}
use righack.Base.{ℕ, some, Text}
use righack.Errors.{Cmd, log__level_va}
use righack.Log.{
  source_righack, level_fatal, level_warn, level_notice, level_info, level_verbose, level_debug,
  level_lots, level_trace,
}

module _ (util_zalloc : ℕ → Cmd (Unit {0})) (function path message : Text) where
  -- It does not end the process.
  unfoldable pub log_fatal : Cmd (Unit {0})
  unfolding log__level_va
  log_fatal =
      log__level_va util_zalloc source_righack level_fatal (some function) (some path) message

  unfoldable pub log_warn : Cmd (Unit {0})
  unfolding log__level_va
  log_warn = log__level_va util_zalloc source_righack level_warn (some function) (some path) message

  unfoldable pub log_notice : Cmd (Unit {0})
  unfolding log__level_va
  log_notice =
      log__level_va util_zalloc source_righack level_notice (some function) (some path) message

  unfoldable pub log_info : Cmd (Unit {0})
  unfolding log__level_va
  log_info = log__level_va util_zalloc source_righack level_info (some function) (some path) message

  unfoldable pub log_verbose : Cmd (Unit {0})
  unfolding log__level_va
  log_verbose =
      log__level_va util_zalloc source_righack level_verbose (some function) (some path) message

  unfoldable pub log_debug : Cmd (Unit {0})
  unfolding log__level_va
  log_debug =
      log__level_va util_zalloc source_righack level_debug (some function) (some path) message

  unfoldable pub log_lots : Cmd (Unit {0})
  unfolding log__level_va
  log_lots = log__level_va util_zalloc source_righack level_lots (some function) (some path) message

  unfoldable pub log_trace : Cmd (Unit {0})
  unfolding log__level_va
  log_trace =
      log__level_va util_zalloc source_righack level_trace (some function) (some path) message
