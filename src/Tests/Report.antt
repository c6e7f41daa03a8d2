-- ===== src/Tests/Report.antt =====
-- The log and the ends of the process, at concrete inputs.
use righack.Base.{
  Text, ◌≢◌, ◌⊎◌, ℕ, ◌≡◌, refl, arith, true, false, none, some, [], ◌∷◌, ◌++◌, bytes,
}
use righack.Errors.{
  printed, died, DieHandler, Process, autodie_handler, Cmd, returned, exited, enomem,
  log__level_args, util_fatal, autodie__invoke, util_zalloc,
}
use righack.Errors.Alloc.{is_returned, autodie__invoke-ends}
use righack.Errors.Failed.{util_zalloc-ends, no_memory}
use righack.Errors.Output.{line_of, log__level_args-Prints, util_fatal-Exits}
use righack.Errors.Strings.{ad_strdup, ad_strdup-returns}
use righack.Log.{
  level_fatal, level_error, level_info, source_righack, log_basename, found, overrun, level_value,
}
use righack.Log.Paths.{log_basename-last, log_basename-overrun}
use righack.Log.Reference.{log_basename-behind_last}

log_basename-behind_last_example :
    log_basename (bytes "src/drivers/vserial.c") ≡ found (bytes "vserial.c")
log_basename-behind_last_example = log_basename-behind_last (bytes "src/drivers/vserial.c") refl

log_basename-overrun_example : log_basename (bytes "src/") ≡ overrun
log_basename-overrun_example = log_basename-overrun (bytes "src") (omega arith)

main_file : log_basename (bytes "src/main.c") ≡ found (bytes "main.c")
main_file = log_basename-last (bytes "src") [] (bytes "main.c") (omega arith) tt (omega arith)

-- The start of the process, with main's handler registered and the message buffer allocated.
abbrev process : Process
process = record {
  current_level = level_info;
  has_message_buf = true;
  die_handler = some autodie_handler;
  autodie_exit_value = 1;
  inside_autodie = false;
  output = [];
}

-- A handler that returns.
abbrev no_handler : DieHandler → Text → ℕ → Text → Cmd (Unit {0})
no_handler h function error message = returned tt

abbrev fresh_process : Process
fresh_process = record process { has_message_buf = false }

abbrev error_text : ℕ → Text
error_text e = bytes "Cannot allocate memory"

-- There is memory, and the message buffer is not there yet.
log__level_args-Prints_example :
    log__level_args
      (util_zalloc (λ n m. none) error_text 1)
      source_righack
      level_error
      (some (bytes "main"))
      (some (bytes "src/main.c"))
      (bytes "hello")
      fresh_process
    ≡ returned tt (record process {
      output =
          line_of source_righack level_error (some (bytes "main")) (bytes "main.c") (bytes "hello")
          ∷ [];
    })
unfolding level_value
log__level_args-Prints_example =
    log__level_args-Prints (λ n m. none) error_text 0 fresh_process source_righack level_error
      (some (bytes "main")) (some (bytes "src/main.c")) (bytes "main.c") (bytes "hello") main_file

util_fatal-Exits_example :
    util_fatal
      (util_zalloc (λ n m. none) error_text 1)
      (bytes "main")
      (bytes "src/main.c")
      (bytes "hello")
      fresh_process
    ≡ exited 1 (record process {
      output =
          line_of source_righack level_fatal (some (bytes "main")) (bytes "main.c") (bytes "hello")
          ∷ [];
    })
util_fatal-Exits_example =
    util_fatal-Exits (λ n m. none) error_text 0 fresh_process (bytes "main") (bytes "src/main.c")
      (bytes "main.c") (bytes "hello") main_file

autodie__invoke-ends_example :
    is_returned (autodie__invoke no_handler (bytes "f") 12 none process) ≡ false
autodie__invoke-ends_example = autodie__invoke-ends no_handler (bytes "f") 12 none process

-- There is no memory.
util_zalloc-ends_example :
    util_zalloc (λ n m. some enomem) error_text 2 64 process
    ≡ exited 100 (record process {
      inside_autodie = true;
      output =
          printed
            (died (bytes "ad_calloc") no_memory (bytes "Cannot allocate memory") ++ bytes "\n")
          ∷ [];
    })
util_zalloc-ends_example =
    util_zalloc-ends (λ n m. some enomem) error_text 0 64 enomem process (λ e. omega (arith, e))
      refl refl refl

-- The copy fails.
ad_strdup-returns_example :
    ((some enomem ≡ none)
      × (ad_strdup no_handler (λ p. some enomem) (bytes "radio") process
          ≡ returned (some (bytes "radio")) process))
    ⊎ ((some enomem ≢ none)
        × (is_returned (ad_strdup no_handler (λ p. some enomem) (bytes "radio") process) ≡ false))
ad_strdup-returns_example = ad_strdup-returns no_handler (λ p. some enomem) (bytes "radio") process
