-- ===== src/Errors.antt =====
-- src/external/autodie.c, the fatal path of src/util.c, src/guts.c, the output of src/log.c, and the
-- two handlers of src/main.c: how the process reports an error and ends. The state is that of the
-- static variables of these files and of what was printed.
pub mod Alloc
pub mod Failed
pub mod Hamlib
pub mod Levels
pub mod Output
pub mod Strings
use mathlib.Core.Option.{get_or}
use righack.Base.{
  ◌++◌, ℕ, zero, suc, ◌-◌, Bool, true, false, Option, none, some, List, [], ◌∷◌, Text, bytes, take,
  ltb, leb, ◌==◌, ◌||◌, if◌then◌else◌,
}
use righack.Log.{
  LogLevel, level_fatal, level_error, level_warn, level_verbose, level_trace, level_value,
  LogSource, source_righack, source_hamlib, log_levelname, log_sourcename, Basename, found, overrun,
  log_basename,
}
use righack.Machine.{ExitValue, exit_ok, exit_fatal, exit_args, exit_nomem}

-- enum exit_value
unfoldable pub exit_code : ExitValue → ℕ
exit_code exit_ok = 0
exit_code exit_fatal = 1
exit_code exit_args = 10
exit_code exit_nomem = 100

-- autodie_handler_t; a handler that is not main's is taken to return
pub data DieHandler : Type 0 where
  autodie_handler : DieHandler
  other_handler : ℕ → DieHandler

-- What was printed: a line of the log, or text that autodie.c and `autodie_handler` print.
pub data Line : Type 0 where
  logged : (to_stderr : Bool) → (source level file function message : Text) → Line
  printed : Text → Line

pub record Process : Type 0 where
  pub current_level : LogLevel
  pub has_message_buf : Bool
  pub die_handler : Option DieHandler
  pub autodie_exit_value : ℕ
  pub inside_autodie : Bool
  pub output : List Line

pub data Ending (A : Type 0) : Type 0 where
  returned : A → Process → Ending A
  exited : ℕ → Process → Ending A
  aborted : Process → Ending A
  overran : Process → Ending A
  out_of_fuel : Process → Ending A

abbrev pub Cmd : Type 0 → Type 0
Cmd A = Process → Ending A

abbrev pub and_then : {A B : Type 0} → Ending A → (A → Cmd B) → Ending B
and_then (returned a s) k = k a s
and_then (exited v s) k = exited v s
and_then (aborted s) k = aborted s
and_then (overran s) k = overran s
and_then (out_of_fuel s) k = out_of_fuel s

infixl 5 ◌>>=◌ ◌>>◌
abbrev pub ◌>>=◌ : {A B : Type 0} → Cmd A → (A → Cmd B) → Cmd B
m >>= k = λ s. and_then (m s) k

abbrev pub ◌>>◌ : {A B : Type 0} → Cmd A → Cmd B → Cmd B
m >> n = m >>= λ _. n

abbrev pub nothing : Cmd (Unit {0})
nothing = returned tt

abbrev pub gets : {A : Type 0} → (Process → A) → Cmd A
gets f s = returned (f s) s

abbrev pub modify : (Process → Process) → Cmd (Unit {0})
modify f s = returned tt (f s)

abbrev pub print : Line → Cmd (Unit {0})
print l s = returned tt (record s { output = l ∷ s.output })

-- CONFIG_LOG_SIZE of config.h and MESSAGE_MAX_LEN of autodie.c, with the NUL
abbrev pub config_log_size : ℕ
config_log_size = 4096

abbrev pub message_max_len : ℕ
message_max_len = 1024

-- ENOMEM and EINVAL of errno.h
abbrev pub enomem : ℕ
enomem = 12

abbrev pub einval : ℕ
einval = 22

unfoldable pub log_get_current_level : Cmd LogLevel
log_get_current_level = gets (λ s. s.current_level)

unfoldable pub log_set_current_level : LogLevel → Cmd LogLevel
log_set_current_level new_level s =
    returned s.current_level (record s { current_level = new_level })

unfoldable pub autodie_register_handler : DieHandler → Cmd (Unit {0})
autodie_register_handler handler = modify (λ s. record s { die_handler = some handler })

unfoldable pub autodie_get_exit_value : Cmd ℕ
autodie_get_exit_value = gets (λ s. s.autodie_exit_value)

unfoldable pub autodie_set_exit_value : ℕ → Cmd ℕ
autodie_set_exit_value new_value s =
    returned s.autodie_exit_value (record s { autodie_exit_value = new_value })

unfoldable pub guts_exit : {A : Type 0} → ExitValue → Cmd A
unfolding exit_code
guts_exit value = exited (exit_code value)

-- The line that `log__level_args` prints, once the path is cut to its base name.
unfoldable pub emit : LogSource → LogLevel → Text → Basename → Text → Cmd (Unit {0})
unfolding log_levelname log_sourcename level_value
emit source level function overrun message = overran
emit source level function (found file) message = print (
    logged (leb (level_value level_warn) (level_value level)) (log_sourcename source)
      (log_levelname level) file function message)

-- `util_zalloc` is the allocation of the message buffer, of CONFIG_LOG_SIZE bytes; `message` is
-- what `vsnprintf` makes of the format, which is cut to the buffer.
unfoldable pub log__level_args :
    (util_zalloc : ℕ → Cmd (Unit {0}))
    → LogSource
    → LogLevel
    → (function path : Option Text) → (message : Text) → Cmd (Unit {0})
unfolding emit log_basename level_value
log__level_args util_zalloc source level function path message s =
    if ltb (level_value level) (level_value s.current_level)
    then returned tt s
    else and_then
        (if s.has_message_buf
          then returned tt s
          else and_then (util_zalloc config_log_size s)
              (λ _. modify (λ t. record t { has_message_buf = true })))
        (λ _.
          emit source level (get_or function (bytes "(no func)"))
            (log_basename (get_or path (bytes "(no file)"))) (take (config_log_size - 1) message))

-- The arguments reach the call as `va_start` made them.
unfoldable pub log__level_va :
    (util_zalloc : ℕ → Cmd (Unit {0}))
    → LogSource
    → LogLevel
    → (function path : Option Text) → (message : Text) → Cmd (Unit {0})
unfolding log__level_args level_value
log__level_va util_zalloc source level function path message s =
    if ltb (level_value level) (level_value s.current_level)
    then returned tt s
    else log__level_args util_zalloc source level function path message s

-- util__fatal_va, as `util_fatal` calls it
unfoldable pub util_fatal :
    (util_zalloc : ℕ → Cmd (Unit {0})) → (function path message : Text) → Cmd (Unit {0})
unfolding log__level_args guts_exit
util_fatal util_zalloc function path message = do
  log__level_args util_zalloc source_righack level_fatal (some function) (some path) message
  guts_exit exit_fatal

-- What `autodie_handler` reports, with the text of `strerror`.
abbrev pub died : (function message error_text : Text) → Text
died function message error_text =
    function ++ (bytes "() died \"" ++ (message ++ (bytes "\": " ++ error_text)))

-- The function `autodie_handler` of main.c; `strerror` is that of the C library.
unfoldable pub autodie_handler_run :
    (util_zalloc : ℕ → Cmd (Unit {0}))
    → (strerror : ℕ → Text) → (function : Text) → (error : ℕ) → (message : Text) → Cmd (Unit {0})
unfolding util_fatal guts_exit
autodie_handler_run util_zalloc strerror function error message =
    if error == enomem
    then (do
      print (printed (died function message (strerror error) ++ bytes "\n"))
      guts_exit exit_nomem)
    else util_fatal util_zalloc (bytes "autodie_handler") (bytes "src/main.c")
        (died function message (strerror error))

-- autodie__invoke; `call` is the call through `die_handler`. A message is cut to its buffer.
unfoldable pub autodie__invoke :
    (call : DieHandler → Text → ℕ → Text → Cmd (Unit {0}))
    → (function : Text) → (error_value : ℕ) → (fmt : Option Text) → Cmd (Unit {0})
autodie__invoke call function error_value fmt s =
    if s.inside_autodie
    then aborted (record s {
      output =
          printed (bytes "autodie: function = %s\n")
          ∷ printed (bytes "autodie: handler went reentrant\n")
          ∷ s.output;
    })
    else elim s.die_handler [
      | some h ↦
          and_then
            (call h function error_value
              (take (message_max_len - 1) (get_or fmt (bytes "(no message)")))
              (record s { inside_autodie = true }))
            (λ _ t. aborted (record t {
              output =
                  printed (bytes "autodie %s(): %s: %s\n")
                  ∷ printed (bytes "autodie: registered die handler did not stop the program\n")
                  ∷ t.output;
            }))
      | none ↦ exited s.autodie_exit_value (record s {
        inside_autodie = true;
        output = printed (bytes "autodie %s(): %s: %s\n") ∷ s.output;
      })
    ]

-- `calloc n m` is the error of an allocation of `n * m` bytes, if it fails.
module _ (calloc : ℕ → ℕ → Option ℕ) where
  unfoldable pub ad_calloc :
      (call : DieHandler → Text → ℕ → Text → Cmd (Unit {0})) → ℕ → ℕ → Cmd (Unit {0})
  unfolding autodie__invoke
  ad_calloc call nmemb size = do
    if nmemb == 0 || size == 0
        then autodie__invoke call (bytes "ad_calloc") einval (some (bytes "nmemb = %d; size = %d"))
        else nothing
    elim (calloc nmemb size) [
      | none ↦ nothing
      | some errno ↦
          autodie__invoke call (bytes "ad_calloc") errno
            (some (bytes "Could not allocate %d * %d = %d bytes"))
    ]

  unfoldable pub ad_malloc :
      (call : DieHandler → Text → ℕ → Text → Cmd (Unit {0})) → ℕ → Cmd (Unit {0})
  unfolding autodie__invoke
  ad_malloc call size = do
    if size == 0
        then autodie__invoke call (bytes "ad_malloc") einval
            (some (bytes "attempt to allocate 0 bytes"))
        else nothing
    elim (calloc 1 size) [
      | none ↦ nothing
      | some errno ↦
          autodie__invoke call (bytes "ad_malloc") errno
            (some (bytes "Could not allocate %d bytes"))
    ]

  -- `util_zalloc` and the handlers that it may reach, which may allocate in turn; `fuel` bounds how
  -- deep.
  unfoldable pub util_zalloc : (strerror : ℕ → Text) → (fuel : ℕ) → ℕ → Cmd (Unit {0})
  unfolding ad_calloc autodie_handler_run
  util_zalloc strerror zero size = out_of_fuel
  util_zalloc strerror (suc fuel) size =
      ad_calloc
        (λ h function error message. elim h [
          | autodie_handler ↦
              autodie_handler_run (util_zalloc strerror fuel) strerror function error message
          | other_handler n ↦ nothing
        ])
        1 size
