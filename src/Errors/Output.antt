-- ===== src/Errors/Output.antt =====
-- src/log.c and src/util.c: which messages are printed, where, and how a fatal one ends.
use mathlib.Core.Option.{get_or}
use righack.Base.{
  arith, Option-cases, subst, suc, none, false, Bool, ℕ, ◌≡◌, inl, inr, true, Option, some, ◌∷◌,
  Text, bytes, take, Bool-cases, ltb, leb,
}
use righack.Errors.{
  util_zalloc, and_then, Ending, Process, Cmd, Line, logged, returned, exited, log__level_args,
  util_fatal,
}
use righack.Errors.Alloc.{
  util_zalloc-gone, util_zalloc-returned, and_then_gone, is_returned, below_fatal,
}
use righack.Log.{
  LogLevel, level_warn, level_fatal, level_value, LogSource, source_righack, log_levelname,
  log_sourcename, log_basename, found,
}

-- The line of a message.
abbrev pub line_of : LogSource → LogLevel → Option Text → Text → Text → Line
line_of source level function file message =
    logged (leb (level_value level_warn) (level_value level)) (log_sourcename source)
      (log_levelname level) file (get_or function (bytes "(no func)")) (take 4095 message)

-- What comes of a message that is to be printed as this line: whether it is below the current level,
-- whether the message buffer is there, and the error of its allocation, if that would fail.
abbrev pub Prints : Bool → Bool → Option ℕ → Process → Line → Ending (Unit {0}) → Type 0
Prints true has_buf failed s line o = o ≡ returned tt s
Prints false true failed s line o = o ≡ returned tt (record s { output = line ∷ s.output })
Prints false false none s line o =
    o ≡ returned tt (record s { has_message_buf = true; output = line ∷ s.output })
Prints false false (some errno) s line o = is_returned o ≡ false

-- The same for a fatal message.
abbrev pub Exits : Bool → Option ℕ → Process → Line → Ending (Unit {0}) → Type 0
Exits true failed s line o = o ≡ exited 1 (record s { output = line ∷ s.output })
Exits false none s line o =
    o ≡ exited 1 (record s { has_message_buf = true; output = line ∷ s.output })
Exits false (some errno) s line o = is_returned o ≡ false

module _ (calloc : ℕ → ℕ → Option ℕ) (strerror : ℕ → Text) (fuel : ℕ) (s : Process) where
  abbrev zalloc : ℕ → Cmd (Unit {0})
  zalloc = util_zalloc calloc strerror (suc fuel)

  -- A message below the current level prints nothing. Any other prints one line, with the base name
  -- of the path, if that has one, on the error stream exactly from the level of warnings on; the
  -- message buffer is allocated first if it is not there, and if that fails the call does not return.
  pub log__level_args-Prints :
      (source : LogSource) (level : LogLevel) (function path : Option Text) (file message : Text)
      → log_basename (get_or path (bytes "(no file)")) ≡ found file
      → Prints
          (ltb (level_value level) (level_value s.current_level))
          s.has_message_buf
          (calloc 1 4096)
          s
          (line_of source level function file message)
          (log__level_args zalloc source level function path message s)
  unfolding log__level_args
  log__level_args-Prints source level function path file message e =
      elim (Bool-cases (ltb (level_value level) (level_value s.current_level))) [
        | inl t ↦ rw t
        | inr t ↦ elim (Bool-cases s.has_message_buf) [
          | inl buf ↦ rw (t, buf, e)
          | inr fresh ↦ elim (Option-cases (calloc 1 4096)) [
            | inl got ↦ rw (
              t,
              fresh,
              got,
              util_zalloc-returned calloc strerror fuel 4096 (record s { has_message_buf = false })
                  (λ q. omega (arith, q)) got,
              e,
            )
            | inr (errno, failed) ↦
                rw (t, fresh, failed)
                  (and_then_gone _ _ (
                    and_then_gone _ _ (
                      util_zalloc-gone calloc strerror fuel 4096 errno
                        (record s { has_message_buf = false }) (λ q. omega (arith, q)) failed)))
          ]
        ]
      ]

  then-Exits :
      (has_buf : Bool) (failed : Option ℕ) (line : Line) (o : Ending (Unit {0}))
      → Prints false has_buf failed s line o
      → Exits has_buf failed s line (and_then o (λ _ t. exited 1 t))
  then-Exits true failed line o p = rw p
  then-Exits false none line o p = rw p
  then-Exits false (some errno) line o p = and_then_gone o _ p

  -- `util_fatal` prints its message at every current level, if the path has a base name, and exits
  -- with status 1; the message buffer is allocated first if it is not there, and if that fails the
  -- call ends otherwise, but does not return.
  pub util_fatal-Exits :
      (function path file message : Text)
      → log_basename path ≡ found file
      → Exits s.has_message_buf
          (calloc 1 4096)
          s
          (line_of source_righack level_fatal (some function) file message)
          (util_fatal zalloc function path message s)
  unfolding util_fatal
  util_fatal-Exits function path file message e = then-Exits s.has_message_buf (calloc 1 4096) _ _ (
      subst
        (λ b.
          Prints b s.has_message_buf (calloc 1 4096) s
            (line_of source_righack level_fatal (some function) file message)
            (log__level_args zalloc source_righack level_fatal (some function) (some path) message
              s))
        (below_fatal s.current_level)
        (log__level_args-Prints source_righack level_fatal (some function) (some path) file message
          e))
