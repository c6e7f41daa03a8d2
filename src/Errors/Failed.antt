-- ===== src/Errors/Failed.antt =====
-- src/external/autodie.c and src/main.c: what a failed allocation comes to, with what is printed.
use righack.Base.{
  ◌∙◌, subst, sym, ap, Bool, ℕ, suc, ◌≡◌, ◌≢◌, inl, inr, false, true, Option, none, some, Text,
  bytes, arith, ◌∷◌, ◌++◌, Bool-cases, Option-cases, ◌==◌, if◌then◌else◌,
}
use righack.Errors.{
  Process, Ending, Line, printed, autodie_handler, exited, aborted, enomem, died, util_zalloc,
}
use righack.Errors.Alloc.{below_fatal}
use righack.Errors.Output.{line_of}
use righack.Log.{level_fatal, source_righack}

-- The message of `ad_calloc`.
abbrev pub no_memory : Text
no_memory = bytes "Could not allocate %d * %d = %d bytes"

-- The line that `autodie_handler` logs for it.
abbrev pub failure_line : Text → Line
failure_line error_text =
    line_of source_righack level_fatal (some (bytes "autodie_handler")) (bytes "main.c")
      (died (bytes "ad_calloc") no_memory error_text)

-- The process in which the report is made: main's handler is registered.
abbrev reporting : Process → Bool → Process
reporting s has_buf = record s {
  has_message_buf = has_buf;
  die_handler = some autodie_handler;
  inside_autodie = false;
}

module _ (calloc : ℕ → ℕ → Option ℕ) (strerror : ℕ → Text) where
  -- The end of the process after the error `errno`: without memory the report is printed apart from
  -- the log, and the exit status is 100. With any other error it is logged as fatal and the status is
  -- 1; the message buffer is allocated for it if there is none, and if that fails too, the process
  -- aborts.
  abbrev pub end_of_failure : ℕ → Process → Ending (Unit {0})
  end_of_failure errno s =
      if errno == enomem
      then exited 100 (record s {
        inside_autodie = true;
        output =
            printed (died (bytes "ad_calloc") no_memory (strerror errno) ++ bytes "\n") ∷ s.output;
      })
      else if s.has_message_buf
      then exited 1
          (record s { inside_autodie = true; output = failure_line (strerror errno) ∷ s.output })
      else elim (calloc 1 4096) [
        | none ↦ exited 1 (record s {
          inside_autodie = true;
          has_message_buf = true;
          output = failure_line (strerror errno) ∷ s.output;
        })
        | some _ ↦ aborted (record s {
          inside_autodie = true;
          output =
              printed (bytes "autodie: function = %s\n")
              ∷ printed (bytes "autodie: handler went reentrant\n")
              ∷ s.output;
        })
      ]

  module _ (fuel size errno : ℕ) (s : Process) (ne : size ≢ 0)
      (failed : calloc 1 size ≡ some errno) where
    reporting_ends :
        (has_buf : Bool)
        → util_zalloc calloc strerror (suc (suc fuel)) size (reporting s has_buf)
          ≡ end_of_failure errno (reporting s has_buf)
    unfolding util_zalloc
    reporting_ends true =
        let t : (size == 0) ≡ false = ground arith in
        elim (Bool-cases (errno == enomem)) [
          | inl mem ↦ rw (t, failed, mem)
          | inr other ↦ rw (t, failed, other, below_fatal s.current_level)
        ]
    reporting_ends false =
        let t : (size == 0) ≡ false = ground arith in
        elim (Bool-cases (errno == enomem)) [
          | inl mem ↦ rw (t, failed, mem)
          | inr other ↦ elim (Option-cases (calloc 1 4096)) [
            | inl got ↦ rw (t, failed, other, below_fatal s.current_level, got)
            | inr (e, again) ↦ rw (t, failed, other, below_fatal s.current_level, again)
          ]
        ]

    -- With main's handler registered, an allocation that fails ends the process. Without memory the
    -- report is printed apart from the log, and the exit status is 100. With any other error it is
    -- logged as fatal and the status is 1; the message buffer is allocated for it if there is none,
    -- and if that fails too, `autodie__invoke` is entered again, and the process aborts.
    pub util_zalloc-ends :
        s.die_handler ≡ some autodie_handler
        → s.inside_autodie ≡ false
        → util_zalloc calloc strerror (suc (suc fuel)) size s ≡ end_of_failure errno s
    util_zalloc-ends ready outside =
        let same : s ≡ reporting s s.has_message_buf =
          ap (λ h. record s { die_handler = h }) ready
          ∙ ap (λ b. record s { die_handler = some autodie_handler; inside_autodie = b }) outside in
        subst (λ q. util_zalloc calloc strerror (suc (suc fuel)) size q ≡ end_of_failure errno q)
          (sym same) (reporting_ends s.has_message_buf)
