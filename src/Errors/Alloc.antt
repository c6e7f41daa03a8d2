-- ===== src/Errors/Alloc.antt =====
-- src/external/autodie.c and src/main.c: what a failed allocation comes to.
use mathlib.Core.Option.{get_or}
use righack.Base.{
  ℕ, suc, ◌≡◌, refl, ◌≢◌, inl, inr, Bool, true, false, Option, none, some, Text, bytes, arith,
  Bool-cases, Option-cases, take, ltb, ◌==◌,
}
use righack.Errors.{
  nothing, autodie_handler_run, other_handler, Process, Ending, Cmd, DieHandler, autodie_handler,
  returned, exited, aborted, overran, out_of_fuel, and_then, autodie__invoke, util_zalloc,
}
use righack.Log.{level_value, LogLevel, level_fatal}

-- Whether a run has come back to its caller.
abbrev pub is_returned : {A : Type 0} → Ending A → Bool
is_returned (returned a s) = true
is_returned (exited v s) = false
is_returned (aborted s) = false
is_returned (overran s) = false
is_returned (out_of_fuel s) = false

-- No level lies above `log_level_fatal`, so fatal messages are always logged.
pub below_fatal : (l : LogLevel) → ltb (level_value level_fatal) (level_value l) ≡ false
unfolding level_value
below_fatal level_fatal = refl
below_fatal _ = refl

then_aborted :
    (o : Ending (Unit {0})) (f : Process → Process)
    → is_returned (and_then {B = Unit {0}} o (λ _ t. aborted (f t))) ≡ false
then_aborted (returned a s) f = refl
then_aborted (exited v s) f = refl
then_aborted (aborted s) f = refl
then_aborted (overran s) f = refl
then_aborted (out_of_fuel s) f = refl

module _ (call : DieHandler → Text → ℕ → Text → Cmd (Unit {0})) where
  -- `autodie__invoke` does not return, whatever handler is registered and whatever that does.
  pub autodie__invoke-ends :
      (function : Text) (error : ℕ) (fmt : Option Text) (s : Process)
      → is_returned (autodie__invoke call function error fmt s) ≡ false
  unfolding autodie__invoke
  autodie__invoke-ends function error fmt s = elim (Bool-cases s.inside_autodie) [
    | inl t ↦ rw t
    | inr t ↦ elim (Option-cases s.die_handler) [
      | inl e ↦ rw (t, e)
      | inr (h, e) ↦
          rw (t, e)
            (then_aborted
              (call h function error (take 1023 (get_or fmt (bytes "(no message)")))
                (record s { inside_autodie = true }))
              _)
    ]
  ]

-- What follows a run that does not come back is never reached.
pub and_then_gone :
    {A B : Type 0} (o : Ending A) (k : A → Cmd B)
    → is_returned o ≡ false
    → is_returned (and_then o k) ≡ false
and_then_gone (returned a s) k e = absurd (ground arith)
and_then_gone (exited v s) k e = refl
and_then_gone (aborted s) k e = refl
and_then_gone (overran s) k e = refl
and_then_gone (out_of_fuel s) k e = refl

module _ (calloc : ℕ → ℕ → Option ℕ) (strerror : ℕ → Text) where
  -- An allocation that returns has got its memory, and has changed nothing.
  pub util_zalloc-returned :
      (fuel size : ℕ) (s : Process)
      → size ≢ 0
      → calloc 1 size ≡ none
      → util_zalloc calloc strerror (suc fuel) size s ≡ returned tt s
  unfolding util_zalloc
  util_zalloc-returned fuel size s ne e = let t : (size == 0) ≡ false = ground arith in rw (t, e)

  -- One that fails does not return, whatever handler there is.
  pub util_zalloc-gone :
      (fuel size errno : ℕ) (s : Process)
      → size ≢ 0
      → calloc 1 size ≡ some errno
      → is_returned (util_zalloc calloc strerror (suc fuel) size s) ≡ false
  unfolding util_zalloc
  util_zalloc-gone fuel size errno s ne e =
      let t : (size == 0) ≡ false = ground arith in
      rw (t, e)
        (autodie__invoke-ends
          (λ h function error message. elim h [
            | autodie_handler ↦
                autodie_handler_run (util_zalloc calloc strerror fuel) strerror function error
                  message
            | other_handler n ↦ nothing
          ])
          (bytes "ad_calloc") errno (some (bytes "Could not allocate %d * %d = %d bytes")) s)
