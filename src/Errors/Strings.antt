-- ===== src/Errors/Strings.antt =====
-- src/external/autodie.c and src/util.c: the copies of strings and memory.
use righack.Base.{
  ℕ, ◌≡◌, refl, false, Option, none, some, Text, bytes, take, inl, inr, ◌⊎◌, ◌≢◌, arith,
  Option-cases,
}
use righack.Errors.{
  Cmd, DieHandler, Ending, Process, returned, exited, aborted, overran, out_of_fuel, and_then, ◌>>◌,
  autodie__invoke, util_fatal,
}
use righack.Errors.Alloc.{is_returned, autodie__invoke-ends}

-- EADDRINUSE of errno.h
abbrev eaddrinuse : ℕ
eaddrinuse = 98

-- `strdup p` is the error of copying `p`, if that fails. A result of nothing is NULL.
module _ (call : DieHandler → Text → ℕ → Text → Cmd (Unit {0})) (strdup : Text → Option ℕ) where
  unfoldable pub ad_strdup : Text → Cmd (Option Text)
  unfolding autodie__invoke
  ad_strdup p = elim (strdup p) [
    | none ↦ returned (some p)
    | some errno ↦ autodie__invoke call (bytes "ad_strdup") errno none >> returned none
  ]

  unfoldable pub ad__test_ : Cmd (Unit {0})
  unfolding autodie__invoke
  ad__test_ =
      autodie__invoke call (bytes "ad__test_") eaddrinuse
        (some (bytes "forced failure induced by test"))

module _ (util_zalloc : ℕ → Cmd (Unit {0})) where
  unfoldable pub util_strdup : (strdup : Text → Option ℕ) → Text → Cmd (Option Text)
  unfolding util_fatal
  util_strdup strdup p = elim (strdup p) [
    | none ↦ returned (some p)
    | some errno ↦
        util_fatal util_zalloc (bytes "util_strdup") (bytes "src/util.c")
          (bytes "Could not strdup(): %m")
        >> returned none
  ]

  unfoldable pub util_strndup : (strndup : Text → ℕ → Option ℕ) → Text → ℕ → Cmd (Option Text)
  unfolding util_fatal
  util_strndup strndup p n = elim (strndup p n) [
    | none ↦ returned (some (take n p))
    | some errno ↦
        util_fatal util_zalloc (bytes "util_strndup") (bytes "src/util.c")
          (bytes "Could not strndup(): %m")
        >> returned none
  ]

  -- `memcpy` of `len` bytes into the new block
  unfoldable pub util_memdup : Text → ℕ → Cmd Text
  util_memdup p len = util_zalloc len >> returned (take len p)

then_null :
    (o : Ending (Unit {0}))
    → is_returned o ≡ false
    → is_returned (and_then {B = Option Text} o (λ _. returned none)) ≡ false
then_null (returned a s) e = ground arith
then_null (exited v s) e = refl
then_null (aborted s) e = refl
then_null (overran s) e = refl
then_null (out_of_fuel s) e = refl

-- `ad_strdup` returns the copy if there is memory for it, and else does not return, whatever the
-- handler does.
pub ad_strdup-returns :
    (call : DieHandler → Text → ℕ → Text → Cmd (Unit {0})) (strdup : Text → Option ℕ) (p : Text)
    (s : Process)
    → ((strdup p ≡ none) × (ad_strdup call strdup p s ≡ returned (some p) s))
      ⊎ ((strdup p ≢ none) × (is_returned (ad_strdup call strdup p s) ≡ false))
unfolding ad_strdup
ad_strdup-returns call strdup p s = elim (Option-cases (strdup p)) [
  | inl e ↦ inl (e, rw (ad_strdup, e))
  | inr (errno, e) ↦ inr (
    (λ q. cc),
    rw (ad_strdup, e) (then_null _ (autodie__invoke-ends call (bytes "ad_strdup") errno none s)),
  )
]
