-- ===== src/Log/Reference.antt =====
-- src/log.c: `log_basename` beside a definition that looks for the last slash.
use righack.Base.{
  inr, inl, ◌≡◌, refl, Bool, true, false, [], ◌∷◌, Text, arith, ◌==◌, ◌&&◌, ◌||◌, not,
  if◌then◌else◌, Bool-cases,
}
use righack.Log.{slash, found, basename_loop, log_basename}

abbrev pub has_slash : Text → Bool
has_slash [] = false
has_slash (c ∷ p) = c == slash || has_slash p

-- What lies behind the last slash, or all of it.
abbrev pub behind_last : Text → Text
behind_last [] = []
behind_last (c ∷ p) =
    let rest = behind_last p in if has_slash p then rest else if c == slash then p else c ∷ p

-- No slash is followed by another one or by the end.
abbrev pub is_plain : Text → Bool
is_plain [] = true
is_plain (c ∷ []) = not (c == slash)
is_plain (c ∷ d ∷ p) = let rest = is_plain (d ∷ p) in not (c == slash && d == slash) && rest

loop_lem :
    (filename p : Text)
    → is_plain p ≡ true
    → basename_loop filename p ≡ found (if has_slash p then behind_last p else filename)
unfolding basename_loop
loop_lem filename [] plain = refl
loop_lem filename (c ∷ []) plain = ground (arith, plain)
loop_lem filename (c ∷ d ∷ []) plain = ground (arith, plain)
loop_lem filename (c ∷ d ∷ e ∷ p) plain =
    ground (arith, plain, loop_lem filename (d ∷ e ∷ p), loop_lem (d ∷ e ∷ p) (e ∷ p))

no_slash : (p : Text) → has_slash p ≡ false → behind_last p ≡ p
no_slash [] none_ = refl
no_slash (c ∷ p) none_ = ground (arith, none_)

-- On every path in which no slash is followed by another slash or by the end, `log_basename` finds
-- what lies behind the last slash, or the whole path where there is none.
pub log_basename-behind_last :
    (path : Text) → is_plain path ≡ true → log_basename path ≡ found (behind_last path)
unfolding log_basename
log_basename-behind_last path plain = elim (Bool-cases (has_slash path)) [
  | inl some_ ↦ rw (loop_lem path path plain, some_)
  | inr none_ ↦ rw (loop_lem path path plain, none_, no_slash path none_)
]
