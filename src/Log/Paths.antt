-- ===== src/Log/Paths.antt =====
-- src/log.c: what `log_basename` finds.
use righack.Base.{ℕ, ◌≡◌, refl, ◌≢◌, ◌∙◌, List, [], ◌∷◌, ◌++◌, Text, arith}
use righack.Log.{slash, found, overrun, basename_loop, log_basename}

-- No byte is a slash.
abbrev pub HasNoSlash : Text → Type 0
HasNoSlash [] = Unit
HasNoSlash (c ∷ p) = (c ≢ slash) × HasNoSlash p

-- The components are joined by single slashes: each but the last is followed by one, and none
-- behind a slash is empty.
abbrev pub join_path : List Text → Text → Text
join_path [] last = last
join_path (d ∷ ds) last = d ++ slash ∷ join_path ds last

plain_loop : (filename p : Text) → HasNoSlash p → basename_loop filename p ≡ found filename
unfolding basename_loop
plain_loop filename [] h = refl
plain_loop filename (c ∷ []) h = ground arith
plain_loop filename (c ∷ d ∷ p) h = ground (arith, plain_loop filename (d ∷ p) h.1)

-- Behind bytes without a slash the loop comes to the first slash.
skip_plain :
    (filename d p : Text) (c : ℕ)
    → HasNoSlash d
    → basename_loop filename (d ++ slash ∷ c ∷ p) ≡ basename_loop (c ∷ p) p
unfolding basename_loop
skip_plain filename [] p c h = refl
skip_plain filename (b ∷ []) p c h = ground arith
skip_plain filename (b ∷ e ∷ d) p c h = ground (arith, skip_plain filename (e ∷ d) p c h.1)

-- A component that is not empty.
abbrev pub IsName : Text → Type 0
IsName [] = ⊥
IsName (c ∷ p) = HasNoSlash (c ∷ p)

abbrev pub AreNames : List Text → Type 0
AreNames [] = Unit
AreNames (d ∷ ds) = IsName d × AreNames ds

walk_components :
    (filename d : Text) (ds : List Text) (last : Text)
    → HasNoSlash d
    → AreNames ds
    → IsName last
    → basename_loop filename (d ++ slash ∷ join_path ds last) ≡ found last
walk_components filename d [] [] h hs l = absurd l
walk_components filename d [] (c ∷ p) h hs l =
    skip_plain filename d p c h ∙ plain_loop (c ∷ p) p l.1
walk_components filename d ([] ∷ ds) last h hs l = absurd hs.0
walk_components filename d ((c ∷ e) ∷ ds) last h hs l =
    skip_plain filename d (e ++ slash ∷ join_path ds last) c h
    ∙ walk_components (c ∷ (e ++ slash ∷ join_path ds last)) e ds last hs.0.1 hs.1 l

-- Of a path whose components are joined by single slashes, where all but the first are not empty,
-- `log_basename` finds the last component.
pub log_basename-last :
    (d : Text) (ds : List Text) (last : Text)
    → HasNoSlash d
    → AreNames ds
    → IsName last
    → log_basename (join_path (d ∷ ds) last) ≡ found last
unfolding log_basename
log_basename-last d ds last h hs l = walk_components _ d ds last h hs l

-- A path without a slash is its own base name.
pub log_basename-plain : (p : Text) → HasNoSlash p → log_basename p ≡ found p
unfolding log_basename
log_basename-plain p h = plain_loop p p h

overrun_loop :
    (filename d : Text) → HasNoSlash d → basename_loop filename (d ++ slash ∷ []) ≡ overrun
unfolding basename_loop
overrun_loop filename [] h = refl
overrun_loop filename (b ∷ []) h = ground arith
overrun_loop filename (b ∷ e ∷ d) h = ground (arith, overrun_loop filename (e ∷ d) h.1)

-- On a path that ends with its only slash `log_basename` reads beyond the end of the path.
pub log_basename-overrun : (d : Text) → HasNoSlash d → log_basename (d ++ slash ∷ []) ≡ overrun
unfolding log_basename
log_basename-overrun d h = overrun_loop _ d h
