-- ===== src/Machine/Others.antt =====
-- What a command leaves of the blocks whose kind it changes, but of which it changes one alone.
use righack.Base.{◌≡◌, ◌≢◌, true, Option, some, arith}
use righack.Machine.Extends.{is_lasting, is_fixed, is_uv}
use righack.Machine.Objects.{Ptr, Object}

-- Every block but the one at `p` stays, if it is neither a text nor of the queue.
abbrev pub KeepsBut : Ptr → (Ptr → Option Object) → (Ptr → Option Object) → Type 0
KeepsBut p h h' =
    (q : Ptr) (o : Object) → q ≢ p → h q ≡ some o → is_lasting o ≡ true → h' q ≡ some o

pub is_lasting-is_fixed : (o : Object) → is_lasting o ≡ true → is_fixed o ≡ true
is_lasting-is_fixed o e = ground arith

pub is_uv-is_lasting : (o : Object) → is_uv o ≡ true → is_lasting o ≡ true
is_uv-is_lasting o e = ground arith
