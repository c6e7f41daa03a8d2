-- ===== src/Machine/Memory.antt =====
-- `util_zalloc`, `ad_strdup`, `free` and the reads and writes through a pointer. Each block has an
-- address that is never used again, so a pointer to a freed block stays invalid; reading, writing
-- or freeing through an invalid pointer is undefined behaviour.
use righack.Base.{◌+◌, Option, none, some, ◌==◌, if◌then◌else◌}
use righack.Machine.{Prog, ok, stop, fault, bad_access, double_free}
use righack.Machine.Objects.{Ptr, null, Object}

abbrev pub write : (Ptr → Option Object) → Ptr → Option Object → Ptr → Option Object
write h p c a = if a == p then c else h a

module _ {X : Type 0} where
  -- A fresh block that holds `o`; a failed allocation ends the process in autodie.c.
  unfoldable pub alloc : Object → Prog X Ptr
  alloc o w = ok w.next (record w { cell = write w.cell w.next (some o); next = w.next + 1 })

  unfoldable pub load : {A : Type 0} → (Object → Option A) → Ptr → Prog X A
  load as_type p w = elim (w.cell p) [
    | none ↦ stop (fault bad_access) w
    | some o ↦ elim (as_type o) [ none ↦ stop (fault bad_access) w | some a ↦ ok a w ]
  ]

  unfoldable pub store : Ptr → Object → Prog X (Unit {0})
  store p o w = elim (w.cell p) [
    | none ↦ stop (fault bad_access) w
    | some _ ↦ ok tt (record w { cell = write w.cell p (some o) })
  ]

  -- `free(NULL)` does nothing.
  unfoldable pub free : Ptr → Prog X (Unit {0})
  free p w = if p == null then ok tt w else elim (w.cell p) [
    | none ↦ stop (fault double_free) w
    | some _ ↦ ok tt (record w { cell = write w.cell p none })
  ]
