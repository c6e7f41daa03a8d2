-- ===== src/Machine/Access.antt =====
-- What the memory operations do at a block that is there, and the invariant of the allocator.
use righack.Base.{◌+◌, ◌≤◌, ◌<◌, ◌≡◌, ◌≢◌, Option, none, some, arith}
use righack.Machine.{World, ok, stop, fault, bad_access, double_free}
use righack.Machine.Memory.{write, load, store, free}
use righack.Machine.Objects.{Ptr, null, Object}

-- NULL points to no block, and neither does an address that was not handed out yet.
pub record IsHeap (h : Ptr → Option Object) (next : Ptr) : Type 0 where
  pub null_empty : h null ≡ none
  pub next_pos : 0 < next
  pub rest_empty : (p : Ptr) → next ≤ p → h p ≡ none

-- A write to a block that is there, or freeing it, keeps the heap well formed.
pub write-IsHeap :
    (h : Ptr → Option Object) (next p : Ptr) (c : Option Object) {o : Object}
    → IsHeap h next
    → h p ≡ some o
    → IsHeap (write h p c) next
write-IsHeap h next p c hp held = record {
  null_empty = ground (arith, hp.null_empty);
  next_pos = hp.next_pos;
  rest_empty = λ q le. ground (arith, hp.rest_empty q);
}

-- So does an allocation.
pub alloc-IsHeap :
    (h : Ptr → Option Object) (next : Ptr) (o : Object)
    → IsHeap h next
    → IsHeap (write h next (some o)) (next + 1)
alloc-IsHeap h next o hp = record {
  null_empty = ground (arith, hp.null_empty);
  next_pos = omega arith;
  rest_empty = λ q le. ground (arith, hp.rest_empty q);
}

module _ {X : Type 0} (w : World X) (p : Ptr) (o : Object) (held : w.cell p ≡ some o) where
  pub load_held :
      {A : Type 0} (as_type : Object → Option A) (a : A)
      → as_type o ≡ some a
      → load as_type p w ≡ ok a w
  unfolding load
  load_held as_type a e = ground arith

  pub store_held : (n : Object) → store p n w ≡ ok tt (record w { cell = write w.cell p (some n) })
  unfolding store
  store_held n = ground arith

  pub free_held : p ≢ null → free p w ≡ ok tt (record w { cell = write w.cell p none })
  unfolding free
  free_held ne = ground arith

  pub held_lt_next : IsHeap w.cell w.next → p < w.next
  held_lt_next wf = ground (arith, wf.rest_empty p)

  pub held_ne_null : IsHeap w.cell w.next → p ≢ null
  held_ne_null wf = λ e. cc (wf.null_empty)

module _ {X : Type 0} (w : World X) (p : Ptr) (gone : w.cell p ≡ none) where
  pub load_gone :
      {A : Type 0} (as_type : Object → Option A) → load as_type p w ≡ stop (fault bad_access) w
  unfolding load
  load_gone as_type = ground arith

  pub free_gone : p ≢ null → free p w ≡ stop (fault double_free) w
  unfolding free
  free_gone ne = ground arith
