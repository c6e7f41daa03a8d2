-- ===== src/Runloop/Poll/Life.antt =====
-- src/runloop.c: the life of a poll handle.
use righack.Base.{
  ℕ, ◌+◌, inl, inr, Bool-cases, ◌≡◌, refl, Bool, true, false, none, some, bytes, arith, ◌==◌, ◌||◌,
  if◌then◌else◌,
}
use righack.External.{Uv, UvEvents}
use righack.Machine.{World, Prog, ok, stop, fatal}
use righack.Machine.Access.{
  held_lt_next, IsHeap, load_held, store_held, free_held, held_ne_null, alloc-IsHeap, write-IsHeap,
}
use righack.Machine.Memory.{write}
use righack.Machine.Objects.{
  Ptr, null, PollCb, Poll, PollPrivate, struct_poll, struct_poll_private, as_poll, as_poll_private,
}
use righack.Runloop.Poll.{
  events_of_uv, runloop_poll_create, runloop_poll_run_cb, runloop_poll_close_cb_run,
}
use righack.Machine.Extends.{SameVars, Extends, any_kind}

-- The handle at `p`, and its private part, which points back.
pub record IsPoll {X : Type 0} (w : World X) (p : Ptr) (poll : Poll) (h : PollPrivate)
    : Type 0 where
  pub holds_poll : w.cell p ≡ some (struct_poll poll)
  pub holds_private : w.cell poll.private ≡ some (struct_poll_private h)
  pub points_back : h.uv_data ≡ p

events_empty :
    (e : UvEvents)
    → (events_of_uv e == 0) ≡ (if e.readable || (e.writable || e.prioritized) then false else true)
unfolding events_of_uv
events_empty e = ground arith

module _ {X : Type 0} where
  module _ (call_poll : PollCb → Ptr → ℕ → Prog X (Unit {0})) (w : World X) (p : Ptr) (poll : Poll)
      (h : PollPrivate) (is : IsPoll w p poll h) where
    -- Without an error, the user's callback gets the handle and the translated mask if that is not
    -- empty; an empty one, as for `UV_DISCONNECT` alone, ends the process, and so does an error.
    pub runloop_poll_run_cb_lem :
        (failed : Bool) (e : UvEvents)
        → runloop_poll_run_cb call_poll poll.private failed e w ≡ (
            if failed
            then stop (fatal (bytes "Can not yet handle a uv poll error: %s")) w
            else if e.readable || (e.writable || e.prioritized)
            then call_poll poll.cb p (events_of_uv e) w
            else stop (fatal (bytes "libuv did not signal any events")) w)
    unfolding runloop_poll_run_cb
    runloop_poll_run_cb_lem true e =
        rw (load_held w poll.private _ is.holds_private as_poll_private h refl)
    runloop_poll_run_cb_lem false e =
        elim (Bool-cases (e.readable || (e.writable || e.prioritized))) [
          | inl t ↦ rw (
            load_held w poll.private _ is.holds_private as_poll_private h refl,
            events_empty e,
            t,
            is.points_back,
            load_held w p _ is.holds_poll as_poll poll refl,
          )
          | inr t ↦ rw (
            load_held w poll.private _ is.holds_private as_poll_private h refl,
            events_empty e,
            t,
          )
        ]

    -- When libuv has closed the handle, the callback gets an empty mask, and if it leaves the
    -- handle's blocks alone both are freed.
    pub runloop_poll_close_cb-frees :
        (w1 : World X)
        → call_poll poll.cb p 0 w ≡ ok tt w1
        → IsHeap w1.cell w1.next
        → IsPoll w1 p poll h
        → runloop_poll_close_cb_run call_poll poll.private w
          ≡ ok tt (record w1 { cell = write (write w1.cell poll.private none) p none })
    unfolding runloop_poll_close_cb_run
    runloop_poll_close_cb-frees w1 called hp is1 = rw (
      load_held w poll.private _ is.holds_private as_poll_private h refl,
      is.points_back,
      load_held w p _ is.holds_poll as_poll poll refl,
      called,
      load_held w1 p _ is1.holds_poll as_poll poll refl,
      free_held w1 poll.private _ is1.holds_private
          (held_ne_null w1 poll.private _ is1.holds_private hp),
      free_held (record w1 { cell = write w1.cell poll.private none }) p (struct_poll poll)
          (ground (arith, is1.holds_poll, is1.holds_private))
          (held_ne_null w1 p _ is1.holds_poll hp),
    )

module _ {X : Type 0} ⦃uv : Uv X⦄ where
  -- `runloop_poll_create` returns a handle for the descriptor, set up in libuv and not started; all blocks
  -- that were there stay.
  pub runloop_poll_create-IsPoll :
      (fd : ℕ) (f : PollCb) (w : World X)
      → IsHeap w.cell w.next
      → (w' : World X) × (runloop_poll_create fd f w ≡ ok w.next w')
        × IsPoll w' w.next
            (record { cb = f; context = null; private = w.next + 1 })
            (record { uv_data = w.next; fd = fd })
        × (w'.ext ≡ uv.poll_init (w.next + 1) fd w.ext)
        × Extends any_kind w w'
        × SameVars w w'
  unfolding runloop_poll_create
  runloop_poll_create-IsPoll fd f w hp =
      let empty = struct_poll (record { cb = f; context = null; private = null }) in
      let full = struct_poll (record { cb = f; context = null; private = w.next + 1 }) in
      let bare = struct_poll_private (record { uv_data = null; fd = fd }) in
      let linked = struct_poll_private (record { uv_data = w.next; fd = fd }) in
      let w2 : World X = record w {
        cell = write (write w.cell w.next (some empty)) (w.next + 1) (some bare);
        next = w.next + 1 + 1;
      } in
      let w3 : World X = record w2 {
        cell = write w2.cell w.next (some full);
        ext = uv.poll_init (w.next + 1) fd w.ext;
      } in
      let held2 : w2.cell w.next ≡ some empty = ground arith in
      let held3 : w3.cell (w.next + 1) ≡ some bare = ground arith in
      let hp2 = alloc-IsHeap _ (w.next + 1) bare (alloc-IsHeap w.cell w.next empty hp) in
      let hp3 = write-IsHeap w2.cell w2.next w.next (some full) hp2 held2 in
      (
        record w3 { cell = write w3.cell (w.next + 1) (some linked) },
        rw (store_held w2 w.next empty held2 full, store_held w3 (w.next + 1) bare held3 linked),
        record { holds_poll = ground arith; holds_private = ground arith; points_back = refl },
        refl,
        record {
          formed = write-IsHeap w3.cell w3.next (w.next + 1) (some linked) hp3 held3;
          kept = λ q o old other. ground (arith, held_lt_next w q o old hp);
          same_root = refl;
          same_drivers = refl;
          same_modules = refl;
          same_loop = refl;
          same_signal = refl;
          same_running = refl;
        },
        record { same_buf = refl; same_queue = refl; same_last = refl },
      )
