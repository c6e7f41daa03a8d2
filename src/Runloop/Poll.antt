-- ===== src/Runloop/Poll.antt =====
-- src/runloop.c: poll handles, and the masks of poll events.
pub mod Masks
pub mod Life
use righack.Base.{ℕ, Bool, false, ◌==◌, ◌||◌, if◌then◌else◌, bytes, test_bit, set_bit}
use righack.External.{Uv, UvEvents, runloop_poll_close_cb}
use righack.Machine.{Prog, pure, ◌>>=◌, ◌>>◌, tell, ask, fatal_if}
use righack.Machine.Memory.{alloc, load, store, free}
use righack.Machine.Objects.{
  Ptr, null, PollCb, Poll, PollPrivate, struct_poll, struct_poll_private, as_poll, as_poll_private,
}

-- The bits of PEVENT_ERROR, PEVENT_READ, PEVENT_WRITE and PEVENT_PRIO.
abbrev pub pevent_error : ℕ
pevent_error = 0

abbrev pub pevent_read : ℕ
pevent_read = 1

abbrev pub pevent_write : ℕ
pevent_write = 2

abbrev pub pevent_prio : ℕ
pevent_prio = 3

abbrev pub or_bit : Bool → ℕ → ℕ → ℕ
or_bit test bit x = if test then set_bit x bit else x

-- The mask that `runloop_poll_run_cb` hands to the user's callback.
unfoldable pub events_of_uv : UvEvents → ℕ
events_of_uv e =
    or_bit e.prioritized pevent_prio
      (or_bit e.writable pevent_write (or_bit e.readable pevent_read 0))

-- The mask that `runloop_poll_start` hands to libuv.
unfoldable pub uv_of_events : ℕ → UvEvents
uv_of_events events = record {
  readable = test_bit events pevent_read;
  writable = test_bit events pevent_write;
  disconnect = false;
  prioritized = test_bit events pevent_prio;
}

module _ {X : Type 0} where
  unfoldable pub runloop_poll_create : ⦃uv : Uv X⦄ → ℕ → PollCb → Prog X Ptr
  unfolding alloc store
  runloop_poll_create ⦃uv⦄ fd f = do
    new_poll ← alloc (struct_poll (record { cb = f; context = null; private = null }))
    private ← alloc (struct_poll_private (record { uv_data = null; fd = fd }))
    store new_poll (struct_poll (record { cb = f; context = null; private = private }))
    tell (uv.poll_init private fd)
    store private (struct_poll_private (record { uv_data = new_poll; fd = fd }))
    pure new_poll

  unfoldable pub runloop_poll_destroy : ⦃uv : Uv X⦄ → Ptr → Prog X (Unit {0})
  unfolding load
  runloop_poll_destroy ⦃uv⦄ p = do
    poll ← load as_poll p
    active ← ask (λ x. uv.is_active x poll.private)
    fatal_if active (bytes "attempt to destroy a poll handle that is active")
    tell (uv.close poll.private runloop_poll_close_cb)

  unfoldable pub runloop_poll_start : ⦃uv : Uv X⦄ → Ptr → ℕ → Prog X (Unit {0})
  unfolding load uv_of_events
  runloop_poll_start ⦃uv⦄ p events = do
    poll ← load as_poll p
    tell (uv.poll_start poll.private (uv_of_events events))

  module _ (call_poll : PollCb → Ptr → ℕ → Prog X (Unit {0})) where
    unfoldable pub runloop_poll_close_cb_run : Ptr → Prog X (Unit {0})
    unfolding load free
    runloop_poll_close_cb_run uv_poll = do
      h ← load as_poll_private uv_poll
      poll ← load as_poll h.uv_data
      call_poll poll.cb h.uv_data 0
      closed ← load as_poll h.uv_data
      free closed.private
      free h.uv_data

    -- `failed` is `uv_status < 0`
    unfoldable pub runloop_poll_run_cb : Ptr → Bool → UvEvents → Prog X (Unit {0})
    unfolding load events_of_uv
    runloop_poll_run_cb uv_poll failed uv_events = do
      h ← load as_poll_private uv_poll
      fatal_if failed (bytes "Can not yet handle a uv poll error: %s")
      let events = events_of_uv uv_events
      fatal_if (events == 0) (bytes "libuv did not signal any events")
      poll ← load as_poll h.uv_data
      call_poll poll.cb h.uv_data events
