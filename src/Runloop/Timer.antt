-- ===== src/Runloop/Timer.antt =====
-- src/runloop.c: timers.
pub mod Life
pub mod Refine
use righack.Base.{ℕ, Bool, true, false, if◌then◌else◌, bytes, not}
use righack.External.{Uv, runloop_timer_close_cb}
use righack.Machine.{Prog, pure, ◌>>=◌, ◌>>◌, tell, ask, fatal_if}
use righack.Machine.Memory.{alloc, load, store, free}
use righack.Machine.Objects.{
  Ptr, null, Timer, TimerPrivate, struct_timer, struct_timer_private, as_timer, as_timer_private,
}

module _ {X : Type 0} ⦃uv : Uv X⦄ where
  unfoldable pub runloop_timer_create : ℕ → Ptr → Prog X Ptr
  unfolding alloc store
  runloop_timer_create f context = do
    timer ← alloc (struct_timer (record { cb = 0; context = null; private = null }))
    private ← alloc (struct_timer_private (record { uv_data = null; initial = 0; repeat = 0 }))
    store timer (struct_timer (record { cb = f; context = context; private = private }))
    tell (uv.timer_init private)
    store private (struct_timer_private (record { uv_data = timer; initial = 0; repeat = 0 }))
    pure timer

  unfoldable pub runloop_timer_destroy : Ptr → Prog X (Unit {0})
  unfolding load
  runloop_timer_destroy p = do
    timer ← load as_timer p
    active ← ask (λ x. uv.is_active x timer.private)
    fatal_if active (bytes "attempt to destroy a timer that is active")
    tell (uv.close timer.private runloop_timer_close_cb)

  unfoldable pub runloop_timer_schedule : Ptr → ℕ → ℕ → Prog X (Unit {0})
  unfolding load store
  runloop_timer_schedule p initial repeat = do
    timer ← load as_timer p
    h ← load as_timer_private timer.private
    store timer.private (struct_timer_private (record h { initial = initial; repeat = repeat }))
    tell (uv.timer_start timer.private initial repeat)

  unfoldable pub runloop_timer_reset : Ptr → Prog X (Unit {0})
  unfolding load
  runloop_timer_reset p = do
    timer ← load as_timer p
    active ← ask (λ x. uv.is_active x timer.private)
    fatal_if (not active) (bytes "attempt to reset a timer that is not active")
    h ← load as_timer_private timer.private
    tell (uv.timer_start timer.private h.initial h.repeat)

  unfoldable pub runloop_timer_cancel : Ptr → Prog X (Unit {0})
  unfolding load
  runloop_timer_cancel p = do
    timer ← load as_timer p
    active ← ask (λ x. uv.is_active x timer.private)
    fatal_if (not active) (bytes "Attempt to cancel a timer that is not active")
    tell (uv.timer_stop timer.private)

module _ {X : Type 0} (call_timer : ℕ → Bool → Ptr → Prog X (Unit {0})) where
  -- The callback gets the timer, not its context.
  unfoldable pub runloop_timer_run_cb : Ptr → Prog X (Unit {0})
  unfolding load
  runloop_timer_run_cb uv_timer = do
    h ← load as_timer_private uv_timer
    timer ← load as_timer h.uv_data
    call_timer timer.cb true h.uv_data

  unfoldable pub runloop_timer_close_cb_run : Ptr → Prog X (Unit {0})
  unfolding load free
  runloop_timer_close_cb_run uv_timer = do
    h ← load as_timer_private uv_timer
    timer ← load as_timer h.uv_data
    call_timer timer.cb false h.uv_data
    closed ← load as_timer h.uv_data
    free closed.private
    free h.uv_data
