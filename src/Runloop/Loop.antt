-- ===== src/Runloop/Loop.antt =====
-- src/runloop.c: creating the loop, giving it control, and taking it down. What libuv calls back
-- during one `uv_run` is a list of events; `call_event` makes the calls.
pub mod Cleanup
use righack.Base.{Bool, true, false, List, [], ◌∷◌, bytes, ◌==◌, not}
use righack.External.{Uv, UvEvents, CloseCb, no_cb, cleanup_handle_cb}
use righack.Machine.{Prog, pure, skip, ◌>>=◌, ◌>>◌, gets, modify, ask, tell, call, fatal_if, when}
use righack.Machine.Memory.{alloc, free}
use righack.Machine.Objects.{Ptr, null, uv_loop, uv_prepare, uv_signal}

pub data Event : Type 0 where
  prepare_event : Ptr → Event
  timer_event : Ptr → Event
  poll_event : Ptr → Bool → UvEvents → Event
  closed_event : Ptr → CloseCb → Event
  int_event : Event

module _ {X : Type 0} ⦃uv : Uv X⦄ where
  unfoldable pub runloop_bootstrap : Prog X (Unit {0})
  unfolding alloc
  runloop_bootstrap = do
    loop ← alloc uv_loop
    modify (λ w. record w { thread_loop = loop })
    tell (uv.loop_init loop)
    prepare ← alloc uv_prepare
    modify (λ w. record w { run_once_prepare = prepare })
    tell (uv.prepare_init prepare)

  unfoldable pub int_signal_cb : Prog X (Unit {0})
  int_signal_cb = do loop ← gets (λ w. w.thread_loop); tell (uv.stop_loop loop)

  unfoldable pub cleanup_handle_cb_run : Ptr → Prog X (Unit {0})
  unfolding free
  cleanup_handle_cb_run handle = do
    free handle
    prepare ← gets (λ w. w.run_once_prepare)
    when (handle == prepare) (modify (λ w. record w { run_once_prepare = null }))

  unfoldable pub walk_runloop_cb : Ptr → Prog X (Unit {0})
  walk_runloop_cb handle = do
    closing ← ask (λ x. uv.is_closing x handle)
    when (not closing) (tell (uv.close handle cleanup_handle_cb))

  unfoldable pub walk_each : List Ptr → Prog X (Unit {0})
  unfolding walk_runloop_cb
  walk_each [] = skip
  walk_each (h ∷ hs) = walk_runloop_cb h >> walk_each hs

  module _ (call_event : Event → Prog X (Unit {0})) where
    -- uv_run(thread_loop, UV_RUN_DEFAULT)
    unfoldable pub uv_run : List Event → Prog X (Unit {0})
    uv_run [] = skip
    uv_run (e ∷ es) = call_event e >> uv_run es

    unfoldable pub start_int_signal : Prog X (Unit {0})
    unfolding alloc
    start_int_signal = do
      known ← gets (λ w. w.int_signal)
      when (known == null) (do
        new ← alloc uv_signal
        modify (λ w. record w { int_signal = new })
        tell (uv.signal_init new))
      signal ← gets (λ w. w.int_signal)
      tell (uv.signal_start signal)

    unfoldable pub runloop_run : List Event → Prog X Bool
    unfolding start_int_signal uv_run
    runloop_run events = do
      loop ← gets (λ w. w.thread_loop)
      fatal_if (loop == null)
          (bytes "runloop_run() called but there was no per thread runloop defined")
      start_int_signal
      modify (λ w. record w { in_runloop_context = true })
      uv_run events
      retval ← ask uv.loop_alive
      modify (λ w. record w { in_runloop_context = false })
      signal ← gets (λ w. w.int_signal)
      tell (uv.signal_stop signal)
      pure retval

    -- What follows the test of `thread_loop`; `module_stop_all` is the call of module.c.
    unfoldable pub take_down : Prog X (Unit {0}) → List Event → List Event → Prog X (Unit {0})
    unfolding uv_run walk_each free
    take_down module_stop_all stopping closing = do
      signal ← gets (λ w. w.int_signal)
      when (not (signal == null)) (tell (uv.close signal no_cb))
      module_stop_all
      uv_run stopping
      handles ← ask uv.walk
      walk_each handles
      uv_run closing
      loop ← gets (λ w. w.thread_loop)
      busy ← call (uv.loop_close loop)
      fatal_if busy (bytes "could not cleanup runloop because it was not empty")
      int ← gets (λ w. w.int_signal)
      when (not (int == null)) (free int)
      free loop
      modify (λ w. record w { thread_loop = null })

    unfoldable pub runloop_cleanup : Prog X (Unit {0}) → List Event → List Event → Prog X (Unit {0})
    unfolding take_down
    runloop_cleanup module_stop_all stopping closing = do
      loop ← gets (λ w. w.thread_loop)
      when (not (loop == null)) (take_down module_stop_all stopping closing)

module _ {X : Type 0} where
  unfoldable pub runloop_has_control : Prog X Bool
  runloop_has_control = gets (λ w. w.in_runloop_context)
