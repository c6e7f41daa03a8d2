-- ===== src/Main/Empty.antt =====
-- src/main.c with src/runloop.c: taking the loop down when no module runs, and whole runs of a
-- configuration without a section.
use righack.Base.{ℕ, ◌≡◌, refl, ap, false, ◌∷◌, []}
use righack.External.{Uv, Os, Toml, Rig, cleanup_handle_cb}
use righack.Machine.{World, ok}
use righack.Machine.Objects.{Ptr}
use righack.Main.{call_event, call_closed, stop_lifecycle}
use righack.Main.Boot.{loaded}
use righack.Main.Interrupt.{with_signal, returned}
use righack.Module.{stop_each, module_stop_all}
use righack.Runloop.Loop.{closed_event, runloop_cleanup, cleanup_handle_cb_run}
use righack.Runloop.Loop.Cleanup.{
  CanEnd, closings, closing_handles, behind_walk, cleaned, runloop_cleanup_lem,
}

module _ {X : Type 0} ⦃uv : Uv X⦄ ⦃os : Os X⦄ ⦃toml : Toml X⦄ ⦃rig : Rig X⦄ where
  closed_calls :
      (fuel : ℕ) (p : Ptr) (w : World X)
      → call_event fuel (closed_event p cleanup_handle_cb) w ≡ cleanup_handle_cb_run p w
  unfolding call_event call_closed
  closed_calls fuel p w = refl

  stop_none : (w : World X) → w.running_modules ≡ [] → module_stop_all stop_lifecycle w ≡ ok tt w
  unfolding module_stop_all stop_each
  stop_none w none_ = ap (λ l. stop_each stop_lifecycle l w) none_

  -- Where no module is running, the loop and the signal handle are there, each handle that the walk
  -- closes is another block that is there, and libuv calls back for each of these and then finds the
  -- loop idle, `runloop_cleanup` returns: it has freed each of the handles, the signal handle and the
  -- loop once, and no other block.
  pub runloop_cleanup-empty :
      (fuel : ℕ) (w : World X)
      → w.running_modules ≡ []
      → CanEnd w
      → runloop_cleanup
          (call_event fuel)
          (module_stop_all stop_lifecycle)
          []
          (closings (closing_handles w))
          w
        ≡ ok tt (cleaned w)
  runloop_cleanup-empty fuel w none_ can =
      runloop_cleanup_lem (call_event fuel) (closed_calls fuel) (module_stop_all stop_lifecycle) w
        can (stop_none _ none_)

  -- The state in which the loop returns control, when there was nothing but an interrupt.
  abbrev pub idle_end : X → Ptr → World X
  idle_end y root =
      let w = with_signal (loaded y root) in
      returned (record w { ext = uv.stop_loop w.thread_loop w.ext })

  -- What libuv is taken to do at that end: of the handles that it walks only the prepare handle is
  -- not closing, and it does not find the loop busy then.
  pub record EndsIdle (y : X) (root : Ptr) : Type 0 where
    pub walked : closing_handles (idle_end y root) ≡ 2 ∷ []
    pub idle : (uv.loop_close 1 (behind_walk (idle_end y root))).0 ≡ false
