-- ===== src/Main/Shutdown.antt =====
-- src/main.c with src/runloop.c, src/module.c, src/modules/test.c, src/driver.c and
-- src/drivers/vserial.c: what stopping a running module comes to.
use righack.Base.{
  ◌≡◌, refl, ap, ◌∙◌, ◌≢◌, true, false, some, List, ◌∷◌, Text, bytes, arith, ◌==◌, if◌then◌else◌,
  not,
}
use righack.Driver.{driver_destroy}
use righack.External.{Uv, Os, Toml, Rig, CloseKeepsOthers, no_cb}
use righack.Machine.{World, Prog, ok, stop, fatal, tell, when}
use righack.Machine.Access.{load_held}
use righack.Machine.Objects.{
  Ptr, null, Poll, Driver, VserialContext, Module, TestContext, unstarted, vserial_lifecycle,
  test_lifecycle, struct_poll, struct_driver, struct_vserial_context, struct_module,
  struct_test_context, as_poll, as_driver, as_vserial_context, as_module, as_test_context,
}
use righack.Module.{module_stop, stop_each, module_stop_all}
use righack.Main.{driver_cleanup, stop_lifecycle}
use righack.Runloop.Loop.{Event, runloop_cleanup, take_down}
use righack.Runloop.Poll.{runloop_poll_destroy}
use righack.TestModule.{test_lifecycle_stop}
use righack.Vserial.{vserial_lifecycle_cleanup}

abbrev pub destroy_message : Text
destroy_message = bytes "attempt to destroy a poll handle that is active"

module _ {X : Type 0} ⦃uv : Uv X⦄ where
  -- The driver instance at `p`, whose port is polled.
  pub record IsPolled (w : World X) (p : Ptr) : Type 0 where
    pub driver : Driver
    pub context : VserialContext
    pub poll : Poll
    pub holds_driver : w.cell p ≡ some (struct_driver driver)
    pub is_vserial : driver.info.lifecycle ≡ vserial_lifecycle
    pub is_unstarted : driver.status ≡ unstarted
    pub has_context : driver.private ≢ null
    pub holds_context : w.cell driver.private ≡ some (struct_vserial_context context)
    pub holds_poll : w.cell context.poll ≡ some (struct_poll poll)
    pub is_active : uv.is_active w.ext poll.private ≡ true

  -- The running instance of the test module at `p`, whose port is polled.
  pub record IsRunning (w : World X) (p : Ptr) : Type 0 where
    pub instance_ : Module
    pub context : TestContext
    pub holds_module : w.cell p ≡ some (struct_module instance_)
    pub is_test : instance_.info.lifecycle ≡ test_lifecycle
    pub holds_context : w.cell instance_.private ≡ some (struct_test_context context)
    pub has_driver : context.vserial ≢ null
    pub polled : IsPolled w context.vserial

  -- An active poll handle cannot be destroyed.
  destroy_active :
      (w : World X) (p : Ptr) (poll : Poll)
      → w.cell p ≡ some (struct_poll poll)
      → uv.is_active w.ext poll.private ≡ true
      → runloop_poll_destroy p w ≡ stop (fatal destroy_message) w
  unfolding runloop_poll_destroy
  destroy_active w p poll held active = rw (load_held w p _ held as_poll poll refl, active)

  cleanup_polled :
      (w : World X) (p : Ptr)
      → IsPolled w p
      → vserial_lifecycle_cleanup p w ≡ stop (fatal destroy_message) w
  unfolding vserial_lifecycle_cleanup
  cleanup_polled w p h =
      let t : (h.driver.private == null) ≡ false = ground arith in
      rw (
        load_held w p _ h.holds_driver as_driver h.driver refl,
        t,
        load_held w h.driver.private _ h.holds_context as_vserial_context h.context refl,
        destroy_active w h.context.poll h.poll h.holds_poll h.is_active,
      )

module _ {X : Type 0} ⦃uv : Uv X⦄ ⦃os : Os X⦄ ⦃toml : Toml X⦄ ⦃rig : Rig X⦄ where
  driver_cleanup_polled :
      (w : World X) (p : Ptr) (h : IsPolled w p)
      → driver_cleanup h.driver.info.lifecycle p w ≡ stop (fatal destroy_message) w
  unfolding driver_cleanup
  driver_cleanup_polled w p h = rw h.is_vserial (cleanup_polled w p h)

  -- `driver_destroy` of a virtual serial port that is polled ends the process.
  pub driver_destroy-polled :
      (w : World X) (p : Ptr)
      → IsPolled w p
      → driver_destroy driver_cleanup p false w ≡ stop (fatal destroy_message) w
  unfolding driver_destroy
  driver_destroy-polled w p h = rw (
    load_held w p _ h.holds_driver as_driver h.driver refl,
    h.is_unstarted,
    driver_cleanup_polled w p h,
  )

  stop_running :
      (w : World X) (p : Ptr)
      → IsRunning w p
      → test_lifecycle_stop driver_cleanup p w ≡ stop (fatal destroy_message) w
  unfolding test_lifecycle_stop
  stop_running w p h =
      let t : (h.context.vserial == null) ≡ false = ground arith in
      rw (
        load_held w p _ h.holds_module as_module h.instance_ refl,
        load_held w h.instance_.private _ h.holds_context as_test_context h.context refl,
        t,
        driver_destroy-polled w h.context.vserial h.polled,
      )

  module_stop_running :
      (w : World X) (p : Ptr)
      → IsRunning w p
      → module_stop stop_lifecycle p w ≡ stop (fatal destroy_message) w
  unfolding module_stop stop_lifecycle
  module_stop_running w p h =
      rw (load_held w p _ h.holds_module as_module h.instance_ refl, h.is_test) (stop_running w p h)

  stop_each_running :
      (w : World X) (p : Ptr) (ps : List Ptr)
      → IsRunning w p
      → stop_each stop_lifecycle (p ∷ ps) w ≡ stop (fatal destroy_message) w
  unfolding stop_each
  stop_each_running w p ps h = rw (module_stop_running w p h)

  module_stop_all_running :
      (w : World X) (p : Ptr) (ps : List Ptr)
      → w.running_modules ≡ p ∷ ps
      → IsRunning w p
      → module_stop_all stop_lifecycle w ≡ stop (fatal destroy_message) w
  unfolding module_stop_all
  module_stop_all_running w p ps e h =
      ap (λ l. stop_each stop_lifecycle l w) e ∙ stop_each_running w p ps h

  -- The state behind the first `uv_close` of `runloop_cleanup`.
  abbrev pub signal_closed : World X → World X
  signal_closed w = record w {
    ext = if w.int_signal == null then w.ext else uv.close w.int_signal no_cb w.ext;
  }

  close_signal :
      (w : World X)
      → when (not (w.int_signal == null)) (tell (uv.close w.int_signal no_cb)) w
        ≡ ok tt (signal_closed w)
  close_signal w = ground arith

  module _ (close_law : CloseKeepsOthers uv) where
    IsPolled-signal_closed :
        (w : World X) (p : Ptr) (h : IsPolled w p)
        → w.int_signal ≢ h.poll.private
        → IsPolled (signal_closed w) p
    IsPolled-signal_closed w p h ne = record {
      driver = h.driver;
      context = h.context;
      poll = h.poll;
      holds_driver = h.holds_driver;
      is_vserial = h.is_vserial;
      is_unstarted = h.is_unstarted;
      has_context = h.has_context;
      holds_context = h.holds_context;
      holds_poll = h.holds_poll;
      is_active = ground (arith, close_law w.int_signal h.poll.private no_cb w.ext, h.is_active);
    }

    IsRunning-signal_closed :
        (w : World X) (p : Ptr) (h : IsRunning w p)
        → w.int_signal ≢ h.polled.poll.private
        → IsRunning (signal_closed w) p
    IsRunning-signal_closed w p h ne = record {
      instance_ = h.instance_;
      context = h.context;
      holds_module = h.holds_module;
      is_test = h.is_test;
      holds_context = h.holds_context;
      has_driver = h.has_driver;
      polled = IsPolled-signal_closed w h.context.vserial h.polled ne;
    }

    -- While the newest module is a running test module, `runloop_cleanup` ends the process with
    -- `exit_fatal`, whatever libuv calls back: the poll handle of the port is active still, and no
    -- code stops it.
    pub runloop_cleanup-running :
        (call_event : Event → Prog X (Unit {0})) (stopping closing : List Event) (w : World X)
        (p : Ptr) (ps : List Ptr)
        → w.thread_loop ≢ null
        → w.running_modules ≡ p ∷ ps
        → (h : IsRunning w p) → w.int_signal ≢ h.polled.poll.private
        → runloop_cleanup call_event (module_stop_all stop_lifecycle) stopping closing w
          ≡ stop (fatal destroy_message) (signal_closed w)
    unfolding runloop_cleanup take_down
    runloop_cleanup-running call_event stopping closing w p ps loop e h ne =
        let live : (w.thread_loop == null) ≡ false = ground arith in
        let stopped =
          module_stop_all_running (signal_closed w) p ps e (IsRunning-signal_closed w p h ne) in
        rw (live, close_signal w, stopped)
