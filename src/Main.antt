-- ===== src/Main.antt =====
-- src/main.c: starting the program, and the targets of all function pointers.
pub mod Events
pub mod Attach
pub mod Awaited
pub mod Deliveries
pub mod Followed
pub mod Empty
pub mod Whole
pub mod Interrupt
pub mod Boot
pub mod Calls
pub mod Launch
pub mod Launched
pub mod Ready
pub mod Run
pub mod Section
pub mod Sections
pub mod Starts
pub mod Startup
pub mod Opening
pub mod Pass
pub mod Polled
pub mod Ports
pub mod Ptt
pub mod Radios
pub mod Shutdown
pub mod Start
pub mod Synced
pub mod Wired
use righack.Base.{
  ℕ, zero, suc, ◌+◌, Bool, true, false, Option, none, some, List, [], ◌∷◌, Text, bytes,
  if◌then◌else◌,
}
use righack.Configfile.{
  configfile_load, configfile_rgets_section_key, configfile_get_section_name,
  configfile_get_section_count,
}
use righack.Driver.{driver_bootstrap, driver_register}
use righack.External.{
  Uv, Os, Toml, Rig, CloseCb, no_cb, cleanup_handle_cb, runloop_timer_close_cb,
  runloop_poll_close_cb,
}
use righack.Machine.{
  Prog, Stop, fatal, exit, exit_ok, fault, bad_access, bad_call, pure, halt, skip, ◌>>=◌, ◌>>◌,
  tell, when, fatal_if,
}
use righack.Machine.Memory.{alloc, load, free}
use righack.Machine.Objects.{
  Ptr, JobCb, start_module_handler, vserial_deliver_fc_changed_cb, other_job, PollCb,
  vserial_poll_cb, other_poll, FcChangedCb, update_flow_control, other_fc, DriverLifecycle,
  vserial_lifecycle, other_driver, ModuleLifecycle, test_lifecycle, other_module, struct_text,
  as_text,
}
use righack.Module.{module_bootstrap, module_start, module_stop_all}
use righack.Runloop.Later.{runloop_run_later, run_once_prepare_cb}
use righack.Runloop.Loop.{
  Event, prepare_event, timer_event, poll_event, closed_event, int_event, runloop_bootstrap,
  int_signal_cb, cleanup_handle_cb_run, runloop_run, runloop_cleanup,
}
use righack.Runloop.Poll.{runloop_poll_run_cb, runloop_poll_close_cb_run}
use righack.Runloop.Timer.{runloop_timer_run_cb, runloop_timer_close_cb_run}
use righack.TestModule.{update_flow_control_run, test_lifecycle_start, test_lifecycle_stop}
use righack.Vserial.{vserial_driver_info, vserial_lifecycle_init, vserial_lifecycle_cleanup}
use righack.Vserial.Packet.{ControlLines, vserial_poll_cb_run, vserial_deliver_fc_changed_cb_run}

module _ {X : Type 0} ⦃uv : Uv X⦄ ⦃os : Os X⦄ ⦃toml : Toml X⦄ ⦃rig : Rig X⦄ where
  unfoldable pub call_fc : FcChangedCb → Ptr → ControlLines → Prog X (Unit {0})
  unfolding update_flow_control_run
  call_fc update_flow_control driver lines = update_flow_control_run driver lines
  call_fc (other_fc n) driver lines = halt (fault bad_call)

  unfoldable pub call_poll : PollCb → Ptr → ℕ → Prog X (Unit {0})
  unfolding call_fc vserial_poll_cb_run
  call_poll vserial_poll_cb p events = vserial_poll_cb_run call_fc p events
  call_poll (other_poll n) p events = halt (fault bad_call)

  unfoldable pub driver_init : DriverLifecycle → Ptr → Text → Prog X (Unit {0})
  unfolding vserial_lifecycle_init
  driver_init vserial_lifecycle driver section = vserial_lifecycle_init driver section
  driver_init (other_driver n) driver section = halt (fault bad_call)

  unfoldable pub driver_cleanup : DriverLifecycle → Ptr → Prog X (Unit {0})
  unfolding vserial_lifecycle_cleanup
  driver_cleanup vserial_lifecycle driver = vserial_lifecycle_cleanup driver
  driver_cleanup (other_driver n) driver = halt (fault bad_call)

  unfoldable pub start_lifecycle : ℕ → ModuleLifecycle → Ptr → Prog X (Unit {0})
  unfolding test_lifecycle_start driver_init
  start_lifecycle fuel test_lifecycle p = test_lifecycle_start driver_init fuel p
  start_lifecycle fuel (other_module n) p = halt (fault bad_call)

  unfoldable pub stop_lifecycle : ModuleLifecycle → Ptr → Prog X (Unit {0})
  unfolding test_lifecycle_stop driver_cleanup
  stop_lifecycle test_lifecycle p = test_lifecycle_stop driver_cleanup p
  stop_lifecycle (other_module n) p = halt (fault bad_call)

  unfoldable pub start_section : ℕ → Text → Prog X Ptr
  unfolding configfile_rgets_section_key load module_start start_lifecycle
  start_section fuel config_section = do
    name ← configfile_rgets_section_key config_section (bytes "module.name")
    module_name ← load as_text name
    module_start (start_lifecycle fuel) fuel module_name config_section

  unfoldable pub start_module_handler_run : ℕ → Bool → Ptr → Prog X (Unit {0})
  unfolding start_section load free
  start_module_handler_run fuel should_run context = do
    when should_run
        (do config_section ← load as_text context; start_section fuel config_section; skip)
    free context

  unfoldable pub call_job : ℕ → JobCb → Bool → Ptr → Prog X (Unit {0})
  unfolding start_module_handler_run call_fc vserial_deliver_fc_changed_cb_run
  call_job fuel start_module_handler should_run p = start_module_handler_run fuel should_run p
  call_job fuel vserial_deliver_fc_changed_cb should_run p =
      vserial_deliver_fc_changed_cb_run call_fc should_run p
  call_job fuel (other_job n) should_run p = halt (fault bad_call)

  -- No timer is created in the program.
  abbrev call_timer : ℕ → Bool → Ptr → Prog X (Unit {0})
  call_timer n should_run p = halt (fault bad_call)

  unfoldable pub call_closed : CloseCb → Ptr → Prog X (Unit {0})
  unfolding cleanup_handle_cb_run runloop_timer_close_cb_run runloop_poll_close_cb_run call_poll
  call_closed no_cb p = skip
  call_closed cleanup_handle_cb p = cleanup_handle_cb_run p
  call_closed runloop_timer_close_cb p = runloop_timer_close_cb_run call_timer p
  call_closed runloop_poll_close_cb p = runloop_poll_close_cb_run call_poll p

  unfoldable pub call_event : ℕ → Event → Prog X (Unit {0})
  unfolding run_once_prepare_cb call_job runloop_timer_run_cb runloop_poll_run_cb call_poll
      call_closed int_signal_cb
  call_event fuel (prepare_event p) = run_once_prepare_cb (call_job fuel) fuel p
  call_event fuel (timer_event p) = runloop_timer_run_cb call_timer p
  call_event fuel (poll_event p failed events) = runloop_poll_run_cb call_poll p failed events
  call_event fuel (closed_event p f) = call_closed f p
  call_event fuel int_event = int_signal_cb

  unfoldable pub bootstrap : ℕ → Prog X (Unit {0})
  unfolding runloop_bootstrap driver_bootstrap module_bootstrap
  bootstrap fuel = do tell rig.set_debug; runloop_bootstrap; driver_bootstrap; module_bootstrap fuel

  -- One round of the loop of `main`; `ad_strdup` reads through the name it gets.
  unfoldable pub schedule_section : ℕ → Prog X (Unit {0})
  unfolding configfile_get_section_name alloc runloop_run_later
  schedule_section i = do
    name ← configfile_get_section_name i
    elim name [
      | none ↦ halt (fault bad_access)
      | some n ↦ (do
        section_name ← alloc (struct_text n)
        runloop_run_later start_module_handler section_name
        skip)
    ]

  -- The rounds from `i` on, of which `n` are left.
  unfoldable pub schedule_sections : ℕ → ℕ → Prog X (Unit {0})
  unfolding schedule_section
  schedule_sections zero i = skip
  schedule_sections (suc n) i = schedule_section i >> schedule_sections n (i + 1)

  unfoldable pub driver_load_plugins : ℕ → Prog X (Unit {0})
  unfolding driver_register vserial_driver_info
  driver_load_plugins fuel = driver_register fuel vserial_driver_info

  -- From `configfile_load` up to `runloop_run`.
  unfoldable pub load_and_schedule : ℕ → Text → Prog X (Unit {0})
  unfolding configfile_load driver_load_plugins configfile_get_section_count schedule_sections
  load_and_schedule fuel config_file = do
    configfile_load config_file
    driver_load_plugins fuel
    num_sections ← configfile_get_section_count fuel
    schedule_sections num_sections 0

  -- `args` are the arguments behind the program's name; the three lists are what libuv calls back
  -- in the three runs of the loop.
  unfoldable pub main : ℕ → List Text → List Event → List Event → List Event → Prog X (Unit {0})
  unfolding bootstrap load_and_schedule runloop_run runloop_cleanup module_stop_all stop_lifecycle
      call_event
  main fuel (config_file ∷ []) running stopping closing = do
    bootstrap fuel
    load_and_schedule fuel config_file
    runloop_run (call_event fuel) running
    runloop_cleanup (call_event fuel) (module_stop_all stop_lifecycle) stopping closing
    halt (exit exit_ok)
  main fuel args running stopping closing = do
    bootstrap fuel
    halt (fatal (bytes "usage: specify exactly one config file"))
