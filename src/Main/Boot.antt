-- ===== src/Main/Boot.antt =====
-- src/main.c: from the start of the process to the loaded configuration.
use righack.Base.{◌<◌, ℕ, suc, ◌≡◌, refl, ◌≢◌, false, none, some, [], ◌∷◌, Text, arith, ◌==◌}
use righack.Configfile.{configfile_load}
use righack.External.{Uv, Os, Toml, Rig}
use righack.Machine.{World, ok, ◌>>◌}
use righack.Machine.Memory.{write}
use righack.Machine.Objects.{
  struct_loaded_module_list, struct_driver_list, Ptr, null, uv_loop, uv_prepare,
}
use righack.Main.{schedule_sections, load_and_schedule, bootstrap, driver_load_plugins}
use righack.Module.{test_module_info}
use righack.Vserial.{vserial_driver_info}
use righack.Configfile.Count.{configfile_get_section_count-total, HasSections}

-- The start of the process: no memory, and the static variables as they are declared.
abbrev pub at_start : {X : Type 0} → X → World X
at_start x = record {
  cell = λ p. none;
  next = 1;
  thread_loop = null;
  in_runloop_context = false;
  run_once_queue = null;
  run_once_last = null;
  run_once_prepare = null;
  run_once_prepare_started = false;
  int_signal = null;
  toml_root = null;
  config_buf = null;
  loaded_drivers = [];
  loaded_modules = [];
  running_modules = [];
  ext = x;
}

-- What `bootstrap` leaves: the loop, the prepare handle, and the node of the test module.
abbrev pub booted : {X : Type 0} → X → World X
booted x = record (at_start x) {
  cell =
      write (write (write (λ p. none) 1 (some uv_loop)) 2 (some uv_prepare)) 3
        (some (struct_loaded_module_list test_module_info));
  next = 4;
  thread_loop = 1;
  run_once_prepare = 2;
  loaded_modules = test_module_info ∷ [];
}

-- The configuration file can be opened, parsed to `root` and closed.
pub record Loads {X : Type 0} (os : Os X) (toml : Toml X) (path : Text) (root : Ptr) : Type 0 where
  pub opens : (x : X) → (os.fopen path x).0 ≢ null
  pub parses : (fh : Ptr) (x : X) → (toml.parse_file fh x).0 ≡ root
  pub closes : (fh : Ptr) (x : X) → (os.fclose fh x).0 ≡ false
  pub root_there : root ≢ null

abbrev pub loaded : {X : Type 0} → X → Ptr → World X
loaded x root = record (booted x) {
  cell = write (booted x).cell 4 (some (struct_driver_list vserial_driver_info));
  next = 5;
  toml_root = root;
  loaded_drivers = vserial_driver_info ∷ [];
}

module _ {X : Type 0} ⦃uv : Uv X⦄ ⦃os : Os X⦄ ⦃toml : Toml X⦄ ⦃rig : Rig X⦄ where
  -- What is outside when `bootstrap` has returned, and when the configuration is loaded then.
  abbrev booted_ext : X → X
  booted_ext x = uv.prepare_init 2 (uv.loop_init 1 (rig.set_debug x))

  abbrev pub loaded_ext : Text → X → X
  loaded_ext path x =
      let (fh, x1) = os.fopen path (booted_ext x) in (os.fclose fh (toml.parse_file fh x1).1).1

  bootstrap_lem :
      (fuel : ℕ) (x : X) → bootstrap (suc fuel) (at_start x) ≡ ok tt (booted (booted_ext x))
  unfolding bootstrap
  bootstrap_lem fuel x = refl

  load_lem :
      (path : Text) (root : Ptr) (x : X)
      → Loads os toml path root
      → configfile_load path (booted (booted_ext x))
        ≡ ok tt (record (booted (loaded_ext path x)) { toml_root = root })
  unfolding configfile_load
  load_lem path root x loads =
      let fh = (os.fopen path (booted_ext x)).0 in
      let x1 = (os.fopen path (booted_ext x)).1 in
      let x2 = (toml.parse_file fh x1).1 in
      let there : (fh == null) ≡ false = ground (arith, loads.opens (booted_ext x)) in
      let live : (root == null) ≡ false = ground (arith, loads.root_there) in
      rw (there, loads.parses fh x1, loads.closes fh x2, live)

  -- With a configuration that lists `n` sections, the start of the process comes to their schedule.
  pub boot_lem :
      (fuel n : ℕ) (path : Text) (root : Ptr) (x : X)
      → Loads os toml path root
      → HasSections (loaded (loaded_ext path x) root) n
      → n < suc fuel
      → (bootstrap (suc fuel) >> load_and_schedule (suc fuel) path) (at_start x)
        ≡ schedule_sections n 0 (loaded (loaded_ext path x) root)
  unfolding load_and_schedule driver_load_plugins
  boot_lem fuel n path root x loads has lt = rw (
    bootstrap_lem fuel x,
    load_lem path root x loads,
    configfile_get_section_count-total (suc fuel) n (loaded (loaded_ext path x) root)
        loads.root_there has lt,
  )
