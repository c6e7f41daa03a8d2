-- ===== src/Tests/Setup.antt =====
-- The configuration, the drivers and the modules, at concrete inputs.
use righack.Base.{
  ℕ, inl, ◌<◌, ◌≢◌, ◌+◌, ◌≡◌, refl, arith, false, none, some, [], ◌∷◌, length, bytes, inr,
}
use righack.Configfile.{configfile_gets_section_key, configfile_get_section_count}
use righack.Configfile.Buffer.{gets-value, gets-double_free}
use righack.Configfile.Count.{HasSections, configfile_get_section_count-total}
use righack.Driver.{driver_get_info, driver_register, driver_destroy}
use righack.Driver.Destroy.{driver_destroy-frees}
use righack.Driver.Registry.{with_node, driver_get_info-hangs, driver_register-second}
use righack.Machine.{World, Prog, ok, stop, fault, double_free, out_of_fuel, skip, ◌>>◌}
use righack.Machine.Access.{IsHeap}
use righack.Machine.Memory.{write}
use righack.Machine.Objects.{
  no_stream_op, no_cb_set, Ptr, DriverInfo, DriverLifecycle, other_driver, ModuleLifecycle, Driver,
  stopped, struct_driver, struct_driver_cb, struct_text, struct_module,
}
use righack.Module.{module_start}
use righack.Module.Instances.{instance_of, created, module_start-first}
use righack.Module.Registry.{module_start-hangs}
use righack.Main.{schedule_sections}
use righack.Main.Start.{AreStarts, schedule_sections-Waiting}
use righack.Runloop.Later.Chain.{Slots, Waiting}
use righack.Tests.Env.{
  Outside, quiet, world, world-IsHeap, driver, instance_, outside_uv, outside_os, outside_toml,
  outside_rig,
}
use righack.Machine.Extends.{is_fixed, KeepsIf}

-- A configuration is loaded, and the buffer holds the value of an earlier call.
abbrev config_world : World Outside
config_world = record (world (struct_text (bytes "test") ∷ []) quiet) {
  toml_root = 1;
  config_buf = 1;
}

config_formed : IsHeap config_world.cell config_world.next
config_formed = world-IsHeap (struct_text (bytes "test") ∷ []) quiet

gets-value_example :
    (w' : World Outside) × (configfile_gets_section_key
        (bytes "radio")
        (bytes "vserial.port")
        config_world
      ≡ ok 2 w')
    × (w'.cell 2 ≡ some (struct_text (bytes "rig")))
    × (w'.config_buf ≡ 2)
    × IsHeap w'.cell w'.next
    × (w'.cell 1 ≡ none)
    × (w'.ext ≡ quiet)
    × (w'.toml_root ≡ 1)
gets-value_example =
    gets-value (bytes "radio") (bytes "vserial.port") config_world (bytes "rig") (bytes "rig")
      config_formed (inr (_, refl)) (λ e. omega (arith, e)) (λ e. omega (arith, e)) refl refl

gets-double_free_example :
    (configfile_gets_section_key (bytes "radio") (bytes "hamlib.serial.port")
        >> configfile_gets_section_key (bytes "second") (bytes "module.name"))
      config_world
    ≡ stop (fault double_free) (record config_world { cell = write config_world.cell 1 none })
gets-double_free_example =
    gets-double_free (bytes "radio") (bytes "hamlib.serial.port") (bytes "second")
      (bytes "module.name") config_world (λ e. omega (arith, e)) (λ e. omega (arith, e)) refl
      (λ e. omega (arith, e)) refl

one_section : HasSections config_world 1
one_section = record { listed = λ i lt e. ground arith; ends = refl }

configfile_get_section_count-total_example :
    configfile_get_section_count 2 config_world ≡ ok 1 config_world
configfile_get_section_count-total_example =
    configfile_get_section_count-total 2 1 config_world (λ e. omega (arith, e)) one_section
      (omega arith)

abbrev rs232 : DriverInfo
rs232 = record {
  name = bytes "rs232";
  lifecycle = other_driver 0;
  op = record { stream = no_stream_op };
}

abbrev two_drivers : World Outside
two_drivers = record config_world { loaded_drivers = rs232 ∷ driver.info ∷ [] }

driver_get_info-hangs_example :
    driver_get_info 1000 (bytes "vserial") two_drivers ≡ stop out_of_fuel two_drivers
driver_get_info-hangs_example =
    driver_get_info-hangs 1000 (bytes "vserial") rs232 (driver.info ∷ []) two_drivers refl
      (λ e. ground (arith, e))

driver_register-second_example :
    driver_register 2 driver.info two_drivers ≡ stop out_of_fuel (with_node two_drivers driver.info)
driver_register-second_example =
    driver_register-second 1 driver.info rs232 (driver.info ∷ []) two_drivers refl

-- A stopped driver, and one with user data.
abbrev stopped_driver : Driver
stopped_driver = record { user = 0; private = 0; info = rs232; cb = 2; status = stopped }

abbrev user_driver : Driver
user_driver = record { user = 5; private = 0; info = rs232; cb = 2; status = stopped }

abbrev driver_world : Driver → World Outside
driver_world d = world (struct_driver d ∷ struct_driver_cb no_cb_set ∷ []) quiet

abbrev no_cleanup : DriverLifecycle → Ptr → Prog Outside (Unit {0})
no_cleanup f p = skip

driver_destroy-frees_example :
    driver_destroy no_cleanup 1 false (driver_world stopped_driver)
    ≡ ok tt (record (driver_world stopped_driver) {
      cell = write (write (driver_world stopped_driver).cell 2 none) 1 none;
    })
driver_destroy-frees_example =
    driver_destroy-frees no_cleanup (driver_world stopped_driver) 1 stopped_driver refl refl
      (driver_world stopped_driver) stopped_driver refl refl no_cb_set refl
      (world-IsHeap (struct_driver stopped_driver ∷ struct_driver_cb no_cb_set ∷ []) quiet) refl

-- The test module is registered.
abbrev module_world : World Outside
module_world = record config_world { loaded_modules = instance_.info ∷ [] }

abbrev no_start : ModuleLifecycle → Ptr → Prog Outside (Unit {0})
no_start f p = skip

module_start-hangs_example :
    module_start no_start 1000 (bytes "tests") (bytes "radio") module_world
    ≡ stop out_of_fuel module_world
module_start-hangs_example =
    module_start-hangs no_start 1000 (bytes "tests") (bytes "radio") instance_.info [] module_world
      refl (λ e. ground (arith, e))

abbrev started_instance : World Outside
started_instance = created module_world instance_.info (bytes "radio")

module_start-first_example :
    (module_start no_start 1 (bytes "test") (bytes "radio") module_world ≡ ok 3 started_instance)
    × (started_instance.cell 3 ≡ some (struct_module (instance_of module_world instance_.info)))
    × (started_instance.cell 2 ≡ some (struct_text (bytes "radio")))
    × IsHeap started_instance.cell started_instance.next
module_start-first_example =
    module_start-first no_start 0 (bytes "radio") instance_.info [] module_world started_instance
      refl (world-IsHeap (struct_text (bytes "test") ∷ []) quiet) refl

-- Two sections, and an empty queue.
abbrev sections_world : World Outside
sections_world = record config_world { ext = record quiet { sections = 2 } }

nothing_waits : Waiting sections_world []
nothing_waits = record {
  formed = record {
    null_empty = config_formed.null_empty;
    next_pos = config_formed.next_pos;
    rest_empty = config_formed.rest_empty;
  };
  chain = tt;
  distinct = tt;
  tail = inl (refl, refl);
}

two_listed : (k : ℕ) → k < 2 → outside_toml.key_in (record quiet { sections = 2 }) 1 (0 + k) ≢ none
two_listed k lt = λ e. ground arith

schedule_sections-Waiting_example :
    (w' : World Outside) × (new : Slots) × (schedule_sections 2 0 sections_world ≡ ok tt w')
    × Waiting w' new
    × AreStarts outside_toml sections_world.ext sections_world.toml_root w'.cell 0 new
    × (length new ≡ 2)
    × KeepsIf is_fixed sections_world.cell w'.cell
schedule_sections-Waiting_example =
    schedule_sections-Waiting (λ h x root i. refl) 2 0 sections_world [] nothing_waits
      (λ e. omega (arith, e)) two_listed
