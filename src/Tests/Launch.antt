-- ===== src/Tests/Launch.antt =====
-- Opening the port and starting the test module.
use righack.Base.{
  Text, ℕ, List, length, ◌++◌, arith, ◌≡◌, refl, ◌⊎◌, inl, inr, Bool, false, [], ◌∷◌, bytes,
}
use righack.External.{UvEvents}
use righack.Machine.{fatal, stop, ◌>>◌, World, ok}
use righack.Machine.Objects.{Ptr, Module, struct_module, struct_text, test_lifecycle}
use righack.Main.{main, schedule_section, call_event, driver_init}
use righack.Main.Launch.{Works, test_lifecycle_start-IsLaunched}
use righack.Main.Launched.{IsLaunched}
use righack.Runloop.Later.Chain.{Waiting}
use righack.Tests.Env.{world, world-IsHeap}
use righack.TestModule.{test_lifecycle_start}
use righack.Vserial.{vserial_driver_info}
use righack.Vserial.Port.{vserial_create}
use righack.Vserial.Port.Create.{Succeeds, IsMade, vserial_create-IsMade}
use righack.Machine.Ends.{Dies}
use righack.Main.Ready.{Runs, IsFollowing}
use righack.Runloop.Loop.{Event, int_event, prepare_event}
use righack.Runloop.Poll.{uv_of_events}
use righack.Module.{test_module_info}
use righack.Machine.Extends.{Extends, is_uv, KeepsTexts}
use righack.Main.Run.{schedule_section-IsFollowing}
use righack.Tests.Bench.{
  bench_toml, bench_rig, bench_os, bench_uv, loads, loop_laws, handle_laws, radio_setting,
  spare_setting, both_configured, Transmits, turn_self, configured, runs, at_rest, Bench,
}
use righack.Main.Whole.{main-ends_fatal}
use righack.Main.Polled.{handle_events}
use righack.Main.Boot.{at_start}
use righack.Machine.Others.{KeepsBut}
use righack.Configfile.Keys.{LeavesText}

abbrev instance_ : Module
instance_ = record {
  label = 2;
  private = 0;
  info = record { name = bytes "test"; lifecycle = test_lifecycle };
}

-- The module and its label; the driver is registered, and the configuration is loaded.
abbrev bench_world : World Bench
bench_world = record (world (struct_module instance_ ∷ struct_text (bytes "radio") ∷ []) at_rest) {
  toml_root = 1;
  loaded_drivers = vserial_driver_info ∷ [];
}

abbrev nothing_waits : Waiting bench_world []
nothing_waits = record {
  formed =
      let hp =
        world-IsHeap {X = Bench} (struct_module instance_ ∷ struct_text (bytes "radio") ∷ [])
          at_rest in
      record { null_empty = hp.null_empty; next_pos = hp.next_pos; rest_empty = hp.rest_empty };
  chain = tt;
  distinct = tt;
  tail = inl (refl, refl);
}

vserial_create-IsMade_example :
    ((w' : World Bench) × (vserial_create 2 bench_world ≡ ok 3 w')
      × IsMade bench_world w' (bytes "radio"))
    ⊎ Dies (Succeeds bench_os (bytes "radio")) (vserial_create 2 bench_world)
vserial_create-IsMade_example =
    vserial_create-IsMade bench_world 2 (bytes "radio") nothing_waits.formed refl

test_lifecycle_start-IsLaunched_example :
    ((w' : World Bench) × (test_lifecycle_start driver_init 2 1 bench_world ≡ ok tt w')
      × IsLaunched w' 1 instance_ []
      × KeepsTexts bench_world w'
      × Extends is_uv bench_world w'
      × KeepsBut 1 bench_world.cell w'.cell
      × LeavesText bench_toml 1 (bytes "radio") (bytes "hamlib.serial.port") w')
    ⊎ Dies
        (Works bench_os bench_rig (bytes "rig") 1)
        (test_lifecycle_start driver_init 2 1 bench_world)
test_lifecycle_start-IsLaunched_example =
    test_lifecycle_start-IsLaunched 1 (bytes "radio") (bytes "rig") bench_world 1 1 instance_ [] []
      nothing_waits (inl refl) refl refl refl (λ e. omega (arith, e))
      (record { table_there = λ x e. omega (arith, e); raw_there = λ x. (bytes "rig", refl, refl) })
      (record { table_there = λ x e. omega (arith, e); raw_there = λ x. (bytes "1", refl, refl) })
      (record {
        table_there = λ x e. omega (arith, e);
        raw_maybe = λ x. inr (bytes "/dev/ttyS0", bytes "/dev/ttyS0", refl, refl);
      })

-- The configuration lists the section "radio", and no job waits.
abbrev loaded_world : World Bench
loaded_world = record (world [] at_rest) {
  toml_root = 1;
  loaded_drivers = vserial_driver_info ∷ [];
  loaded_modules = test_module_info ∷ [];
}

abbrev no_job : Waiting loaded_world []
no_job = record {
  formed =
      let hp = world-IsHeap {X = Bench} [] at_rest in
      record { null_empty = hp.null_empty; next_pos = hp.next_pos; rest_empty = hp.rest_empty };
  chain = tt;
  distinct = tt;
  tail = inl (refl, refl);
}

schedule_section-IsFollowing_example :
    ((w' : World Bench) × ((schedule_section 0 >> call_event 3 (prepare_event 9)) loaded_world
        ≡ ok tt w')
      × IsFollowing Transmits 3 ((false, uv_of_events 2) ∷ []) w')
    ⊎ Dies
        (Runs bench_os bench_rig (bytes "rig") 1)
        ((schedule_section 0 >> call_event 3 (prepare_event 9)) loaded_world)
schedule_section-IsFollowing_example =
    schedule_section-IsFollowing Transmits (λ h b x e. turn_self h b x.transmitting)
      (λ fd x h b e. e) (λ p x h b e. e) 1 (bytes "radio") (bytes "rig") loaded_world 0 0 9 [] []
      ((false, uv_of_events 2) ∷ []) no_job (inl refl) refl refl (configured (bytes "radio")) refl

-- All calls succeed here, so the start returns.
section_starts :
    (w' : World Bench) × ((schedule_section 0 >> call_event 3 (prepare_event 9)) loaded_world
      ≡ ok tt w')
    × IsFollowing Transmits 3 ((false, uv_of_events 2) ∷ []) w'
section_starts =
    elim (schedule_section-IsFollowing Transmits (λ h b x e. turn_self h b x.transmitting)
      (λ fd x h b e. e) (λ p x h b e. e) 1 (bytes "radio") (bytes "rig") loaded_world 0 0 9 [] []
      ((false, uv_of_events 2) ∷ []) no_job (inl refl) refl refl (configured (bytes "radio"))
      refl) [ inl started ↦ started | inr (m, w', dies, why) ↦ absurd (why runs) ]

-- The ports' handles report events; then the user interrupts the program.
main-ends_fatal_example :
    (h : Ptr) × (hs : List Ptr) × (length hs ≡ 1)
    × ((es : List (ℕ × Bool × UvEvents)) (stopping closing : List Event)
        → (m : Text) × (v : World Bench) × (main 5
              (bytes "righack.conf" ∷ [])
              (prepare_event 2 ∷ (handle_events h hs es ++ int_event ∷ []))
              stopping
              closing
              (at_start at_rest)
            ≡ stop (fatal m) v))
main-ends_fatal_example =
    main-ends_fatal (λ h x root i. refl) handle_laws loop_laws 5 (bytes "righack.conf") 1 at_rest
      radio_setting (spare_setting ∷ []) (omega arith) loads
      (record { listed = λ i lt e. ground (arith, lt, e); ends = refl }) both_configured
