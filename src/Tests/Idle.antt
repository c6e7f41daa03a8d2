-- ===== src/Tests/Idle.antt =====
-- The end of the loop without a module, and a run of the program without a section.
use righack.Base.{arith, ◌≡◌, refl, none, [], ◌∷◌}
use righack.External.{Toml}
use righack.Machine.{World, ok}
use righack.Machine.Objects.{
  struct_driver_list, struct_loaded_module_list, uv_loop, uv_prepare, uv_signal,
}
use righack.Main.{call_event, stop_lifecycle}
use righack.Main.Empty.{runloop_cleanup-empty}
use righack.Module.{test_module_info, module_stop_all}
use righack.Runloop.Loop.{runloop_cleanup}
use righack.Runloop.Loop.Cleanup.{CanEnd, cleaned, closings, closing_handles}
use righack.Tests.Bench.{Bench, at_rest, bench_uv, bench_os, bench_rig}
use righack.Tests.Env.{world}
use righack.Vserial.{vserial_driver_info}

-- A configuration without a section.
instance abbrev empty_toml : Toml Bench
empty_toml = record {
  parse_file = λ fh x. (1, x);
  key_in = λ x root i. none;
  table_in = λ x root section. 0;
  raw_in = λ x table key. none;
  rtos = λ raw. none;
  rtoi = λ raw. none;
}

-- The loop, the prepare handle, the nodes of the registries, and the signal handle.
abbrev idle_world : World Bench
idle_world =
    record (world
      (uv_loop
        ∷ uv_prepare
        ∷ struct_loaded_module_list test_module_info
        ∷ struct_driver_list vserial_driver_info
        ∷ uv_signal
        ∷ [])
      at_rest) { thread_loop = 1; run_once_prepare = 2; int_signal = 5 }

abbrev can_end : CanEnd idle_world
can_end = record {
  loop_there = λ e. omega (arith, e);
  signal_there = λ e. omega (arith, e);
  holds_loop = refl;
  holds_signal = refl;
  are_held = ((λ e. omega (arith, e)), uv_prepare, refl, tt);
  loop_apart = ((λ e. omega (arith, e)), tt);
  signal_apart = ((λ e. omega (arith, e)), tt);
  not_busy = refl;
}

runloop_cleanup-empty_example :
    runloop_cleanup
      (call_event 1)
      (module_stop_all stop_lifecycle)
      []
      (closings (closing_handles idle_world))
      idle_world
    ≡ ok tt (cleaned idle_world)
runloop_cleanup-empty_example = runloop_cleanup-empty 1 idle_world refl can_end
