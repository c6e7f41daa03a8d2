-- ===== src/Tests/Pass.antt =====
-- A pass over the jobs of two sections.
use righack.Base.{refl, inr, [], ◌∷◌, bytes, arith}
use righack.Machine.{World}
use righack.Machine.Objects.{
  start_module_handler, struct_text, struct_run_once, struct_queue_entry, Object,
}
use righack.Main.Sections.{AreStarting}
use righack.Module.{test_module_info}
use righack.Runloop.Later.{job, entry}
use righack.Runloop.Later.Chain.{Slot, Waiting}
use righack.Tests.Bench.{
  Bench, at_rest, bench_uv, bench_os, bench_rig, bench_toml, radio_setting, spare_setting,
  configured, both_configured,
}
use righack.Tests.Env.{world, world-IsHeap}
use righack.Vserial.{vserial_driver_info}
use righack.Base.{List}

abbrev radio_slot : Slot
radio_slot = record { at = 4; run = 3; job = job start_module_handler 1 }

abbrev spare_slot : Slot
spare_slot = record { at = 6; run = 5; job = job start_module_handler 2 }

abbrev starts_blocks : List Object
starts_blocks =
    struct_text (bytes "radio")
    ∷ struct_text (bytes "spare")
    ∷ struct_run_once radio_slot.job
    ∷ struct_queue_entry (entry 3 6)
    ∷ struct_run_once spare_slot.job
    ∷ struct_queue_entry (entry 5 0)
    ∷ []

abbrev starts_world : World Bench
starts_world = record (world starts_blocks at_rest) {
  run_once_queue = 4;
  run_once_last = 6;
  toml_root = 1;
  loaded_drivers = vserial_driver_info ∷ [];
  loaded_modules = test_module_info ∷ [];
}

abbrev starts_wait : Waiting starts_world (radio_slot ∷ spare_slot ∷ [])
starts_wait = record {
  formed =
      let hp = world-IsHeap {X = Bench} starts_blocks at_rest in
      record { null_empty = hp.null_empty; next_pos = hp.next_pos; rest_empty = hp.rest_empty };
  chain = ((refl, refl), ((refl, refl), tt));
  distinct = (
    (λ e. omega (arith, e), λ e. omega (arith, e), tt),
    (λ e. omega (arith, e), λ e. omega (arith, e), tt),
    (tt, tt, tt),
  );
  tail = inr (λ e. omega (arith, e), refl);
}

abbrev both_start : AreStarting starts_world (radio_slot ∷ spare_slot ∷ [])
both_start = (
  radio_setting,
  record {
    is_start = refl;
    holds_name = refl;
    apart = λ e. omega (arith, e);
    configured = configured (bytes "radio");
  },
  (λ e. omega (arith, e), tt),
  both_configured.2,
  (
    spare_setting,
    record {
      is_start = refl;
      holds_name = refl;
      apart = λ e. omega (arith, e);
      configured = configured (bytes "spare");
    },
    tt,
    tt,
    tt,
  ),
)
