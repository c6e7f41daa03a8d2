-- ===== src/Tests/Whole.antt =====
-- Whole runs of src/main.c.
use righack.Base.{◌≡◌, refl, Bool, true, false, Option, none, some, List, [], ◌∷◌, bytes}
use righack.Machine.{Outcome, ok, stop, Stop, fatal, fault, exit, exit_ok, double_free}
use righack.Main.{main}
use righack.Main.Shutdown.{destroy_message}
use righack.Runloop.Loop.{Event, prepare_event, int_event}
use righack.Tests.Env.{Outside, quiet, world, outside_uv, outside_os, outside_toml, outside_rig}

-- How a run ended, and whether the radio was transmitting then.
abbrev end_of_run : Outcome Outside (Unit {0}) → Option Stop × Bool
end_of_run (ok _ w) = (none, w.ext.transmitting)
end_of_run (stop s w) = (some s, w.ext.transmitting)

abbrev run_with : Outside → List Event → Option Stop × Bool
run_with x events = end_of_run (main 9 (bytes "righack.conf" ∷ []) events [] [] (world [] x))

no_arguments :
    end_of_run (main 9 [] [] [] [] (world [] quiet))
    ≡ (some (fatal (bytes "usage: specify exactly one config file")), false)
unfolding main
no_arguments = refl

-- One section: the module is started, and the radio transmits as RTS is set when the port opens. The
-- end is that of a fatal error.
key_and_interrupt :
    run_with (record quiet { lines = 4 }) (prepare_event 2 ∷ int_event ∷ [])
    ≡ (some (fatal destroy_message), true)
unfolding main
key_and_interrupt = refl

-- Two sections: `hamlib.serial.port` is missing in the first, and the lookup for the second frees the
-- buffer of the one before again.
second_section :
    run_with (record quiet { sections = 2 }) (prepare_event 2 ∷ [])
    ≡ (some (fault double_free), false)
unfolding main
second_section = refl

-- Without a section nothing is started, and the process ends well.
no_section :
    run_with (record quiet { sections = 0 }) (int_event ∷ []) ≡ (some (exit exit_ok), false)
unfolding main
no_section = refl
