-- ===== src/Tests/Loop.antt =====
-- The loop's queue, polls and timers, at concrete inputs.
use righack.Base.{◌≡◌, refl, true, false, none, [], ◌∷◌, ◌++◌, bytes, arith, inr}
use righack.External.{UvEvents}
use righack.Machine.{World, ok, stop, fatal}
use righack.Machine.Memory.{write}
use righack.Machine.Objects.{
  Ptr, start_module_handler, other_job, Timer, TimerPrivate, vserial_poll_cb, struct_run_once,
  struct_queue_entry, struct_timer, struct_timer_private,
}
use righack.Main.{call_poll}
use righack.Runloop.Later.{runloop_run_later, job, entry}
use righack.Runloop.Later.Chain.{Slots, Waiting}
use righack.Runloop.Later.Schedule.{new_slot, runloop_run_later-Waiting}
use righack.Runloop.Poll.{runloop_poll_create, runloop_poll_close_cb_run, runloop_poll_run_cb}
use righack.Runloop.Poll.Life.{
  IsPoll, runloop_poll_run_cb_lem, runloop_poll_close_cb-frees, runloop_poll_create-IsPoll,
}
use righack.Runloop.Timer.Life.{IsTimer, scheduled}
use righack.Tests.Env.{
  Outside, quiet, set_active, world, world-IsHeap, port_blocks, poll, poll_private, outside_uv,
  outside_os, outside_toml, outside_rig,
}
use righack.Machine.Extends.{is_fixed, SameVars, Extends, any_kind}

-- A queue with two jobs.
abbrev queue_world : World Outside
queue_world =
    record (world
      (struct_run_once (job start_module_handler 9)
        ∷ struct_queue_entry (entry 1 4)
        ∷ struct_run_once (job (other_job 0) 8)
        ∷ struct_queue_entry (entry 3 0)
        ∷ [])
      quiet) { run_once_queue = 2; run_once_last = 4; run_once_prepare = 20 }

abbrev slots : Slots
slots =
    record { at = 2; run = 1; job = job start_module_handler 9 }
    ∷ record { at = 4; run = 3; job = job (other_job 0) 8 }
    ∷ []

queue_waits : Waiting queue_world slots
queue_waits = record {
  formed =
      let hp =
        world-IsHeap
          (struct_run_once (job start_module_handler 9)
            ∷ struct_queue_entry (entry 1 4)
            ∷ struct_run_once (job (other_job 0) 8)
            ∷ struct_queue_entry (entry 3 0)
            ∷ [])
          quiet in
      record { null_empty = hp.null_empty; next_pos = hp.next_pos; rest_empty = hp.rest_empty };
  chain = ((refl, refl), ((refl, refl), tt));
  distinct = omega arith;
  tail = inr (λ e. omega (arith, e), refl);
}

runloop_run_later-Waiting_example :
    (w' : World Outside) × (runloop_run_later start_module_handler 5 queue_world
      ≡ ok (record { cb = start_module_handler; context = 5; private = 5 }) w')
    × Waiting w' (slots ++ new_slot queue_world start_module_handler 5 ∷ [])
    × (w'.ext ≡ set_active 20 true quiet)
    × (w'.run_once_queue ≡ 2)
    × Extends is_fixed queue_world w'
    × (w'.config_buf ≡ 0)
runloop_run_later-Waiting_example =
    runloop_run_later-Waiting start_module_handler 5 queue_world slots queue_waits

abbrev port_world : World Outside
port_world = world port_blocks quiet

abbrev is_poll : IsPoll port_world 5 poll poll_private
is_poll = record { holds_poll = refl; holds_private = refl; points_back = refl }

-- A poll handle's close event with libuv's disconnect alone.
abbrev disconnected : UvEvents
disconnected = record { readable = false; writable = false; disconnect = true; prioritized = false }

runloop_poll_run_cb_lem_example :
    runloop_poll_run_cb call_poll 6 false disconnected port_world
    ≡ stop (fatal (bytes "libuv did not signal any events")) port_world
runloop_poll_run_cb_lem_example =
    runloop_poll_run_cb_lem call_poll port_world 5 poll poll_private is_poll false disconnected

runloop_poll_close_cb-frees_example :
    runloop_poll_close_cb_run call_poll 6 port_world
    ≡ ok tt (record port_world { cell = write (write port_world.cell 6 none) 5 none })
unfolding call_poll
runloop_poll_close_cb-frees_example =
    runloop_poll_close_cb-frees call_poll port_world 5 poll poll_private is_poll port_world refl
      (world-IsHeap port_blocks quiet) is_poll

runloop_poll_create-IsPoll_example :
    (w' : World Outside) × (runloop_poll_create 3 vserial_poll_cb port_world ≡ ok 10 w')
    × IsPoll w' 10
        (record { cb = vserial_poll_cb; context = 0; private = 11 })
        (record { uv_data = 10; fd = 3 })
    × (w'.ext ≡ quiet)
    × Extends any_kind port_world w'
    × SameVars port_world w'
runloop_poll_create-IsPoll_example =
    runloop_poll_create-IsPoll 3 vserial_poll_cb port_world (world-IsHeap port_blocks quiet)

-- A timer that was never scheduled.
abbrev timer : Timer
timer = record { cb = 0; context = 0; private = 2 }

abbrev timer_private : TimerPrivate
timer_private = record { uv_data = 1; initial = 0; repeat = 0 }

abbrev timer_world : World Outside
timer_world = world (struct_timer timer ∷ struct_timer_private timer_private ∷ []) quiet

abbrev is_timer : IsTimer timer_world 1 timer timer_private
is_timer = record { holds_timer = refl; holds_private = refl; points_back = refl }

starts : (h : Ptr) (x : Outside) → (set_active h true x).active h ≡ true
starts h x = ground arith

stops : (h : Ptr) (x : Outside) → (set_active h false x).active h ≡ false
stops h x = ground arith

abbrev scheduled_world : World Outside
scheduled_world = scheduled timer_world timer timer_private 100 50
