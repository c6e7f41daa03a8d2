-- ===== src/Tests/Radios.antt =====
-- Two ports, each with a radio of its own.
use righack.Base.{◌≡◌, inr, ◌∙◌, refl, sym, true, false, [], ◌∷◌, arith, ◌++◌, List, ℕ, Bool}
use righack.External.{UvEvents}
use righack.Machine.{World}
use righack.Machine.Objects.{
  Object, vserial_deliver_fc_changed_cb, struct_queue_entry, struct_run_once, struct_module, Module,
  Driver, VserialContext, Poll, PollPrivate, TestContext, struct_driver, struct_driver_cb,
  struct_vserial, struct_vserial_context, struct_poll, struct_poll_private, struct_test_context,
}
use righack.Main.{call_event}
use righack.Main.Followed.{IsFollowed, FollowedOrDies, wire_events}
use righack.Main.Radios.{uv_run-AreFollowed}
use righack.Runloop.Loop.{prepare_event, uv_run}
use righack.Tests.Bench.{
  bench_toml, bench_uv, bench_rig, bench_os, Bench, at_rest, Transmits, turn_self, turn_other,
}
use righack.Tests.Env.{
  instance_, world-IsHeap, world, port_blocks, driver, port, context, poll, poll_private,
  test_context, callbacks,
}
use righack.Main.Synced.{uv_run-SyncedOrDies}
use righack.Main.Awaited.{IsAwaited, SyncedOrDies}
use righack.Runloop.Later.Chain.{Waiting, Slot}
use righack.Runloop.Later.{entry, job}
use righack.Vserial.{vserial_driver_info}

-- The second port, behind the blocks of the first.
abbrev spare_driver : Driver
spare_driver = record driver { user = 16; private = 13; cb = 11 }

abbrev spare_context : VserialContext
spare_context = record context { driver = 10; poll = 14; vserial = 12 }

abbrev spare_poll : Poll
spare_poll = record poll { context = 13; private = 15 }

abbrev spare_private : PollPrivate
spare_private = record poll_private { uv_data = 14 }

abbrev spare_user : TestContext
spare_user = record { vserial = 10; rig = 2 }

abbrev two_ports : World Bench
two_ports =
    world
      (port_blocks
        ++ struct_driver spare_driver
          ∷ struct_driver_cb callbacks
          ∷ struct_vserial port
          ∷ struct_vserial_context spare_context
          ∷ struct_poll spare_poll
          ∷ struct_poll_private spare_private
          ∷ struct_test_context spare_user
          ∷ [])
      at_rest

abbrev followed : IsFollowed Transmits two_ports 6 1
followed = record {
  at = 5;
  poll = poll;
  private = poll_private;
  is_poll = record { holds_poll = refl; holds_private = refl; points_back = refl };
  is_cb = refl;
  at_handle = refl;
  context = context;
  port = port;
  driver = driver;
  user = test_context;
  wired = record {
    attached = record {
      holds_context = refl;
      holds_port = refl;
      holds_driver = refl;
      cb = callbacks;
      holds_cb = refl;
      calls = refl;
    };
    holds_user = refl;
  };
  at_radio = refl;
  synced = refl;
}

abbrev spare_followed : IsFollowed Transmits two_ports 15 2
spare_followed = record {
  at = 14;
  poll = spare_poll;
  private = spare_private;
  is_poll = record { holds_poll = refl; holds_private = refl; points_back = refl };
  is_cb = refl;
  at_handle = refl;
  context = spare_context;
  port = port;
  driver = spare_driver;
  user = spare_user;
  wired = record {
    attached = record {
      holds_context = refl;
      holds_port = refl;
      holds_driver = refl;
      cb = callbacks;
      holds_cb = refl;
      calls = refl;
    };
    holds_user = refl;
  };
  at_radio = refl;
  synced = refl;
}

abbrev readable_event : UvEvents
readable_event = record {
  readable = true;
  writable = false;
  disconnect = false;
  prioritized = false;
}

-- An event of the second port, one of the first, and an error of the second.
abbrev port_events : List (ℕ × Bool × UvEvents)
port_events =
    (1, false, readable_event) ∷ (0, false, readable_event) ∷ (1, true, readable_event) ∷ []

uv_run-AreFollowed_example :
    FollowedOrDies Transmits two_ports
      (6, 1)
      ((15, 2) ∷ [])
      (uv_run (call_event 9) (wire_events (6, 1) ((15, 2) ∷ []) port_events) two_ports)
uv_run-AreFollowed_example =
    uv_run-AreFollowed Transmits (λ h b old x was e. turn_self h b x.transmitting)
      (λ h g b b' x ne e. turn_other h g b x.transmitting (λ eq. ne (sym eq)) ∙ e) (λ fd x h b e. e)
      9 two_ports (6, 1) ((15, 2) ∷ []) port_events ((λ e. omega (arith, e), tt), (tt, tt))
      (followed, spare_followed)

-- The modules of the ports wait for their first deliveries, while both radios transmit.
abbrev spare_instance : Module
spare_instance = record instance_ { private = 16 }

abbrev first_slot : Slot
first_slot = record { at = 19; run = 18; job = job vserial_deliver_fc_changed_cb 4 }

abbrev spare_slot : Slot
spare_slot = record { at = 21; run = 20; job = job vserial_deliver_fc_changed_cb 13 }

abbrev waiting_blocks : List Object
waiting_blocks =
    port_blocks
    ++ struct_driver spare_driver
      ∷ struct_driver_cb callbacks
      ∷ struct_vserial port
      ∷ struct_vserial_context spare_context
      ∷ struct_poll spare_poll
      ∷ struct_poll_private spare_private
      ∷ struct_test_context spare_user
      ∷ struct_module spare_instance
      ∷ struct_run_once first_slot.job
      ∷ struct_queue_entry (entry 18 21)
      ∷ struct_run_once spare_slot.job
      ∷ struct_queue_entry (entry 20 0)
      ∷ []

abbrev keyed : Bench
keyed = record at_rest { transmitting = λ h. true }

abbrev waiting_world : World Bench
waiting_world = record (world waiting_blocks keyed) { run_once_queue = 19; run_once_last = 21 }

abbrev both_wait : Waiting waiting_world (first_slot ∷ spare_slot ∷ [])
both_wait = record {
  formed =
      let hp = world-IsHeap {X = Bench} waiting_blocks keyed in
      record { null_empty = hp.null_empty; next_pos = hp.next_pos; rest_empty = hp.rest_empty };
  chain = ((refl, refl), ((refl, refl), tt));
  distinct = (
    (λ e. omega (arith, e), λ e. omega (arith, e), tt),
    (λ e. omega (arith, e), λ e. omega (arith, e), tt),
    (tt, tt, tt),
  );
  tail = inr (λ e. omega (arith, e), refl);
}

driver_info : driver.info ≡ vserial_driver_info
unfolding vserial_driver_info
driver_info = refl

abbrev awaited : IsAwaited waiting_world first_slot (6, 1)
awaited = record {
  at_module = 8;
  module_is = instance_;
  user = test_context;
  port = 4;
  context = context;
  set_up = record {
    test = 7;
    radio = λ e. omega (arith, e);
    vserial = port;
    driver = driver;
    holds_module = refl;
    holds_test = refl;
    wired = record {
      attached = record {
        holds_context = refl;
        holds_port = refl;
        holds_driver = refl;
        cb = callbacks;
        holds_cb = refl;
        calls = refl;
      };
      holds_user = refl;
    };
    tied = (refl, refl, refl);
    poll = poll;
    private = poll_private;
    is_poll = record { holds_poll = refl; holds_private = refl; points_back = refl };
    is_polled = (refl, refl, refl);
    driver_is = (driver_info, refl);
    there = (λ e. omega (arith, e), λ e. omega (arith, e));
  };
  at_radio = refl;
  is_delivery = refl;
}

abbrev spare_awaited : IsAwaited waiting_world spare_slot (15, 2)
spare_awaited = record {
  at_module = 17;
  module_is = spare_instance;
  user = spare_user;
  port = 13;
  context = spare_context;
  set_up = record {
    test = 16;
    radio = λ e. omega (arith, e);
    vserial = port;
    driver = spare_driver;
    holds_module = refl;
    holds_test = refl;
    wired = record {
      attached = record {
        holds_context = refl;
        holds_port = refl;
        holds_driver = refl;
        cb = callbacks;
        holds_cb = refl;
        calls = refl;
      };
      holds_user = refl;
    };
    tied = (refl, refl, refl);
    poll = spare_poll;
    private = spare_private;
    is_poll = record { holds_poll = refl; holds_private = refl; points_back = refl };
    is_polled = (refl, refl, refl);
    driver_is = (driver_info, refl);
    there = (λ e. omega (arith, e), λ e. omega (arith, e));
  };
  at_radio = refl;
  is_delivery = refl;
}

uv_run-SyncedOrDies_example :
    SyncedOrDies Transmits
      (6, 1)
      ((15, 2) ∷ [])
      (uv_run
        (call_event 9)
        (prepare_event 2 ∷ wire_events (6, 1) ((15, 2) ∷ []) port_events)
        waiting_world)
uv_run-SyncedOrDies_example =
    uv_run-SyncedOrDies Transmits (λ h b x e. turn_self h b x.transmitting)
      (λ h g b b' x ne e. turn_other h g b x.transmitting (λ eq. ne (sym eq)) ∙ e) (λ fd x h b e. e)
      (λ p x h b e. e) 9 waiting_world 2 first_slot (spare_slot ∷ []) (6, 1) ((15, 2) ∷ [])
      port_events (omega arith) both_wait refl (awaited, (spare_awaited, tt))
      ((λ e. omega (arith, e), tt), (tt, tt))
