-- ===== src/Tests/Port.antt =====
-- The port, the radio and the symlink, at concrete inputs.
use righack.Base.{◌≡◌, ◌≢◌, refl, Bool, true, false, [], ◌∷◌, Text, bytes, arith}
use righack.External.{read_bytes}
use righack.Machine.{World, stop, fatal}
use righack.Machine.Objects.{Ptr}
use righack.Main.{call_event, call_fc, stop_lifecycle}
use righack.Main.Wired.{IsWired}
use righack.Main.Ptt.{IsKeyed, Follows, vserial_poll_cb-Follows}
use righack.Main.Shutdown.{
  IsPolled, IsRunning, signal_closed, destroy_message, runloop_cleanup-running,
}
use righack.Module.{module_stop_all}
use righack.Runloop.Loop.{runloop_cleanup}
use righack.Tests.Env.{
  callbacks, Outside, quiet, set_active, world, port_blocks, driver, port, context, poll,
  test_context, instance_, outside_uv, outside_os, outside_toml, outside_rig,
}
use righack.Vserial.Packet.{vserial_poll_cb_run}
use righack.Vserial.Port.{vserial_manage_symlink}
use righack.Vserial.Port.Symlink.{
  LinksOrDies, vserial_manage_symlink-keeps, vserial_manage_symlink-links,
}

-- RTS is set at the slave, and a status packet of one byte waits.
abbrev pressed : Outside
pressed = record quiet { lines = 4; incoming = read_bytes 128 [] }

abbrev wired_world : World Outside
wired_world = world port_blocks pressed

abbrev wired : IsWired wired_world 4 context port driver test_context
wired = record {
  attached = record {
    holds_context = refl;
    holds_port = refl;
    holds_driver = refl;
    cb = callbacks;
    holds_cb = refl;
    calls = refl;
  };
  holds_user = refl;
}

abbrev Transmits : Outside → Ptr → Bool → Type 0
Transmits x h b = x.transmitting ≡ b

abbrev keyed : IsKeyed Transmits wired_world 4
keyed = record {
  context = context;
  port = port;
  driver = driver;
  user = test_context;
  wired = wired;
  synced = refl;
}

vserial_poll_cb-Follows_example :
    Follows Transmits 4 1 4 (vserial_poll_cb_run call_fc 5 2 wired_world)
vserial_poll_cb-Follows_example =
    vserial_poll_cb-Follows Transmits (λ h b old x was e. refl) (λ fd x h b e. e) wired_world 5 poll
      2 128 4 [] keyed refl refl refl refl refl refl

-- The port is polled, and the loop is there.
abbrev running_world : World Outside
running_world = record (world port_blocks (set_active 6 true quiet)) {
  thread_loop = 20;
  int_signal = 21;
  running_modules = 8 ∷ [];
}

abbrev polled : IsPolled running_world 1
polled = record {
  driver = driver;
  context = context;
  poll = poll;
  holds_driver = refl;
  is_vserial = refl;
  is_unstarted = refl;
  has_context = λ e. omega (arith, e);
  holds_context = refl;
  holds_poll = refl;
  is_active = refl;
}

abbrev running : IsRunning running_world 8
running = record {
  instance_ = instance_;
  context = test_context;
  holds_module = refl;
  is_test = refl;
  holds_context = refl;
  has_driver = λ e. omega (arith, e);
  polled = polled;
}

close_keeps_others :
    (h q : Ptr) (x : Outside) → h ≢ q → (set_active h false x).active q ≡ x.active q
close_keeps_others h q x ne = ground arith

runloop_cleanup-running_example :
    runloop_cleanup (call_event 9) (module_stop_all stop_lifecycle) [] [] running_world
    ≡ stop (fatal destroy_message) (signal_closed running_world)
runloop_cleanup-running_example =
    runloop_cleanup-running (λ h q f x ne. close_keeps_others h q x ne) (call_event 9) [] []
      running_world 8 [] (λ e. omega (arith, e)) refl running (λ e. omega (arith, e))

-- A directory is in the way.
abbrev blocked_world : World Outside
blocked_world = world port_blocks (record quiet { directory = true })

vserial_manage_symlink-keeps_example :
    (m : Text) × (vserial_manage_symlink (bytes "rig") (bytes "/dev/pts/5") blocked_world
      ≡ stop (fatal m) blocked_world)
vserial_manage_symlink-keeps_example =
    vserial_manage_symlink-keeps (bytes "rig") (bytes "/dev/pts/5") 16877 blocked_world refl refl

vserial_manage_symlink-links_example :
    LinksOrDies
      (bytes "rig")
      (bytes "/dev/pts/5")
      (vserial_manage_symlink (bytes "rig") (bytes "/dev/pts/5") wired_world)
vserial_manage_symlink-links_example =
    vserial_manage_symlink-links (λ source target x e. refl) (bytes "rig") (bytes "/dev/pts/5")
      wired_world
