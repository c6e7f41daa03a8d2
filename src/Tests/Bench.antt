-- ===== src/Tests/Bench.antt =====
-- A world outside in which nothing fails, with the activity of libuv's handles.
use righack.Base.{
  ℕ, ◌%◌, arith, ◌≡◌, refl, ◌≢◌, inr, text_eq, Bool, true, false, none, some, [], ◌∷◌, Text, bytes,
  ◌==◌, if◌then◌else◌,
}
use righack.External.{lstat_mode, lstat_failed, Uv, Os, Toml, Rig, lstat_enoent, read_bytes}
use righack.Machine.Objects.{Ptr}
use righack.Main.Attach.{Starts}
use righack.Main.Boot.{Loads}
use righack.Main.Calls.{HandleLaws, LoopLaws}
use righack.Main.Section.{IsConfigured}
use righack.Main.Sections.{Setting, AreConfigured}
use righack.Main.Ready.{Runs}
use righack.Tests.Env.{value_of}
use righack.Vserial.Port.Create.{Succeeds}

-- Which handles are active, which are closing, and which radios transmit.
pub record Bench : Type 0 where
  pub active : Ptr → Bool
  pub closing : Ptr → Bool
  pub transmitting : Ptr → Bool

abbrev pub turn : Ptr → Bool → (Ptr → Bool) → Ptr → Bool
turn h b flags q = if q == h then b else flags q

abbrev pub switch_active : Ptr → Bool → Bench → Bench
switch_active h b x = record x { active = turn h b x.active }

abbrev pub close_handle : Ptr → Bench → Bench
close_handle h x = record x { active = turn h false x.active; closing = turn h true x.closing }

abbrev pub at_rest : Bench
at_rest = record { active = λ q. false; closing = λ q. false; transmitting = λ h. false }

instance abbrev pub bench_uv : Uv Bench
bench_uv = record {
  loop_init = λ h x. x;
  loop_close = λ h x. (false, x);
  stop_loop = λ h x. x;
  loop_alive = λ x. true;
  walk = λ x. 2 ∷ 5 ∷ [];
  is_active = λ x p. x.active p;
  is_closing = λ x p. x.closing p;
  close = λ h f x. close_handle h x;
  prepare_init = λ h x. x;
  prepare_start = λ h x. switch_active h true x;
  prepare_stop = λ h x. switch_active h false x;
  signal_init = λ h x. x;
  signal_start = λ h x. switch_active h true x;
  signal_stop = λ h x. switch_active h false x;
  timer_init = λ h x. x;
  timer_start = λ h i r x. switch_active h true x;
  timer_stop = λ h x. switch_active h false x;
  poll_init = λ h fd x. x;
  poll_start = λ h e x. switch_active h true x;
}

instance abbrev pub bench_toml : Toml Bench
bench_toml = record {
  parse_file = λ fh x. (1, x);
  key_in = λ x root i.
      if i == 0 then some (bytes "radio") else if i == 1 then some (bytes "spare") else none;
  table_in = λ x root section. 2;
  raw_in = λ x table key.
      if text_eq key (bytes "hamlib.serial.port") then some (bytes "/dev/ttyS0") else value_of key;
  rtos = λ raw. some raw;
  rtoi = λ raw. some 1;
}

instance abbrev pub bench_rig : Rig Bench
bench_rig = record {
  filpathlen = 512;
  set_debug = λ x. x;
  to_model = λ n. n % 4294967296;
  init = λ model x. (1, x);
  set_pathname = λ h path x. x;
  open_rig = λ h x. (false, x);
  set_ptt = λ h b x. (false, record x { transmitting = turn h b x.transmitting });
  close = λ h x. x;
  cleanup = λ h x. x;
}

instance abbrev pub bench_os : Os Bench
bench_os = record {
  fopen = λ path x. (1, x);
  fclose = λ fh x. (false, x);
  openpty = λ x. (some (3, 4, bytes "/dev/pts/5"), x);
  fcntl_getfl = λ x fd. some 0;
  fcntl_setfl = λ fd flags x. (false, x);
  ioctl_tiocpkt = λ fd x. (false, x);
  ioctl_tiocmget = λ x fd. some 4;
  tcgetattr = λ x fd. some 0;
  tcsetattr = λ fd lflag x. (false, x);
  read = λ fd x. (read_bytes 128 [], x);
  lstat = λ x path. lstat_enoent;
  readlink = λ x path n. none;
  unlink = λ path x. (false, x);
  symlink = λ source target x. (false, x);
}

abbrev slave_path : Text
slave_path = bytes "/dev/pts/5"

pub enoent_ne : lstat_enoent ≢ lstat_failed
enoent_ne e = cc e

pub no_mode : (mode : ℕ) → lstat_enoent ≢ lstat_mode mode
no_mode mode e = cc e

abbrev opens : Succeeds bench_os (bytes "rig")
opens = record {
  opens = λ x. (3, 4, slave_path, x, refl, refl);
  gets_flags = λ x fd. (0, refl);
  sets_flags = λ fd f x. refl;
  sets_packet = λ fd x. refl;
  gets_attr = λ x fd. (0, refl);
  sets_attr = λ fd f x. refl;
  looks = λ x e. enoent_ne e;
  is_link = λ x mode e. absurd (no_mode mode e);
  reads_link = λ x mode e. absurd (no_mode mode e);
  unlinks = λ x mode e. refl;
  is_gone = λ x e. refl;
  links = λ source x e. refl;
}

abbrev starts : Starts bench_rig 1
starts = record { inits = λ x e. omega (arith, e); opens_rig = λ h x. refl }

-- All calls of the start succeed there.
abbrev pub runs : Runs bench_os bench_rig (bytes "rig") 1
runs = record {
  works = record { working = record { port = opens; lines = λ x fd. (4, refl) }; starts = starts };
  keying = record { takes = λ h b x. refl };
}

abbrev pub configured : (section : Text) → IsConfigured bench_toml 1 section (bytes "rig") 1
configured section = record {
  loaded = λ e. omega (arith, e);
  has_module = record {
    table_there = λ x e. omega (arith, e);
    raw_there = λ x. (bytes "test", refl, refl);
  };
  has_port = record {
    table_there = λ x e. omega (arith, e);
    raw_there = λ x. (bytes "rig", refl, refl);
  };
  has_rigid = record {
    table_there = λ x e. omega (arith, e);
    raw_there = λ x. (bytes "1", refl, refl);
  };
  has_serial = record {
    table_there = λ x e. omega (arith, e);
    raw_maybe = λ x. inr (bytes "/dev/ttyS0", bytes "/dev/ttyS0", refl, refl);
  };
}

-- The two sections, the first of which names the radio's line.
abbrev pub radio_setting : Setting
radio_setting = record { section = bytes "radio"; name = bytes "rig"; rigid = 1 }

abbrev pub spare_setting : Setting
spare_setting = record { section = bytes "spare"; name = bytes "rig"; rigid = 1 }

abbrev pub both_configured : AreConfigured at_rest 1 0 (radio_setting ∷ spare_setting ∷ [])
both_configured = (
  refl,
  configured (bytes "radio"),
  (
    bytes "/dev/ttyS0",
    record {
      table_there = λ x e. omega (arith, e);
      raw_there = λ x. (bytes "/dev/ttyS0", refl, refl);
    },
  ),
  (refl, configured (bytes "spare"), tt, tt),
)

abbrev pub Transmits : Bench → Ptr → Bool → Type 0
Transmits x h b = x.transmitting h ≡ b

pub turn_other : (h q : Ptr) (b : Bool) (flags : Ptr → Bool) → h ≢ q → turn h b flags q ≡ flags q
turn_other h q b flags ne = ground (arith, ne)

pub turn_self : (h : Ptr) (b : Bool) (flags : Ptr → Bool) → turn h b flags h ≡ b
turn_self h b flags = ground arith

abbrev pub handle_laws : HandleLaws bench_uv bench_os bench_rig
handle_laws = record {
  read_law = λ fd x q. refl;
  key_law = λ h b x q. refl;
  init_law = λ n x q. refl;
  name_law = λ h path x q. refl;
  open_law = λ h x q. refl;
}

abbrev pub loop_laws : LoopLaws bench_uv
loop_laws = record {
  starts = λ h e x r. turn_self h true x.active;
  prepare_stops = λ p x q ne. turn_other p q false x.active ne;
  signal_stops = λ p x q ne. turn_other p q false x.active ne;
  loop_stops = λ l x q. refl;
  closes = λ h q f x ne. turn_other h q false x.active ne;
}

abbrev pub loads : Loads bench_os bench_toml (bytes "righack.conf") 1
loads = record {
  opens = λ x e. omega (arith, e);
  parses = λ fh x. refl;
  closes = λ fh x. refl;
  root_there = λ e. omega (arith, e);
}
