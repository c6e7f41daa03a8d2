-- ===== src/Tests/Env.antt =====
-- A concrete state of all that lies outside of the program, and memory that is laid out block by
-- block.
use righack.Base.{
  ◌%◌, ℕ, ◌+◌, refl, arith, Bool, true, false, Option, none, some, List, [], ◌∷◌, Text, bytes,
  text_eq, ltb, ◌==◌, if◌then◌else◌,
}
use righack.External.{Uv, Os, Toml, Rig, lstat_enoent, lstat_mode, Read, read_failed}
use righack.Machine.{World}
use righack.Machine.Access.{IsHeap, alloc-IsHeap}
use righack.Machine.Memory.{write}
use righack.Machine.Objects.{
  no_cb_set, no_stream_op, DriverCb, Ptr, Object, Driver, Vserial, VserialContext, Poll,
  PollPrivate, Module, TestContext, unstarted, vserial_lifecycle, test_lifecycle,
  update_flow_control, vserial_poll_cb, struct_driver, struct_driver_cb, struct_vserial,
  struct_vserial_context, struct_poll, struct_poll_private, struct_test_context, struct_module,
  struct_text,
}

-- Which handles are active, whether the radio transmits, the modem lines of the slave, what is
-- there to be read, the symlink or the directory at the port's path, and the number of sections of the
-- configuration.
pub record Outside : Type 0 where
  pub active : Ptr → Bool
  pub transmitting : Bool
  pub lines : ℕ
  pub incoming : Read
  pub link : Option Text
  pub directory : Bool
  pub sections : ℕ

abbrev pub set_active : Ptr → Bool → Outside → Outside
set_active h b x = record x { active = λ p. if p == h then b else x.active p }

instance abbrev pub outside_uv : Uv Outside
outside_uv = record {
  loop_init = λ h x. x;
  loop_close = λ h x. (false, x);
  stop_loop = λ h x. x;
  loop_alive = λ x. false;
  walk = λ x. [];
  is_active = λ x p. x.active p;
  is_closing = λ x p. false;
  close = λ h f x. set_active h false x;
  prepare_init = λ h x. x;
  prepare_start = λ h x. set_active h true x;
  prepare_stop = λ h x. set_active h false x;
  signal_init = λ h x. x;
  signal_start = λ h x. set_active h true x;
  signal_stop = λ h x. set_active h false x;
  timer_init = λ h x. x;
  timer_start = λ h i r x. set_active h true x;
  timer_stop = λ h x. set_active h false x;
  poll_init = λ h fd x. x;
  poll_start = λ h e x. set_active h true x;
}

-- Each section has the keys `module.name`, `vserial.port` and `hamlib.rigid`.
abbrev pub value_of : Text → Option Text
value_of key =
    if text_eq key (bytes "module.name")
    then some (bytes "test")
    else if text_eq key (bytes "vserial.port")
    then some (bytes "rig")
    else if text_eq key (bytes "hamlib.rigid")
    then some (bytes "1")
    else none

instance abbrev pub outside_toml : Toml Outside
outside_toml = record {
  parse_file = λ fh x. (1, x);
  key_in = λ x root i. if ltb i x.sections then some (bytes "radio") else none;
  table_in = λ x root section. 2;
  raw_in = λ x table key. value_of key;
  rtos = λ raw. some raw;
  rtoi = λ raw. some 1;
}

instance abbrev pub outside_rig : Rig Outside
outside_rig = record {
  filpathlen = 512;
  set_debug = λ x. x;
  to_model = λ n. n % 4294967296;
  init = λ model x. (1, x);
  set_pathname = λ h path x. x;
  open_rig = λ h x. (false, x);
  set_ptt = λ h b x. (false, record x { transmitting = b });
  close = λ h x. x;
  cleanup = λ h x. x;
}

instance abbrev pub outside_os : Os Outside
outside_os = record {
  fopen = λ path x. (1, x);
  fclose = λ fh x. (false, x);
  openpty = λ x. (some (3, 4, bytes "/dev/pts/5"), x);
  fcntl_getfl = λ x fd. some 0;
  fcntl_setfl = λ fd flags x. (false, x);
  ioctl_tiocpkt = λ fd x. (false, x);
  ioctl_tiocmget = λ x fd. some x.lines;
  tcgetattr = λ x fd. some 0;
  tcsetattr = λ fd lflag x. (false, x);
  read = λ fd x. (x.incoming, x);
  lstat = λ x path.
      if x.directory
      then lstat_mode 16877
      else elim x.link [ none ↦ lstat_enoent | some _ ↦ lstat_mode 41471 ];
  readlink = λ x path n. x.link;
  unlink = λ path x. (false, record x { link = none });
  symlink = λ source target x. (false, record x { link = some source });
}

-- Nothing is active, nothing waits to be read, and there is one section.
abbrev pub quiet : Outside
quiet = record {
  active = λ p. false;
  transmitting = false;
  lines = 0;
  incoming = read_failed;
  link = none;
  directory = false;
  sections = 1;
}

-- Memory with the blocks of a list, from address 1 on.
abbrev pub blocks_from : (Ptr → Option Object) → ℕ → List Object → Ptr → Option Object
blocks_from h n [] = h
blocks_from h n (o ∷ os) = blocks_from (write h n (some o)) (n + 1) os

abbrev pub end_of : ℕ → List Object → ℕ
end_of n [] = n
end_of n (o ∷ os) = end_of (n + 1) os

blocks_from-IsHeap :
    (h : Ptr → Option Object) (n : ℕ) (os : List Object)
    → IsHeap h n
    → IsHeap (blocks_from h n os) (end_of n os)
blocks_from-IsHeap h n [] hp = hp
blocks_from-IsHeap h n (o ∷ os) hp =
    blocks_from-IsHeap (write h n (some o)) (n + 1) os (alloc-IsHeap h n o hp)

abbrev pub world : {X : Type 0} → List Object → X → World X
world os x = record {
  cell = blocks_from (λ p. none) 1 os;
  next = end_of 1 os;
  thread_loop = 0;
  in_runloop_context = false;
  run_once_queue = 0;
  run_once_last = 0;
  run_once_prepare = 0;
  run_once_prepare_started = false;
  int_signal = 0;
  toml_root = 0;
  config_buf = 0;
  loaded_drivers = [];
  loaded_modules = [];
  running_modules = [];
  ext = x;
}

pub world-IsHeap :
    {X : Type 0} (os : List Object) (x : X) → IsHeap (world os x).cell (world os x).next
world-IsHeap os x =
    blocks_from-IsHeap (λ p. none) 1 os
      (record { null_empty = refl; next_pos = omega arith; rest_empty = λ p le. refl })

-- A port with its driver, its poll handle, and the test module that uses it.
abbrev pub driver : Driver
driver = record {
  user = 7;
  private = 4;
  info = record {
    name = bytes "vserial";
    lifecycle = vserial_lifecycle;
    op = record { stream = no_stream_op };
  };
  cb = 2;
  status = unstarted;
}

abbrev pub port : Vserial
port = record {
  name = 9;
  pty_master = record { path = 0; fd = 3; terminfo = 0 };
  pty_slave = record { path = 9; fd = 4; terminfo = 0 };
}

abbrev pub context : VserialContext
context = record { driver = 1; poll = 5; vserial = 3; modem_bits = 0 }

abbrev pub poll : Poll
poll = record { cb = vserial_poll_cb; context = 4; private = 6 }

abbrev pub poll_private : PollPrivate
poll_private = record { uv_data = 5; fd = 3 }

abbrev pub test_context : TestContext
test_context = record { vserial = 1; rig = 1 }

abbrev pub instance_ : Module
instance_ = record {
  label = 9;
  private = 7;
  info = record { name = bytes "test"; lifecycle = test_lifecycle };
}

abbrev pub callbacks : DriverCb
callbacks = record no_cb_set { rs232 = record { fc_changed = some update_flow_control } }

abbrev pub port_blocks : List Object
port_blocks =
    struct_driver driver
    ∷ struct_driver_cb callbacks
    ∷ struct_vserial port
    ∷ struct_vserial_context context
    ∷ struct_poll poll
    ∷ struct_poll_private poll_private
    ∷ struct_test_context test_context
    ∷ struct_module instance_
    ∷ struct_text (bytes "radio")
    ∷ []
