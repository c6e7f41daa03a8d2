-- ===== src/External.antt =====
-- What the program calls and does not implement, as records of operations over the state `X` of all
-- that lies outside: libuv, tomlc99, hamlib, and the system calls. Only the calls that the source
-- makes have a field, and nothing is assumed of them here; a theorem that needs a documented law
-- states it as a hypothesis. An error code that the source only tests is a `Bool`, true for failure.
use righack.Base.{◌≡◌, ◌≢◌, ℕ, Bool, Option, List, Text}
use righack.Machine.Objects.{Ptr}

-- The callback that `uv_close` is given.
pub data CloseCb : Type 0 where
  no_cb cleanup_handle_cb runloop_timer_close_cb runloop_poll_close_cb : CloseCb

-- A mask of libuv's poll events, flag by flag.
pub record UvEvents : Type 0 where
  pub readable : Bool
  pub writable : Bool
  pub disconnect : Bool
  pub prioritized : Bool

-- libuv; a handle is named by the address of the block that holds it
pub record Uv (X : Type 0) : Type 0 where
  pub loop_init : Ptr → X → X
  pub loop_close : Ptr → X → Bool × X
  pub stop_loop : Ptr → X → X
  pub loop_alive : X → Bool
  pub walk : X → List Ptr
  pub is_active : X → Ptr → Bool
  pub is_closing : X → Ptr → Bool
  pub close : Ptr → CloseCb → X → X
  pub prepare_init : Ptr → X → X
  pub prepare_start : Ptr → X → X
  pub prepare_stop : Ptr → X → X
  pub signal_init : Ptr → X → X
  pub signal_start : Ptr → X → X
  pub signal_stop : Ptr → X → X
  pub timer_init : Ptr → X → X
  pub timer_start : Ptr → ℕ → ℕ → X → X
  pub timer_stop : Ptr → X → X
  pub poll_init : Ptr → ℕ → X → X
  pub poll_start : Ptr → UvEvents → X → X

-- tomlc99; `rtos` and `rtoi` give nothing where the library returns an error; an `int64_t` is the
-- natural number of its 64 bits
pub record Toml (X : Type 0) : Type 0 where
  pub parse_file : Ptr → X → Ptr × X
  pub key_in : X → Ptr → ℕ → Option Text
  pub table_in : X → Ptr → Text → Ptr
  pub raw_in : X → Ptr → Text → Option Text
  pub rtos : Text → Option Text
  pub rtoi : Text → Option ℕ

-- hamlib; `filpathlen` is its FILPATHLEN, and `to_model` the conversion of an `int64_t` to its type
-- `rig_model_t`
pub record Rig (X : Type 0) : Type 0 where
  pub filpathlen : ℕ
  pub set_debug : X → X
  pub to_model : ℕ → ℕ
  pub init : ℕ → X → Ptr × X
  pub set_pathname : Ptr → Text → X → X
  pub open_rig : Ptr → X → Bool × X
  pub set_ptt : Ptr → Bool → X → Bool × X
  pub close : Ptr → X → X
  pub cleanup : Ptr → X → X

pub data Lstat : Type 0 where
  lstat_enoent lstat_failed : Lstat
  lstat_mode : ℕ → Lstat

pub data Read : Type 0 where
  read_failed read_eof : Read
  read_bytes : ℕ → Text → Read

-- the C library and the kernel; `readlink x path n` is the target, cut to `n` bytes
pub record Os (X : Type 0) : Type 0 where
  pub fopen : Text → X → Ptr × X
  pub fclose : Ptr → X → Bool × X
  pub openpty : X → Option (ℕ × ℕ × Text) × X
  pub fcntl_getfl : X → ℕ → Option ℕ
  pub fcntl_setfl : ℕ → ℕ → X → Bool × X
  pub ioctl_tiocpkt : ℕ → X → Bool × X
  pub ioctl_tiocmget : X → ℕ → Option ℕ
  pub tcgetattr : X → ℕ → Option ℕ
  pub tcsetattr : ℕ → ℕ → X → Bool × X
  pub read : ℕ → X → Read × X
  pub lstat : X → Text → Lstat
  pub readlink : X → Text → ℕ → Option Text
  pub unlink : Text → X → Bool × X
  pub symlink : Text → Text → X → Bool × X

-- Documented behaviour that a theorem may ask for: `uv_close` deactivates no other handle.
abbrev pub CloseKeepsOthers : {X : Type 0} → Uv X → Type 0
CloseKeepsOthers {X} uv =
    (h q : Ptr) (f : CloseCb) (x : X) → h ≢ q → uv.is_active (uv.close h f x) q ≡ uv.is_active x q
