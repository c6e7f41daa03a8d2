-- ===== src/Machine/Objects.antt =====
-- The structures of the program: what a block of memory holds. A pointer is a number, and NULL is 0.
-- A pointer to a function is a constructor of a type of its own; `other_…` is any other function.
use righack.Base.{ℕ, Bool, Option, none, some, List, Text}

abbrev pub Ptr : Type 0
Ptr = ℕ

abbrev pub null : Ptr
null = 0

-- runloop_stateful_cb
pub data JobCb : Type 0 where
  start_module_handler vserial_deliver_fc_changed_cb : JobCb
  other_job : ℕ → JobCb

-- runloop_poll_cb
pub data PollCb : Type 0 where
  vserial_poll_cb : PollCb
  other_poll : ℕ → PollCb

-- driver_rs232_fc_changed_cb
pub data FcChangedCb : Type 0 where
  update_flow_control : FcChangedCb
  other_fc : ℕ → FcChangedCb

pub data DriverStatus : Type 0 where
  unstarted starting started stopping stopped : DriverStatus

-- The lifecycle tables that `DRIVER_LIFECYCLE` and `MODULE_LIFECYCLE` build.
pub data DriverLifecycle : Type 0 where
  vserial_lifecycle : DriverLifecycle
  other_driver : ℕ → DriverLifecycle

pub data ModuleLifecycle : Type 0 where
  test_lifecycle : ModuleLifecycle
  other_module : ℕ → ModuleLifecycle

-- struct driver_stream_int_cb and struct driver_stream_int_op; the addresses of functions, of which
-- the program has none
pub record DriverStreamIntCb : Type 0 where
  pub opened : Ptr
  pub closed : Ptr
  pub faulted : Ptr
  pub received : Ptr
  pub drained : Ptr

pub record DriverStreamIntOp : Type 0 where
  pub terminate : Ptr
  pub get_mask : Ptr
  pub clear_mask : Ptr
  pub set_mask : Ptr

abbrev pub no_stream_cb : DriverStreamIntCb
no_stream_cb = record {
  opened = null;
  closed = null;
  faulted = null;
  received = null;
  drained = null;
}

abbrev pub no_stream_op : DriverStreamIntOp
no_stream_op = record { terminate = null; get_mask = null; clear_mask = null; set_mask = null }

-- struct driver_rs232_int_cb
pub record DriverRs232IntCb : Type 0 where
  pub fc_changed : Option FcChangedCb

-- struct driver_interface_op
pub record DriverInterfaceOp : Type 0 where
  pub stream : DriverStreamIntOp

pub record DriverInfo : Type 0 where
  pub name : Text
  pub lifecycle : DriverLifecycle
  pub op : DriverInterfaceOp

-- enum module_status
pub data ModuleStatus : Type 0 where
  module_unknown module_ok module_config_error module_failed : ModuleStatus

pub record ModuleInfo : Type 0 where
  pub name : Text
  pub lifecycle : ModuleLifecycle

-- struct run_once_private
pub record RunOnce : Type 0 where
  pub should_run : Bool
  pub cb : JobCb
  pub context : Ptr

-- struct run_once_list
pub record QueueEntry : Type 0 where
  pub run : Ptr
  pub next : Ptr

pub record Timer : Type 0 where
  pub cb : ℕ
  pub context : Ptr
  pub private : Ptr

-- struct runloop_timer_private; `uv_data` is `uv_timer.data`
pub record TimerPrivate : Type 0 where
  pub uv_data : Ptr
  pub initial : ℕ
  pub repeat : ℕ

pub record Poll : Type 0 where
  pub cb : PollCb
  pub context : Ptr
  pub private : Ptr

-- struct runloop_poll_private; `uv_data` is `uv_poll.data`
pub record PollPrivate : Type 0 where
  pub uv_data : Ptr
  pub fd : ℕ

-- struct driver_interface_cb
pub record DriverCb : Type 0 where
  pub stream : DriverStreamIntCb
  pub rs232 : DriverRs232IntCb

abbrev pub no_cb_set : DriverCb
no_cb_set = record { stream = no_stream_cb; rs232 = record { fc_changed = none } }

pub record Driver : Type 0 where
  pub user : Ptr
  pub private : Ptr
  pub info : DriverInfo
  pub cb : Ptr
  pub status : DriverStatus

pub record VserialPty : Type 0 where
  pub path : Ptr
  pub fd : ℕ
  pub terminfo : ℕ

pub record Vserial : Type 0 where
  pub name : Ptr
  pub pty_master : VserialPty
  pub pty_slave : VserialPty

pub record VserialContext : Type 0 where
  pub driver : Ptr
  pub poll : Ptr
  pub vserial : Ptr
  pub modem_bits : ℕ

pub record Module : Type 0 where
  pub label : Ptr
  pub private : Ptr
  pub info : ModuleInfo

-- struct context of modules/test.c; `rig` is hamlib's handle
pub record TestContext : Type 0 where
  pub vserial : Ptr
  pub rig : Ptr

-- struct driver_list, struct loaded_module_list and struct running_module_list, as the values of the
-- nodes from the first one on; a node's block holds its value, and nothing frees it
abbrev pub DriverList : Type 0
DriverList = List DriverInfo

abbrev pub LoadedModuleList : Type 0
LoadedModuleList = List ModuleInfo

abbrev pub RunningModuleList : Type 0
RunningModuleList = List Ptr

pub data Object : Type 0 where
  struct_run_once : RunOnce → Object
  struct_queue_entry : QueueEntry → Object
  struct_timer : Timer → Object
  struct_timer_private : TimerPrivate → Object
  struct_poll : Poll → Object
  struct_poll_private : PollPrivate → Object
  struct_driver_cb : DriverCb → Object
  struct_driver : Driver → Object
  struct_vserial : Vserial → Object
  struct_vserial_context : VserialContext → Object
  struct_module : Module → Object
  struct_test_context : TestContext → Object
  struct_text : Text → Object
  struct_driver_list : DriverInfo → Object
  struct_loaded_module_list : ModuleInfo → Object
  struct_running_module_list : Ptr → Object
  uv_loop uv_prepare uv_signal : Object

-- The object of a block at the type by which it is read.
abbrev pub as_run_once : Object → Option RunOnce
as_run_once (struct_run_once o) = some o
as_run_once _ = none

abbrev pub as_queue_entry : Object → Option QueueEntry
as_queue_entry (struct_queue_entry o) = some o
as_queue_entry _ = none

abbrev pub as_timer : Object → Option Timer
as_timer (struct_timer o) = some o
as_timer _ = none

abbrev pub as_timer_private : Object → Option TimerPrivate
as_timer_private (struct_timer_private o) = some o
as_timer_private _ = none

abbrev pub as_poll : Object → Option Poll
as_poll (struct_poll o) = some o
as_poll _ = none

abbrev pub as_poll_private : Object → Option PollPrivate
as_poll_private (struct_poll_private o) = some o
as_poll_private _ = none

abbrev pub as_driver_cb : Object → Option DriverCb
as_driver_cb (struct_driver_cb o) = some o
as_driver_cb _ = none

abbrev pub as_driver : Object → Option Driver
as_driver (struct_driver o) = some o
as_driver _ = none

abbrev pub as_vserial : Object → Option Vserial
as_vserial (struct_vserial o) = some o
as_vserial _ = none

abbrev pub as_vserial_context : Object → Option VserialContext
as_vserial_context (struct_vserial_context o) = some o
as_vserial_context _ = none

abbrev pub as_module : Object → Option Module
as_module (struct_module o) = some o
as_module _ = none

abbrev pub as_test_context : Object → Option TestContext
as_test_context (struct_test_context o) = some o
as_test_context _ = none

abbrev pub as_text : Object → Option Text
as_text (struct_text o) = some o
as_text _ = none
