-- ===== src/Interface.antt =====
-- src/interface.h: the earlier draft of the driver interfaces, of which no file of the program makes
-- use. An untyped pointer is an address.
use righack.Base.{Text}
use righack.Machine.Objects.{Ptr}

-- interface_stream.cb: events that have happened
pub record InterfaceStreamCb : Type 0 where
  pub opened : Ptr
  pub closed : Ptr
  pub faulted : Ptr
  pub received : Ptr
  pub drained : Ptr

-- interface_stream.op: operations to be done
pub record InterfaceStreamOp : Type 0 where
  pub terminate : Ptr
  pub get_mask : Ptr
  pub clear_mask : Ptr
  pub set_mask : Ptr

pub record InterfaceStream : Type 0 where
  pub cb : InterfaceStreamCb
  pub op : InterfaceStreamOp

-- struct interface, whose members point to the interfaces that a driver has
pub record DriverInterface : Type 0 where
  pub stream : Ptr
  pub message : Ptr
  pub rs232 : Ptr

-- struct driver, as the draft has it
pub record InterfaceDriver : Type 0 where
  pub name : Text
  pub private : Ptr
  pub interfaces : DriverInterface
