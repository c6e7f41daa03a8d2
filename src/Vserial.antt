-- ===== src/Vserial.antt =====
-- src/drivers/vserial.c: the virtual serial port over a pseudoterminal.
pub mod Built
pub mod Init
pub mod Tied
pub mod Packet
pub mod Port
use righack.Base.{ℕ, Bool, Option, none, some, Text, bytes, ◌==◌, not, if◌then◌else◌, set_bit}
use righack.Configfile.{configfile_rgets_section_key}
use righack.External.{Os, Toml, Uv}
use righack.Machine.{Prog, fatal, pure, halt, skip, ◌>>=◌, ◌>>◌, ask, fatal_if}
use righack.Machine.Memory.{alloc, load, store, free}
use righack.Machine.Objects.{
  no_stream_op, Ptr, null, vserial_poll_cb, vserial_deliver_fc_changed_cb, DriverInfo,
  vserial_lifecycle, VserialContext, struct_driver, struct_poll, struct_vserial_context, as_driver,
  as_poll, as_vserial, as_vserial_context,
}
use righack.Runloop.Later.{runloop_run_later}
use righack.Runloop.Poll.{
  pevent_read, pevent_prio, or_bit, runloop_poll_create, runloop_poll_destroy, runloop_poll_start,
}
use Port.{vserial_create, vserial_destroy}

-- vserial_driver_info
unfoldable pub vserial_driver_info : DriverInfo
vserial_driver_info = record {
  name = bytes "vserial";
  lifecycle = vserial_lifecycle;
  op = record { stream = no_stream_op };
}

-- PEVENT_READ | PEVENT_PRIO
abbrev pub poll_mask : ℕ
poll_mask = set_bit (set_bit 0 pevent_read) pevent_prio

module _ {X : Type 0} where
  -- It only logs, and is never called.
  unfoldable pub vserial_lifecycle_bootstrap : Prog X (Unit {0})
  vserial_lifecycle_bootstrap = skip

module _ {X : Type 0} ⦃os : Os X⦄ ⦃toml : Toml X⦄ ⦃uv : Uv X⦄ where
  unfoldable pub vserial_lifecycle_init : Ptr → Text → Prog X (Unit {0})
  unfolding configfile_rgets_section_key vserial_create runloop_poll_create runloop_poll_start
      runloop_run_later alloc load store
  vserial_lifecycle_init driver config_section = do
    context ← alloc (
        struct_vserial_context
          (record { driver = null; poll = null; vserial = null; modem_bits = 0 }))
    config_path ← configfile_rgets_section_key config_section (bytes "vserial.port")
    vserial ← vserial_create config_path
    v ← load as_vserial vserial
    p ← runloop_poll_create v.pty_master.fd vserial_poll_cb
    poll ← load as_poll p
    store p (struct_poll (record poll { context = context }))
    d ← load as_driver driver
    store driver (struct_driver (record d { private = context }))
    lines ← ask (λ x. os.ioctl_tiocmget x v.pty_slave.fd)
    elim lines [
      | none ↦ halt (fatal (bytes "Could not ioctl(TIOCMGET): %m"))
      | some modem_bits ↦ (do
        store context (
            struct_vserial_context
              (record { driver = driver; poll = p; vserial = vserial; modem_bits = modem_bits }))
        runloop_run_later vserial_deliver_fc_changed_cb context
        runloop_poll_start p poll_mask)
    ]

module _ {X : Type 0} ⦃uv : Uv X⦄ where
  unfoldable pub vserial_lifecycle_cleanup : Ptr → Prog X (Unit {0})
  unfolding runloop_poll_destroy vserial_destroy load store free
  vserial_lifecycle_cleanup p = do
    driver ← load as_driver p
    if driver.private == null then skip else (do
      context ← load as_vserial_context driver.private
      runloop_poll_destroy context.poll
      vserial_destroy context.vserial
      free driver.user
      store p (struct_driver (record driver { user = null })))
