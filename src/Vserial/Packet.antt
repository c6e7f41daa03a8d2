-- ===== src/Vserial/Packet.antt =====
-- src/drivers/vserial.c: status packets from the pseudoterminal, and the control lines.
pub mod Events
use righack.Base.{
  ℕ, Bool, true, false, Option, none, some, Text, bytes, ◌==◌, ◌&&◌, not, if◌then◌else◌, test_bit,
}
use righack.External.{Os, Read, read_failed, read_eof, read_bytes}
use righack.Machine.{Prog, fatal, halt, skip, ◌>>=◌, ◌>>◌, ask, call, fatal_if, when}
use righack.Machine.Memory.{load, store}
use righack.Machine.Objects.{
  Ptr, FcChangedCb, VserialContext, struct_vserial_context, as_driver, as_driver_cb, as_poll,
  as_vserial, as_vserial_context,
}
use righack.Runloop.Poll.{pevent_read, pevent_prio}

-- struct driver_rs232_fc
pub record ControlLines : Type 0 where
  pub rts : Bool
  pub cts : Bool
  pub dtr : Bool
  pub dsr : Bool

-- The bits of TIOCM_DTR, TIOCM_RTS, TIOCM_CTS and TIOCM_DSR.
unfoldable pub lines_of : ℕ → ControlLines
lines_of modem_bits = record {
  rts = test_bit modem_bits 2;
  cts = test_bit modem_bits 5;
  dtr = test_bit modem_bits 1;
  dsr = test_bit modem_bits 8;
}

-- TIOCPKT_MSET is `1 << 7`.
abbrev pub tiocpkt_mset : ℕ
tiocpkt_mset = 7

-- `call_fc` is the call through `driver->cb->rs232.fc_changed`.
module _ {X : Type 0} (call_fc : FcChangedCb → Ptr → ControlLines → Prog X (Unit {0})) where
  unfoldable pub vserial_deliver_fc_changed : Ptr → Prog X (Unit {0})
  unfolding load lines_of
  vserial_deliver_fc_changed p = do
    context ← load as_vserial_context p
    driver ← load as_driver context.driver
    cb ← load as_driver_cb driver.cb
    elim cb.rs232.fc_changed [
      | none ↦ skip
      | some f ↦ call_fc f context.driver (lines_of context.modem_bits)
    ]

  unfoldable pub vserial_deliver_fc_changed_cb_run : Bool → Ptr → Prog X (Unit {0})
  unfolding vserial_deliver_fc_changed
  vserial_deliver_fc_changed_cb_run should_run p = when should_run (vserial_deliver_fc_changed p)

  module _ ⦃os : Os X⦄ where
    unfoldable pub vserial_handle_mset : Ptr → Prog X (Unit {0})
    unfolding load store vserial_deliver_fc_changed
    vserial_handle_mset p = do
      context ← load as_vserial_context p
      vserial ← load as_vserial context.vserial
      lines ← ask (λ x. os.ioctl_tiocmget x vserial.pty_slave.fd)
      elim lines [
        | none ↦ halt (fatal (bytes "Could not ioctl(TIOCMGET): %m"))
        | some new_modem_bits ↦ if context.modem_bits == new_modem_bits then skip else (do
          store p (struct_vserial_context (record context { modem_bits = new_modem_bits }))
          vserial_deliver_fc_changed p)
      ]

    unfoldable pub vserial_handle_packet : ℕ → Ptr → Prog X (Unit {0})
    unfolding vserial_handle_mset
    vserial_handle_packet status p = when (test_bit status tiocpkt_mset) (vserial_handle_mset p)

    -- What follows `read`.
    unfoldable pub handle_bytes : Read → Ptr → Prog X (Unit {0})
    unfolding vserial_handle_packet
    handle_bytes read_failed p = halt (fatal (bytes "read() failed: %m"))
    handle_bytes read_eof p = halt (fatal (bytes "got EOF from master PTY"))
    handle_bytes (read_bytes b rest) p =
        if b == 0
        then halt (fatal (bytes "read data from the slave PTY"))
        else vserial_handle_packet b p

    unfoldable pub vserial_handle_read : Ptr → Prog X (Unit {0})
    unfolding load handle_bytes
    vserial_handle_read p = do
      context ← load as_vserial_context p
      vserial ← load as_vserial context.vserial
      got ← call (os.read vserial.pty_master.fd)
      handle_bytes got p

    unfoldable pub vserial_poll_cb_run : Ptr → ℕ → Prog X (Unit {0})
    unfolding load vserial_handle_read
    vserial_poll_cb_run p events = do
      fatal_if (test_bit events pevent_prio && not (test_bit events pevent_read))
          (bytes "Got a PRIO event with out READ")
      when (test_bit events pevent_read)
          (do poll ← load as_poll p; vserial_handle_read poll.context)
