-- ===== src/Vserial/Packet/Events.antt =====
-- src/drivers/vserial.c: what a poll event on the master side leads to, on every branch.
use righack.Base.{ℕ, ◌≡◌, refl, ◌≢◌, false, Option, none, some, bytes, arith, ==_refl, ◌==◌}
use righack.External.{Os}
use righack.Machine.{World, Prog, ok, stop, fatal}
use righack.Machine.Access.{load_held, store_held}
use righack.Machine.Memory.{write}
use righack.Machine.Objects.{
  DriverCb, Ptr, FcChangedCb, Driver, Vserial, VserialContext, struct_vserial_context,
  struct_vserial, struct_driver, struct_driver_cb, as_driver, as_driver_cb, as_vserial,
  as_vserial_context,
}
use righack.Vserial.Packet.{ControlLines, lines_of, vserial_deliver_fc_changed, vserial_handle_mset}

-- The context `c` at `p`, its port `v`, its driver `d`, and the driver's callbacks, with
-- `fc_changed` set to `f`.
pub record IsAttached {X : Type 0} (w : World X) (p : Ptr) (f : FcChangedCb) (c : VserialContext)
    (v : Vserial) (d : Driver) : Type 0 where
  pub holds_context : w.cell p ≡ some (struct_vserial_context c)
  pub holds_port : w.cell c.vserial ≡ some (struct_vserial v)
  pub holds_driver : w.cell c.driver ≡ some (struct_driver d)
  pub cb : DriverCb
  pub holds_cb : w.cell d.cb ≡ some (struct_driver_cb cb)
  pub calls : cb.rs232.fc_changed ≡ some f

-- The state once new modem bits are kept.
abbrev pub with_bits : {X : Type 0} → World X → Ptr → VserialContext → ℕ → World X
with_bits w p c bits = record w {
  cell = write w.cell p (some (struct_vserial_context (record c { modem_bits = bits })));
}

module _ {X : Type 0} ⦃os : Os X⦄
    (call_fc : FcChangedCb → Ptr → ControlLines → Prog X (Unit {0})) where
  -- The structures stay attached, with the new bits.
  pub IsAttached-with_bits :
      (w : World X) (p : Ptr) (f : FcChangedCb) (bits : ℕ) {c : VserialContext} {v : Vserial}
      {d : Driver}
      → IsAttached w p f c v d
      → IsAttached (with_bits w p c bits) p f (record c { modem_bits = bits }) v d
  IsAttached-with_bits w p f bits h = record {
    holds_context = ground arith;
    holds_port = ground (arith, h.holds_context, h.holds_port);
    holds_driver = ground (arith, h.holds_context, h.holds_driver);
    cb = h.cb;
    holds_cb = ground (arith, h.holds_context, h.holds_cb);
    calls = h.calls;
  }

  -- Delivering calls `fc_changed` with the four lines of the bits that are kept.
  pub deliver_attached :
      (w : World X) (p : Ptr) (f : FcChangedCb) {c : VserialContext} {v : Vserial} {d : Driver}
      → IsAttached w p f c v d
      → vserial_deliver_fc_changed call_fc p w ≡ call_fc f c.driver (lines_of c.modem_bits) w
  unfolding vserial_deliver_fc_changed
  deliver_attached w p f {c} {d} h = rw (
    load_held w p _ h.holds_context as_vserial_context c refl,
    load_held w c.driver _ h.holds_driver as_driver d refl,
    load_held w d.cb _ h.holds_cb as_driver_cb h.cb refl,
    h.calls,
  )

  module _ (w : World X) (p : Ptr) (f : FcChangedCb) {c : VserialContext} {v : Vserial} {d : Driver}
      (h : IsAttached w p f c v d) where
    -- The answer of the kernel about the slave's lines.
    abbrev asked : Option ℕ
    asked = os.ioctl_tiocmget w.ext v.pty_slave.fd

    pub mset_failed :
        asked ≡ none
        → vserial_handle_mset call_fc p w ≡ stop (fatal (bytes "Could not ioctl(TIOCMGET): %m")) w
    unfolding vserial_handle_mset
    mset_failed e = rw (
      load_held w p _ h.holds_context as_vserial_context c refl,
      load_held w c.vserial _ h.holds_port as_vserial v refl,
      e,
    )

    pub mset_same : asked ≡ some c.modem_bits → vserial_handle_mset call_fc p w ≡ ok tt w
    unfolding vserial_handle_mset
    mset_same e = rw (
      load_held w p _ h.holds_context as_vserial_context c refl,
      load_held w c.vserial _ h.holds_port as_vserial v refl,
      e,
      ==_refl c.modem_bits,
    )

    pub mset_changed :
        (bits : ℕ)
        → asked ≡ some bits
        → c.modem_bits ≢ bits
        → vserial_handle_mset call_fc p w
          ≡ call_fc f c.driver (lines_of bits) (with_bits w p c bits)
    unfolding vserial_handle_mset
    mset_changed bits e ne =
        let t : (c.modem_bits == bits) ≡ false = ground arith in
        rw
          (
            load_held w p _ h.holds_context as_vserial_context c refl,
            load_held w c.vserial _ h.holds_port as_vserial v refl,
            e,
            t,
            store_held w p _ h.holds_context
                (struct_vserial_context (record c { modem_bits = bits })),
          )
          (deliver_attached (with_bits w p c bits) p f (IsAttached-with_bits w p f bits h))
