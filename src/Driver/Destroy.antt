-- ===== src/Driver/Destroy.antt =====
-- src/driver.c: `driver_destroy` of an idle driver.
use righack.Base.{◌≡◌, refl, true, false, none, some, arith, ◌==◌}
use righack.Driver.{is_idle, driver_destroy}
use righack.Machine.{World, Prog, ok}
use righack.Machine.Access.{IsHeap, load_held, free_held, held_ne_null}
use righack.Machine.Memory.{write}
use righack.Machine.Objects.{
  Ptr, null, Driver, DriverCb, DriverLifecycle, struct_driver, struct_driver_cb, as_driver,
}

module _ {X : Type 0} (cleanup : DriverLifecycle → Ptr → Prog X (Unit {0})) (w : World X) (p : Ptr)
    (d : Driver) (held : w.cell p ≡ some (struct_driver d)) where
  module _ (idle : is_idle d.status ≡ true) (w1 : World X) (d1 : Driver)
      (cleaned : cleanup d.info.lifecycle p w ≡ ok tt w1)
      (held1 : w1.cell p ≡ some (struct_driver d1)) (cb : DriverCb)
      (held_cb : w1.cell d1.cb ≡ some (struct_driver_cb cb)) (formed : IsHeap w1.cell w1.next) where
    abbrev pub freed_cb : World X
    freed_cb = record w1 { cell = write w1.cell d1.cb none }

    cb_live : (d1.cb == null) ≡ false
    cb_live = ground (arith, held_ne_null w1 d1.cb _ held_cb formed)

    -- An idle driver whose cleanup sets `user` to NULL is destroyed: its callbacks and the driver
    -- itself are freed.
    pub driver_destroy-frees :
        d1.user ≡ null
        → driver_destroy cleanup p false w
          ≡ ok tt (record w1 { cell = write (write w1.cell d1.cb none) p none })
    unfolding driver_destroy
    driver_destroy-frees user =
        let t : (d1.user == null) ≡ true = ground arith in
        rw (
          load_held w p _ held as_driver d refl,
          idle,
          cleaned,
          load_held w1 p _ held1 as_driver d1 refl,
          cb_live,
          free_held w1 d1.cb _ held_cb (held_ne_null w1 d1.cb _ held_cb formed),
          t,
          free_held freed_cb p (struct_driver d1) (ground (arith, held1, held_cb))
              (held_ne_null w1 p _ held1 formed),
        )
