-- ===== src/Main/Opening.antt =====
-- src/driver.c with src/drivers/vserial.c: creating an instance of the virtual serial port.
use righack.Base.{inr, inl, ◌⊎◌, ℕ, suc, ◌+◌, ◌≡◌, refl, ◌≢◌, some, List, ◌∷◌, Text, bytes, arith}
use righack.Configfile.Keys.{HasText, HasKey}
use righack.Driver.{driver_create}
use righack.Driver.Registry.{driver_get_info-first}
use righack.External.{Uv, Os, Toml, Rig}
use righack.Machine.{World, ok}
use righack.Machine.Access.{IsHeap, alloc-IsHeap, write-IsHeap, store_held, held_lt_next}
use righack.Machine.Extends.{Extends, any_kind, Extends-weaken}
use righack.Machine.Memory.{write, alloc}
use righack.Machine.Objects.{
  Ptr, null, Driver, DriverInfo, Vserial, VserialContext, struct_driver, struct_driver_cb,
  no_cb_set, unstarted,
}
use righack.Main.{driver_init}
use righack.Runloop.Later.Chain.{Slots, Waiting, Waiting-Extends}
use righack.Vserial.{vserial_driver_info}
use righack.Vserial.Built.{HasText-Extends}
use righack.Vserial.Init.{IsWorking, vserial_lifecycle_init-IsOpen}
use righack.Vserial.Tied.{IsOpen}
use righack.Machine.Ends.{Dies}

-- The new driver at `p`, whose callbacks are in the block behind it.
abbrev pub new_driver : Ptr → Driver
new_driver p = record {
  user = null;
  private = null;
  info = vserial_driver_info;
  cb = p + 1;
  status = unstarted;
}

-- The state with the two new blocks, and that in which the driver's `init` is called.
abbrev pub with_blocks : {X : Type 0} → World X → World X
with_blocks w = record w {
  cell =
      write (write w.cell w.next (some (struct_driver (record (new_driver w.next) { cb = null }))))
        (w.next + 1) (some (struct_driver_cb no_cb_set));
  next = w.next + 1 + 1;
}

abbrev pub with_driver : {X : Type 0} → World X → World X
with_driver w = record (with_blocks w) {
  cell = write (with_blocks w).cell w.next (some (struct_driver (new_driver w.next)));
}

module _ {X : Type 0} where
  with_blocks_held :
      (w : World X)
      → (with_blocks w).cell w.next
        ≡ some (struct_driver (record (new_driver w.next) { cb = null }))
  with_blocks_held w = ground arith

  pub with_driver_held :
      (w : World X) → (with_driver w).cell w.next ≡ some (struct_driver (new_driver w.next))
  with_driver_held w = ground arith

  pub with_driver-Extends :
      (w : World X) → IsHeap w.cell w.next → Extends any_kind w (with_driver w)
  with_driver-Extends w hp = record {
    formed =
        write-IsHeap _ (w.next + 1 + 1) w.next _
          {o = struct_driver (record (new_driver w.next) { cb = null })}
          (alloc-IsHeap _ (w.next + 1) (struct_driver_cb no_cb_set) (
            alloc-IsHeap w.cell w.next (struct_driver (record (new_driver w.next) { cb = null }))
              hp))
          (ground arith);
    kept = λ q o held e. ground (arith, held_lt_next w q o held hp);
    same_root = refl;
    same_drivers = refl;
    same_modules = refl;
    same_loop = refl;
    same_signal = refl;
    same_running = refl;
  }

module _ {X : Type 0} ⦃uv : Uv X⦄ ⦃os : Os X⦄ ⦃toml : Toml X⦄ ⦃rig : Rig X⦄ (fuel : ℕ)
    (section name : Text) where
  -- With the port's driver registered last, `driver_create` returns a new instance of it, open as
  -- its `init` leaves it, or `init` ends the process.
  pub driver_create-IsOpen :
      (w : World X) (ss : Slots) (ds : List DriverInfo)
      → Waiting w ss
      → HasText w
      → w.toml_root ≢ null
      → HasKey toml w.toml_root section (bytes "vserial.port") name
      → w.loaded_drivers ≡ vserial_driver_info ∷ ds
      → ((w' : World X) × (driver_create driver_init (suc fuel) (bytes "vserial") section w
            ≡ ok w.next w')
          × (c : VserialContext) × (v : Vserial) × IsOpen
              (with_driver w)
              w'
              w.next
              (new_driver w.next)
              ss
              c
              v)
        ⊎ Dies
            (IsWorking os name)
            (driver_create driver_init (suc fuel) (bytes "vserial") section w)
  unfolding driver_create driver_init alloc vserial_driver_info
  driver_create-IsOpen w ss ds wt has root key registered =
      let ext = with_driver-Extends w wt.formed in
      let found = driver_get_info-first fuel vserial_driver_info ds w registered in
      let stored =
        store_held (with_blocks w) w.next (struct_driver (record (new_driver w.next) { cb = null }))
          (with_blocks_held w) (struct_driver (new_driver w.next)) in
      elim (vserial_lifecycle_init-IsOpen section name (with_driver w) w.next (new_driver w.next) ss
        (Waiting-Extends wt (Extends-weaken (λ o e. refl) ext) refl refl)
        (HasText-Extends any_kind (λ t. refl) has ext refl) root key (with_driver_held w)) [
          | inl (w', e, c, v, is) ↦ inl (w', rw (found, stored, e), c, v, is)
          | inr (m, v, e, why) ↦ inr (m, v, rw (found, stored, e) refl, why)
        ]
