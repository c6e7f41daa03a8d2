-- ===== src/Driver.antt =====
-- src/driver.c and src/driver.h: the registered drivers and their instances.
pub mod Destroy
pub mod Registry
use righack.Base.{
  ℕ, zero, suc, ◌+◌, Bool, true, false, Option, none, some, List, [], ◌∷◌, Text, bytes, length,
  text_eq, ◌==◌, not, ◌&&◌, if◌then◌else◌,
}
use righack.Machine.{
  Prog, fatal, out_of_fuel, pure, halt, skip, ◌>>=◌, ◌>>◌, gets, modify, fatal_if, when,
}
use righack.Machine.Memory.{alloc, load, store, free}
use righack.Machine.Objects.{
  struct_driver_list, DriverList, no_cb_set, Ptr, null, DriverStatus, unstarted, starting, started,
  stopping, stopped, DriverInfo, DriverLifecycle, DriverCb, Driver, struct_driver, struct_driver_cb,
  as_driver,
}

-- `(status != driver_status_unstarted && status != driver_status_stopped)`, negated
abbrev pub is_idle : DriverStatus → Bool
is_idle unstarted = true
is_idle starting = false
is_idle started = false
is_idle stopping = false
is_idle stopped = true

unfoldable pub driver_get_status_string : DriverStatus → Text
driver_get_status_string unstarted = bytes "unstarted"
driver_get_status_string starting = bytes "starting"
driver_get_status_string started = bytes "started"
driver_get_status_string stopping = bytes "stopping"
driver_get_status_string stopped = bytes "stopped"

module _ {X : Type 0} where
  -- The `while` loop of `driver_get_info`: a round that does not return leaves `p` where it was.
  unfoldable pub find_driver : Text → ℕ → DriverList → Prog X (Option DriverInfo)
  find_driver name zero p = halt out_of_fuel
  find_driver name (suc fuel) [] = pure none
  find_driver name (suc fuel) (d ∷ ds) =
      let again = find_driver name fuel (d ∷ ds) in
      if text_eq d.name name then pure (some d) else again

  -- It only logs.
  unfoldable pub driver_bootstrap : Prog X (Unit {0})
  driver_bootstrap = skip

  unfoldable pub driver_get_info : ℕ → Text → Prog X (Option DriverInfo)
  unfolding find_driver
  driver_get_info fuel name = do p ← gets (λ w. w.loaded_drivers); find_driver name fuel p

  unfoldable pub driver_register : ℕ → DriverInfo → Prog X (Unit {0})
  unfolding driver_get_info alloc
  driver_register fuel info = do
    alloc (struct_driver_list info)
    known ← driver_get_info fuel info.name
    elim known [
      | some _ ↦ halt (fatal (bytes "attempt to double register driver with name '%s'"))
      | none ↦ modify (λ w. record w { loaded_drivers = info ∷ w.loaded_drivers })
    ]

  -- `init` is the call through `info->lifecycle.init`.
  unfoldable pub driver_create :
      (init : DriverLifecycle → Ptr → Text → Prog X (Unit {0})) → ℕ → Text → Text → Prog X Ptr
  unfolding driver_get_info alloc store
  driver_create init fuel name config_section = do
    found ← driver_get_info fuel name
    elim found [
      | none ↦ pure null
      | some info ↦ (do
        new_driver ← alloc (
            struct_driver
              (record { user = null; private = null; info = info; cb = null; status = unstarted }))
        cb ← alloc (struct_driver_cb no_cb_set)
        store new_driver (
            struct_driver
              (record { user = null; private = null; info = info; cb = cb; status = unstarted }))
        init info.lifecycle new_driver config_section
        pure new_driver)
    ]

  -- `notify` says that `notify_cb` is not NULL; `cleanup` is the call through
  -- `driver->info->lifecycle.cleanup`.
  unfoldable pub driver_destroy :
      (cleanup : DriverLifecycle → Ptr → Prog X (Unit {0})) → Ptr → Bool → Prog X (Unit {0})
  unfolding load free
  driver_destroy cleanup p notify = do
    driver ← load as_driver p
    fatal_if notify (bytes "cleanup notification does not work yet")
    fatal_if (not (is_idle driver.status)) (bytes "attempt to destroy a driver in status %s")
    cleanup driver.info.lifecycle p
    cleaned ← load as_driver p
    when (not (cleaned.cb == null)) (free cleaned.cb)
    fatal_if (not (cleaned.user == null))
        (bytes "driver '%s' did not set the user data to NULL during cleanup")
    free p

  unfoldable pub driver_get_status : Ptr → Prog X DriverStatus
  unfolding load
  driver_get_status p = do driver ← load as_driver p; pure driver.status

  unfoldable pub driver_set_status : Ptr → DriverStatus → Prog X DriverStatus
  unfolding load store
  driver_set_status p status = do
    driver ← load as_driver p
    store p (struct_driver (record driver { status = status }))
    pure driver.status
