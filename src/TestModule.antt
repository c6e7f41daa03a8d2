-- ===== src/TestModule.antt =====
-- src/modules/test.c: the module that keys a radio by the RTS line of a virtual serial port.
use righack.Base.{ℕ, ◌-◌, false, some, Text, bytes, take, ◌==◌, not}
use righack.Configfile.{configfile_rgeti_section_key, configfile_gets_section_key}
use righack.Driver.{driver_create, driver_destroy}
use righack.External.{Rig, Toml}
use righack.Machine.{skip, Prog, ◌>>=◌, ◌>>◌, tell, call, fatal_if, when}
use righack.Machine.Memory.{alloc, load, store, free}
use righack.Machine.Objects.{
  Ptr, null, update_flow_control, DriverLifecycle, struct_driver, struct_driver_cb, struct_module,
  struct_test_context, as_driver, as_driver_cb, as_module, as_test_context, as_text,
}
use righack.Vserial.Packet.{ControlLines}

module _ {X : Type 0} where
  -- It only logs, and is never called.
  unfoldable pub test_lifecycle_bootstrap : Prog X (Unit {0})
  test_lifecycle_bootstrap = skip

module _ {X : Type 0} ⦃rig : Rig X⦄ where
  unfoldable pub update_flow_control_run : Ptr → ControlLines → Prog X (Unit {0})
  unfolding load
  update_flow_control_run driver control_lines = do
    d ← load as_driver driver
    context ← load as_test_context d.user
    failed ← call (rig.set_ptt context.rig control_lines.rts)
    fatal_if failed (bytes "Could not set transmit: %s")

  -- `strncpy` of the configured path, if there is one.
  unfoldable pub set_serial_port : Ptr → Ptr → Prog X (Unit {0})
  unfolding load
  set_serial_port handle path =
      when (not (path == null)) (do
        text ← load as_text path
        tell (rig.set_pathname handle (take (rig.filpathlen - 1) text)))

  -- From `rig_init` on.
  unfoldable pub start_rig : ⦃toml : Toml X⦄ → Ptr → Ptr → Text → Prog X (Unit {0})
  unfolding set_serial_port configfile_rgeti_section_key configfile_gets_section_key load store
  start_rig p context label = do
    rigid ← configfile_rgeti_section_key label (bytes "hamlib.rigid")
    handle ← call (rig.init (rig.to_model rigid))
    c ← load as_test_context context
    store context (struct_test_context (record c { rig = handle }))
    fatal_if (handle == null) (bytes "could not rig_init(%d)")
    path ← configfile_gets_section_key label (bytes "hamlib.serial.port")
    set_serial_port handle path
    failed ← call (rig.open_rig handle)
    fatal_if failed (bytes "Could not rig_open(): %s")
    m ← load as_module p
    store p (struct_module (record m { private = context }))

  -- `driver->cb->rs232.fc_changed = update_flow_control` and `driver->user = context`
  unfoldable pub attach_driver : Ptr → Ptr → Prog X (Unit {0})
  unfolding load store
  attach_driver vserial context = do
    d ← load as_driver vserial
    cb ← load as_driver_cb d.cb
    store d.cb
        (struct_driver_cb (record cb { rs232 = record { fc_changed = some update_flow_control } }))
    store vserial (struct_driver (record d { user = context }))

  unfoldable pub test_lifecycle_start :
      ⦃toml : Toml X⦄
      → (DriverLifecycle → Ptr → Text → Prog X (Unit {0}))
      → ℕ
      → Ptr
      → Prog X (Unit {0})
  unfolding attach_driver start_rig driver_create alloc load store
  test_lifecycle_start init fuel p = do
    context ← alloc (struct_test_context (record { vserial = null; rig = null }))
    m ← load as_module p
    label ← load as_text m.label
    vserial ← driver_create init fuel (bytes "vserial") label
    store context (struct_test_context (record { vserial = vserial; rig = null }))
    fatal_if (vserial == null) (bytes "could not create instance of vserial driver")
    attach_driver vserial context
    start_rig p context label

  unfoldable pub close_rig : Ptr → Prog X (Unit {0})
  close_rig handle =
      when (not (handle == null)) (do tell (rig.close handle); tell (rig.cleanup handle))

  unfoldable pub test_lifecycle_stop :
      (DriverLifecycle → Ptr → Prog X (Unit {0})) → Ptr → Prog X (Unit {0})
  unfolding close_rig driver_destroy load free
  test_lifecycle_stop cleanup p = do
    m ← load as_module p
    context ← load as_test_context m.private
    when (not (context.vserial == null)) (driver_destroy cleanup context.vserial false)
    stopped ← load as_test_context m.private
    close_rig stopped.rig
    free m.private
