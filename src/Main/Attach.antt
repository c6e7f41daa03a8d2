-- ===== src/Main/Attach.antt =====
-- src/modules/test.c: tying a new driver instance to the module's context, and starting the radio.
use righack.Base.{
  true, sym, subst, ◌-◌, take, Bool-cases, ℕ, ◌≡◌, refl, ◌≢◌, inl, inr, ◌⊎◌, false, some, Text,
  bytes, arith, ◌==◌,
}
use righack.Configfile.Keys.{LeavesText, HasText, HasInt, MayHaveKey, rgeti_found, gets_maybe}
use righack.External.{Os, Toml, Rig}
use righack.Machine.{World, ok}
use righack.Machine.Access.{IsHeap, load_held, store_held}
use righack.Machine.Ends.{Dies}
use righack.Machine.Extends.{
  is_lasting, is_lasting-not_text, KeepsTexts, is_started-not_text, is_queue-is_started, is_started,
  Extends, Extends-trans, Extends-write, Extends-weaken, is_untied, is_queue,
}
use righack.Machine.Memory.{write}
use righack.Machine.Objects.{
  Object, Ptr, null, Driver, DriverCb, Module, update_flow_control, no_cb_set, struct_driver,
  struct_driver_cb, struct_module, struct_test_context, struct_text, as_driver, as_driver_cb,
  as_module, as_test_context, as_text,
}
use righack.Runloop.Later.Chain.{Slots, Waiting, Waiting-Extends}
use righack.TestModule.{attach_driver, start_rig, set_serial_port}
use righack.Main.Calls.{inits, opens, names, no_call, RadioCalls-trans, RadioCalls}

-- The radio can be set up and opened, whatever the state outside.
pub record Starts {X : Type 0} (rig : Rig X) (rigid : ℕ) : Type 0 where
  pub inits : (x : X) → (rig.init (rig.to_model rigid) x).0 ≢ null
  pub opens_rig : (h : Ptr) (x : X) → (rig.open_rig h x).0 ≡ false

abbrev pub flow_cb : DriverCb
flow_cb = record no_cb_set { rs232 = record { fc_changed = some update_flow_control } }

module _ {X : Type 0} (w : World X) (t dn : Ptr) (d : Driver)
    (holds_test : w.cell t ≡ some (struct_test_context (record { vserial = null; rig = null })))
    (holds_driver : w.cell dn ≡ some (struct_driver d))
    (holds_cb : w.cell d.cb ≡ some (struct_driver_cb no_cb_set)) where
  -- The states of `w` as the four stores follow each other.
  abbrev pub has_vserial : World X
  has_vserial = record w {
    cell = write w.cell t (some (struct_test_context (record { vserial = dn; rig = null })));
  }

  abbrev pub has_callback : World X
  has_callback = record has_vserial {
    cell = write has_vserial.cell d.cb (some (struct_driver_cb flow_cb));
  }

  abbrev pub has_user : World X
  has_user = record has_callback {
    cell = write has_callback.cell dn (some (struct_driver (record d { user = t })));
  }

  driver1 : has_vserial.cell dn ≡ some (struct_driver d)
  driver1 = ground (arith, holds_test, holds_driver)

  cb1 : has_vserial.cell d.cb ≡ some (struct_driver_cb no_cb_set)
  cb1 = ground (arith, holds_test, holds_cb)

  driver2 : has_callback.cell dn ≡ some (struct_driver d)
  driver2 = ground (arith, driver1, cb1)

  pub user_holds_test :
      has_user.cell t ≡ some (struct_test_context (record { vserial = dn; rig = null }))
  user_holds_test = ground (arith, holds_test, holds_driver, holds_cb)

  pub attach_lem : ⦃rig : Rig X⦄ → attach_driver dn t has_vserial ≡ ok tt has_user
  unfolding attach_driver
  attach_lem ⦃rig⦄ = rw (
    load_held has_vserial dn _ driver1 as_driver d refl,
    load_held has_vserial d.cb _ cb1 as_driver_cb no_cb_set refl,
    store_held has_vserial d.cb _ cb1 (struct_driver_cb flow_cb),
    store_held has_callback dn _ driver2 (struct_driver (record d { user = t })),
  )

  pub has_user-Extends : IsHeap w.cell w.next → Extends is_untied w has_user
  has_user-Extends hp =
      let e1 =
        Extends-write is_untied w t _ (struct_test_context (record { vserial = dn; rig = null }))
          w.ext hp holds_test refl in
      let e2 =
        Extends-write is_untied has_vserial d.cb _ (struct_driver_cb flow_cb) w.ext e1.formed cb1
          refl in
      let e3 =
        Extends-write is_untied has_callback dn _ (struct_driver (record d { user = t })) w.ext
          e2.formed driver2 refl in
      Extends-trans e1 (Extends-trans e2 e3)

  pub has_user_others :
      (q : Ptr) (o : Object)
      → q ≢ t
      → q ≢ dn
      → q ≢ d.cb
      → w.cell q ≡ some o
      → has_user.cell q ≡ some o
  has_user_others q o at_test at_driver at_cb held = ground (arith, at_test, at_driver, at_cb, held)

  pub has_user-KeepsTexts : KeepsTexts w has_user
  has_user-KeepsTexts = record {
    texts = λ q s held ne. (ground (arith, held, holds_test, cb1, driver2), ne);
  }

  pub user_holds_driver : has_user.cell dn ≡ some (struct_driver (record d { user = t }))
  user_holds_driver = ground (arith, driver2)

  pub user_holds_cb : has_user.cell d.cb ≡ some (struct_driver_cb flow_cb)
  user_holds_cb = ground (arith, cb1, driver1, holds_test)

-- `set_serial_port` of NULL or a text changes at most the state outside.
serial_lem :
    {X : Type 0} ⦃os : Os X⦄ ⦃rig : Rig X⦄ (handle value : Ptr) (w : World X)
    → (value ≡ null) ⊎ ((s : Text) × (w.cell value ≡ some (struct_text s)))
    → (y : X) × (set_serial_port handle value w ≡ ok tt (record w { ext = y }))
      × RadioCalls os rig w.ext y
unfolding set_serial_port
serial_lem handle value w (inl e) = (w.ext, rw e, no_call)
serial_lem ⦃rig⦄ handle value w (inr (s, held)) = elim (Bool-cases (value == null)) [
  | inl t ↦ (w.ext, rw t, no_call)
  | inr t ↦ (
    rig.set_pathname handle (take (rig.filpathlen - 1) s) w.ext,
    rw (t, load_held w value _ held as_text s refl),
    names no_call handle (take (rig.filpathlen - 1) s),
  )
]

-- A store to a module leaves the buffer as it is.
leaves_write :
    {X : Type 0} ⦃toml : Toml X⦄ {root : Ptr} (label : Text) (w : World X) (p : Ptr) (m : Module)
    (n : Object) (x : X)
    → w.cell p ≡ some (struct_module m)
    → LeavesText toml root label (bytes "hamlib.serial.port") w
    → LeavesText toml root label
        (bytes "hamlib.serial.port")
        (record w { cell = write w.cell p (some n); ext = x })
leaves_write label w p m n x held (inl (inl unset)) = inl (inl unset)
leaves_write label w p m n x held (inl (inr (t, text))) = inl (inr (t, ground (arith, held, text)))
leaves_write label w p m n x held (inr (y, missing, gone)) =
    inr (y, missing, ground (arith, held, gone))

-- What `start_rig` leaves: the context has an open radio, and the module has the context.
pub record IsStarted {X : Type 0} ⦃os : Os X⦄ ⦃toml : Toml X⦄ ⦃rig : Rig X⦄ (label : Text)
    (w w' : World X) (p t dn : Ptr) (m : Module) (ss : Slots) : Type 0 where
  pub handle : Ptr
  pub live : handle ≢ null
  pub holds_test : w'.cell t ≡ some (struct_test_context (record { vserial = dn; rig = handle }))
  pub holds_module : w'.cell p ≡ some (struct_module (record m { private = t }))
  pub extends : Extends is_started w w'
  pub waiting : Waiting w' ss
  pub keeps_texts : KeepsTexts w w'
  pub calls : RadioCalls os rig w.ext w'.ext
  pub leaves : LeavesText toml w.toml_root label (bytes "hamlib.serial.port") w'
  pub others :
      (q : Ptr) (o : Object)
      → q ≢ t
      → q ≢ p
      → w.cell q ≡ some o
      → is_lasting o ≡ true
      → w'.cell q ≡ some o

module _ {X : Type 0} ⦃os : Os X⦄ ⦃toml : Toml X⦄ ⦃rig : Rig X⦄ (rigid : ℕ) (label : Text) where
  -- The radio is set up and opened, or the process ends.
  pub start_rig-IsStarted :
      (w : World X) (ss : Slots) (p t dn : Ptr) (m : Module)
      → Waiting w ss
      → HasText w
      → w.toml_root ≢ null
      → HasInt toml w.toml_root label (bytes "hamlib.rigid") rigid
      → MayHaveKey toml w.toml_root label (bytes "hamlib.serial.port")
      → w.cell p ≡ some (struct_module m)
      → w.cell t ≡ some (struct_test_context (record { vserial = dn; rig = null }))
      → ((w' : World X) × (start_rig p t label w ≡ ok tt w') × IsStarted label w w' p t dn m ss)
        ⊎ Dies (Starts rig rigid) (start_rig p t label w)
  unfolding start_rig
  start_rig-IsStarted w ss p t dn m wt has root int key holds_module holds_test =
      let handle = (rig.init (rig.to_model rigid) w.ext).0 in
      let y = (rig.init (rig.to_model rigid) w.ext).1 in
      let test1 = struct_test_context (record { vserial = dn; rig = handle }) in
      let w1 : World X = record w { cell = write w.cell t (some test1); ext = y } in
      let ext1 = Extends-write is_started w t _ test1 y wt.formed holds_test refl in
      let (w2, value, found, path, ext2, wt2, texts, same, has2) =
        gets_maybe label (bytes "hamlib.serial.port") w1 ss
          (Waiting-Extends wt (Extends-weaken is_queue-is_started ext1) refl refl)
          (elim has [ inl e ↦ inl e | inr (s, text) ↦ inr (s, ground (arith, text, holds_test)) ])
          root key in
      let (x3, told, named) = serial_lem handle value w2 path in
      let x4 = (rig.open_rig handle x3).1 in
      let w3 : World X = record w2 { ext = x4 } in
      let module2 : w2.cell p ≡ some (struct_module m) =
        ext2.kept p _ (ground (arith, holds_module, holds_test)) refl in
      let module3 = struct_module (record m { private = t }) in
      let w4 : World X = record w2 { cell = write w2.cell p (some module3); ext = x4 } in
      let test2 : w2.cell t ≡ some test1 = ext2.kept t _ (ground arith) refl in
      let ext3 = Extends-write is_started w2 p _ module3 x4 ext2.formed module2 refl in
      let rigid_e = rgeti_found label (bytes "hamlib.rigid") rigid w root int in
      let load_e =
        load_held (record w { ext = y }) t _ holds_test as_test_context
          (record { vserial = dn; rig = null }) refl in
      let store_e = store_held (record w { ext = y }) t _ holds_test test1 in
      elim (Bool-cases (handle == null)) [
        | inl unset ↦ inr (
          bytes "could not rig_init(%d)",
          w1,
          rw (rigid_e, load_e, store_e, unset) refl,
          λ s. ground (arith, unset, s.inits w.ext),
        )
        | inr is_live ↦ elim (Bool-cases (rig.open_rig handle x3).0) [
          | inl failed ↦ inr (
            bytes "Could not rig_open(): %s",
            w3,
            rw (rigid_e, load_e, store_e, is_live, found, told, failed) refl,
            λ s. ground (arith, failed, s.opens_rig handle x3),
          )
          | inr opened ↦ inl (
            w4,
            rw (
              rigid_e,
              load_e,
              store_e,
              is_live,
              found,
              told,
              opened,
              load_held w3 p _ module2 as_module m refl,
              store_held w3 p _ module2 module3,
            ),
            record {
              handle = handle;
              live = λ e. ground (arith, e, is_live);
              holds_test = ground (arith, test2, module2);
              holds_module = ground arith;
              calls =
                  opens
                    (RadioCalls-trans
                      (subst (λ x. RadioCalls os rig w.ext x) (sym same)
                        (inits no_call (rig.to_model rigid)))
                      named)
                    handle;
              extends =
                  Extends-trans ext1 (Extends-trans (Extends-weaken is_started-not_text ext2) ext3);
              leaves = leaves_write label w2 p m module3 x4 module2 has2;
              others = λ q o at_test at_module held lasts.
                  let held1 : w1.cell q ≡ some o = ground (arith, held, at_test) in
                  let held2 : w2.cell q ≡ some o =
                    ext2.kept q o held1 (is_lasting-not_text o lasts) in
                  ground (arith, held2, at_module);
              keeps_texts = record {
                texts = λ q s held ne.
                    let (held2, ne2) = texts.texts q s (ground (arith, held, holds_test)) ne in
                    (ground (arith, held2, module2), ne2);
              };
              waiting =
                  Waiting-Extends wt2
                    (Extends-write is_queue w2 p _ module3 x4 ext2.formed module2 refl) refl refl;
            },
          )
        ]
      ]
