-- ===== src/Main/Launch.antt =====
-- src/modules/test.c with src/drivers/vserial.c: what starting the test module sets up.
use righack.Base.{
  ◌<◌, ◌⊎◌, inl, inr, false, ◌==◌, ℕ, suc, ◌+◌, ◌≡◌, refl, ◌≢◌, ◌∙◌, subst, sym, some, List, ◌∷◌,
  ◌++◌, [], Text, bytes, arith,
}
use righack.Configfile.Keys.{LeavesText, HasText, HasKey, HasInt, MayHaveKey}
use righack.Driver.{driver_create}
use righack.External.{Uv, Os, Toml, Rig}
use righack.Machine.{Outcome, stop, fatal, Prog, World, ok}
use righack.Machine.Access.{held_lt_next, load_held, store_held}
use righack.Machine.Others.{KeepsBut}
use righack.Machine.Extends.{
  is_uv, is_uv-is_settled, is_uv-is_untied, is_uv-is_started, Extends-KeepsTexts, KeepsTexts-trans,
  KeepsTexts, is_settled, Extends, Extends-alloc, Extends-weaken, Extends-trans, any_kind,
  is_untied, is_queue-is_untied,
}
use righack.Machine.Memory.{alloc, load, store}
use righack.Machine.Objects.{
  Vserial, VserialContext, DriverLifecycle, Ptr, null, Driver, DriverInfo, Module, struct_driver_cb,
  struct_module, struct_test_context, struct_text, as_module, as_text, no_cb_set,
}
use righack.Main.{driver_init}
use righack.Main.Attach.{
  has_user_others, IsStarted, has_user-KeepsTexts, user_holds_test, Starts, attach_lem, has_user,
  has_user-Extends, start_rig-IsStarted,
}
use righack.Main.Opening.{with_driver, new_driver, with_driver-Extends, driver_create-IsOpen}
use righack.Runloop.Later.Chain.{Slots, Waiting, Waiting-Extends}
use righack.TestModule.{start_rig, attach_driver, test_lifecycle_start}
use righack.Vserial.{vserial_driver_info}
use righack.Vserial.Built.{HasText-Extends}
use righack.Vserial.Init.{IsWorking}
use righack.Machine.Ends.{Dies}
use righack.Main.Launched.{IsLaunched, no_test, with_test, launched}
use righack.Vserial.Tied.{IsOpen}

-- The calls outside that open the port and the radio succeed.
pub record Works {X : Type 0} (os : Os X) (rig : Rig X) (name : Text) (rigid : ℕ) : Type 0 where
  pub working : IsWorking os name
  pub starts : Starts rig rigid

module _ {X : Type 0} ⦃uv : Uv X⦄ ⦃os : Os X⦄ ⦃toml : Toml X⦄ ⦃rig : Rig X⦄ (rigid : ℕ)
    (label name : Text) where
  -- The calls one after the other, in states that only their results tell.
  steps :
      (init : DriverLifecycle → Ptr → Text → Prog X (Unit {0})) (w w2 w3 w4 : World X) (fuel : ℕ)
      (p dn : Ptr) (m : Module) (o : Outcome X (Unit {0}))
      → load as_module p (with_test w) ≡ ok m (with_test w)
      → load as_text m.label (with_test w) ≡ ok label (with_test w)
      → driver_create init fuel (bytes "vserial") label (with_test w) ≡ ok dn w2
      → store w.next (struct_test_context (record no_test { vserial = dn })) w2 ≡ ok tt w3
      → (dn == null) ≡ false
      → attach_driver dn w.next w3 ≡ ok tt w4
      → start_rig p w.next label w4 ≡ o
      → test_lifecycle_start init fuel p w ≡ o
  unfolding test_lifecycle_start alloc
  steps init w w2 w3 w4 fuel p dn m o module1 text1 created kept live attached started =
      rw (module1, text1, created, kept, live, attached) started

  died :
      (init : DriverLifecycle → Ptr → Text → Prog X (Unit {0})) (w v : World X) (fuel : ℕ) (p : Ptr)
      (m : Module) (message : Text)
      → load as_module p (with_test w) ≡ ok m (with_test w)
      → load as_text m.label (with_test w) ≡ ok label (with_test w)
      → driver_create init fuel (bytes "vserial") label (with_test w) ≡ stop (fatal message) v
      → test_lifecycle_start init fuel p w ≡ stop (fatal message) v
  unfolding test_lifecycle_start alloc
  died init w v fuel p m message module1 text1 dies = rw (module1, text1, dies) refl

  -- The blocks behind `w.next` apart, only the module's changes.
  opened_others :
      (w w2 w4 : World X) (p : Ptr) (m : Module) (ss : Slots) (c : VserialContext) (v : Vserial)
      → (wt : Waiting w ss)
      → (is : IsOpen (with_driver (with_test w)) w2 (w.next + 1) (new_driver (w.next + 1)) ss c v)
      → (test2 : w2.cell w.next ≡ some (struct_test_context no_test))
      → (cb2 : w2.cell (w.next + 1 + 1) ≡ some (struct_driver_cb no_cb_set))
      → IsStarted label
          (has_user w2 w.next
            (w.next + 1)
            (record (new_driver (w.next + 1)) { private = (with_driver (with_test w)).next })
            test2
            is.holds_driver
            cb2)
          w4
          p
          w.next
          (w.next + 1)
          m
          (ss ++ is.slot ∷ [])
      → KeepsBut p w.cell w4.cell
  opened_others w w2 w4 p m ss c v wt is test2 cb2 st q o apart old lasts =
      let lt : q < w.next = held_lt_next w q o old wt.formed in
      let dn = w.next + 1 in
      let d : Driver = record (new_driver dn) { private = dn + 1 + 1 } in
      let ext1 : Extends any_kind w (with_test w) =
        Extends-alloc any_kind w (struct_test_context no_test) w.ext wt.formed in
      let before : (with_driver (with_test w)).cell q ≡ some o =
        (with_driver-Extends (with_test w) ext1.formed).kept q o (ext1.kept q o old refl) refl in
      let opened = is.others q o (λ e. omega (arith, lt, e)) before lasts in
      let attached =
        has_user_others w2 w.next dn d test2 is.holds_driver cb2 q o (λ e. omega (arith, lt, e))
          (λ e. omega (arith, lt, e)) (λ e. omega (arith, lt, e)) opened in
      st.others q o (λ e. omega (arith, lt, e)) apart attached lasts

  -- The rest of the start, once the driver's instance is open.
  opened_start :
      (w : World X) (fuel : ℕ) (p : Ptr) (m : Module) (ss : Slots)
      → (wt : Waiting w ss) → w.cell p ≡ some (struct_module m)
      → w.cell m.label ≡ some (struct_text label)
      → w.toml_root ≢ null
      → HasInt toml w.toml_root label (bytes "hamlib.rigid") rigid
      → MayHaveKey toml w.toml_root label (bytes "hamlib.serial.port")
      → (w2 : World X) (c : VserialContext) (v : Vserial)
      → driver_create driver_init (suc fuel) (bytes "vserial") label (with_test w)
        ≡ ok (w.next + 1) w2
      → IsOpen (with_driver (with_test w)) w2 (w.next + 1) (new_driver (w.next + 1)) ss c v
      → ((w' : World X) × (test_lifecycle_start driver_init (suc fuel) p w ≡ ok tt w')
          × IsLaunched w' p m ss
          × KeepsTexts w w'
          × Extends is_uv w w'
          × KeepsBut p w.cell w'.cell
          × LeavesText toml w.toml_root label (bytes "hamlib.serial.port") w')
        ⊎ Dies (Works os rig name rigid) (test_lifecycle_start driver_init (suc fuel) p w)
  opened_start w fuel p m ss wt held text root int maybe w2 c v created is =
      let dn = w.next + 1 in
      let d : Driver = record (new_driver dn) { private = dn + 1 + 1 } in
      let w1 = with_test w in
      let ext1 : Extends any_kind w w1 =
        Extends-alloc any_kind w (struct_test_context no_test) w.ext wt.formed in
      let module1 : w1.cell p ≡ some (struct_module m) = ext1.kept p _ held refl in
      let text1 : w1.cell m.label ≡ some (struct_text label) = ext1.kept m.label _ text refl in
      let load1 = load_held w1 p _ module1 as_module m refl in
      let load2 = load_held w1 m.label _ text1 as_text label refl in
      let formed1 = ext1.formed in
      let ext2 : Extends is_settled w1 w2 =
        Extends-trans (Extends-weaken (λ o e. refl) (with_driver-Extends w1 formed1)) is.extends in
      let test2 : w2.cell w.next ≡ some (struct_test_context no_test) =
        ext2.kept w.next _ (ground arith) refl in
      let cb2 : w2.cell (dn + 1) ≡ some (struct_driver_cb no_cb_set) =
        is.extends.kept (dn + 1) _ (ground arith) refl in
      let module2 : w2.cell p ≡ some (struct_module m) = ext2.kept p _ module1 refl in
      let w3 = has_user w2 w.next dn d test2 is.holds_driver cb2 in
      let ext3 = has_user-Extends w2 w.next dn d test2 is.holds_driver cb2 is.extends.formed in
      let same_root : w3.toml_root ≡ w.toml_root = ext3.same_root ∙ is.extends.same_root in
      let stored =
        store_held w2 w.next _ test2 (struct_test_context (record no_test { vserial = dn })) in
      let live : (dn == null) ≡ false = ground arith in
      let attached = attach_lem w2 w.next dn d test2 is.holds_driver cb2 in
      elim (start_rig-IsStarted rigid label w3 (ss ++ is.slot ∷ []) p w.next dn m
        (Waiting-Extends is.waiting (Extends-weaken is_queue-is_untied ext3) refl refl)
        (HasText-Extends is_untied (λ t. refl) is.has_text ext3 refl)
        (λ e. root (sym same_root ∙ e))
        (subst (λ r. HasInt toml r label (bytes "hamlib.rigid") rigid) (sym same_root) int)
        (subst (λ r. MayHaveKey toml r label (bytes "hamlib.serial.port")) (sym same_root) maybe)
        (ext3.kept p _ module2 refl) (user_holds_test w2 w.next dn d test2 is.holds_driver cb2)) [
          | inr (message, v, dies, why) ↦ inr (
            message,
            v,
            steps driver_init w w2 _ w3 (suc fuel) p dn m (stop (fatal message) v) load1 load2
                created stored live attached dies,
            λ s. why s.starts,
          )
          | inl (w4, started, st) ↦ inl (
            w4,
            steps driver_init w w2 _ w3 (suc fuel) p dn m (ok tt w4) load1 load2 created stored live
                attached started,
            launched label w p m ss held wt w2 c v w4 is test2 cb2 st,
            KeepsTexts-trans (Extends-KeepsTexts (λ t. refl) ext1 refl) (
                KeepsTexts-trans
                  (Extends-KeepsTexts (λ t. refl) (with_driver-Extends w1 formed1) refl)
                  (KeepsTexts-trans is.keeps_texts (
                    KeepsTexts-trans (has_user-KeepsTexts w2 w.next dn d test2 is.holds_driver cb2)
                      st.keeps_texts))),
            Extends-trans
                (Extends-weaken (λ o e. refl) (Extends-trans ext1 (with_driver-Extends w1 formed1)))
                (Extends-trans (Extends-weaken is_uv-is_settled is.extends) (
                  Extends-trans (Extends-weaken is_uv-is_untied ext3)
                    (Extends-weaken is_uv-is_started st.extends))),
            opened_others w w2 w4 p m ss c v wt is test2 cb2 st,
            subst (λ r. LeavesText toml r label (bytes "hamlib.serial.port") w4) same_root
                st.leaves,
          )
        ]

  -- Suppose that the virtual serial port's driver is registered last, and that the configuration's
  -- section for the module has the port's path, the radio's model and perhaps its line. Then
  -- starting the test module either returns, with the module wired to an open port and an open
  -- radio, the port polled, and calls of the radio alone since then; the first delivery of the
  -- port's lines waits behind all jobs; no text but the one in `config_buf` is lost, that buffer is
  -- left with a value, or freed if the section names no line of the radio, and of the blocks that
  -- are neither texts nor of the queue only the module's own changes; and the loop,
  -- its signal handle and the list of running modules stay. Or the process ends by `util_fatal`, and
  -- then the calls that open the port and the radio do not always succeed, or give a path, or there is
  -- a name, that does not fit, or at the port's name there can be something else than a symlink, or a
  -- symlink that cannot be read and replaced.
  pub test_lifecycle_start-IsLaunched :
      (w : World X) (fuel : ℕ) (p : Ptr) (m : Module) (ss : Slots) (ds : List DriverInfo)
      → Waiting w ss
      → HasText w
      → w.cell p ≡ some (struct_module m)
      → w.cell m.label ≡ some (struct_text label)
      → w.loaded_drivers ≡ vserial_driver_info ∷ ds
      → w.toml_root ≢ null
      → HasKey toml w.toml_root label (bytes "vserial.port") name
      → HasInt toml w.toml_root label (bytes "hamlib.rigid") rigid
      → MayHaveKey toml w.toml_root label (bytes "hamlib.serial.port")
      → ((w' : World X) × (test_lifecycle_start driver_init (suc fuel) p w ≡ ok tt w')
          × IsLaunched w' p m ss
          × KeepsTexts w w'
          × Extends is_uv w w'
          × KeepsBut p w.cell w'.cell
          × LeavesText toml w.toml_root label (bytes "hamlib.serial.port") w')
        ⊎ Dies (Works os rig name rigid) (test_lifecycle_start driver_init (suc fuel) p w)
  test_lifecycle_start-IsLaunched w fuel p m ss ds wt has held text registered root key int maybe =
      let w1 = with_test w in
      let ext1 : Extends any_kind w w1 =
        Extends-alloc any_kind w (struct_test_context no_test) w.ext wt.formed in
      let wt1 = Waiting-Extends wt (Extends-weaken (λ o e. refl) ext1) refl refl in
      let has1 = HasText-Extends any_kind (λ t. refl) has ext1 refl in
      let module1 : w1.cell p ≡ some (struct_module m) = ext1.kept p _ held refl in
      let text1 : w1.cell m.label ≡ some (struct_text label) = ext1.kept m.label _ text refl in
      let load1 = load_held w1 p _ module1 as_module m refl in
      let load2 = load_held w1 m.label _ text1 as_text label refl in
      elim (driver_create-IsOpen fuel label name w1 ss ds wt1 has1 root key registered) [
        | inr (message, v, dies, why) ↦ inr (
          message,
          v,
          died driver_init w v (suc fuel) p m message load1 load2 dies,
          λ s. why s.working,
        )
        | inl (w2, created, c, v, is) ↦
            opened_start w fuel p m ss wt held text root int maybe w2 c v created is
      ]
