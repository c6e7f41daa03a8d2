-- ===== src/Main/Section.antt =====
-- src/main.c with src/module.c: the job that starts the module of one section.
use righack.Base.{
  ◌⊎◌, inl, inr, ap, none, ℕ, suc, ◌+◌, ◌≡◌, refl, ◌≢◌, ◌∙◌, subst, sym, true, some, List, ◌∷◌,
  Text, bytes, arith,
}
use righack.Configfile.Keys.{LeavesText, HasText, HasKey, HasInt, MayHaveKey, rgets_found}
use righack.External.{Uv, Os, Toml, Rig}
use righack.Machine.{World, ok}
use righack.Machine.Access.{held_lt_next, IsHeap, load_held, free_held, held_ne_null}
use righack.Machine.Extends.{
  is_lasting, KeepsIf, any_kind, is_lasting-not_text, is_queue-not_text, not_text, Extends,
  Extends-weaken, Extends-free, Extends-KeepsTexts, KeepsTexts, KeepsTexts-trans,
}
use righack.Machine.Memory.{write}
use righack.Machine.Objects.{
  Object, struct_module, DriverInfo, ModuleInfo, Module, Ptr, struct_text, as_text,
}
use righack.Main.{start_lifecycle, start_section, start_module_handler_run}
use righack.Main.Launch.{Works, test_lifecycle_start-IsLaunched}
use righack.Main.Launched.{IsSetUp-KeepsIf, IsLaunched}
use righack.Module.{test_module_info}
use righack.Module.Instances.{created-IsHeap, created, instance_of, module_start-called}
use righack.Runloop.Later.Chain.{Slots, Waiting, Waiting-Extends}
use righack.Vserial.{vserial_driver_info}
use righack.Vserial.Built.{HasText-Extends}
use righack.Machine.Ends.{Dies}

-- The configuration as the test module reads it from its section.
pub record IsConfigured {X : Type 0} (toml : Toml X) (root : Ptr) (section name : Text) (rigid : ℕ)
    : Type 0 where
  pub loaded : root ≢ 0
  pub has_module : HasKey toml root section (bytes "module.name") (bytes "test")
  pub has_port : HasKey toml root section (bytes "vserial.port") name
  pub has_rigid : HasInt toml root section (bytes "hamlib.rigid") rigid
  pub has_serial : MayHaveKey toml root section (bytes "hamlib.serial.port")

-- The state of `created` with the running modules as they were.
abbrev unlisted : {X : Type 0} → World X → Text → World X
unlisted w section = record (created w test_module_info section) {
  running_modules = w.running_modules;
}

unlisted-Extends :
    {X : Type 0} (w : World X) (section : Text)
    → IsHeap w.cell w.next
    → Extends any_kind w (unlisted w section)
unlisted-Extends w section hp = record {
  formed = created-IsHeap test_module_info section w hp;
  kept = λ q o held e. ground (arith, held_lt_next w q o held hp);
  same_root = refl;
  same_drivers = refl;
  same_modules = refl;
  same_loop = refl;
  same_signal = refl;
  same_running = refl;
}

created-Waiting :
    {X : Type 0} (w : World X) (section : Text) (ss : Slots)
    → Waiting w ss
    → Waiting (created w test_module_info section) ss
created-Waiting w section ss wt =
    let wt' =
      Waiting-Extends wt (Extends-weaken (λ o e. refl) (unlisted-Extends w section wt.formed)) refl
        refl in
    record { formed = wt'.formed; chain = wt'.chain; distinct = wt'.distinct; tail = wt'.tail }

created_module :
    {X : Type 0} (w : World X) (section : Text)
    → (created w test_module_info section).cell (w.next + 1)
      ≡ some (struct_module (instance_of w test_module_info))
created_module w section = ground arith

created_label :
    {X : Type 0} (w : World X) (section : Text)
    → (created w test_module_info section).cell w.next ≡ some (struct_text section)
created_label w section = ground arith

created-KeepsTexts :
    {X : Type 0} (w : World X) (section : Text)
    → IsHeap w.cell w.next
    → KeepsTexts w (created w test_module_info section)
created-KeepsTexts w section hp =
    let t = Extends-KeepsTexts (λ t. refl) (unlisted-Extends w section hp) refl in
    record { texts = t.texts }

-- A new module `p` in front of the running ones; the variables of the loop, the registries and the
-- configuration stay, and of the blocks all but texts and those of the queue.
pub record Adds {X : Type 0} (w w' : World X) (p : Ptr) : Type 0 where
  pub same_loop : w'.thread_loop ≡ w.thread_loop
  pub same_signal : w'.int_signal ≡ w.int_signal
  pub same_root : w'.toml_root ≡ w.toml_root
  pub same_drivers : w'.loaded_drivers ≡ w.loaded_drivers
  pub same_modules : w'.loaded_modules ≡ w.loaded_modules
  pub others : List Ptr
  pub running : w'.running_modules ≡ p ∷ others
  pub kept : KeepsIf is_lasting w.cell w'.cell

-- All texts stay but the one in `config_buf` and the one at `context`.
pub record KeepsOtherTexts {X : Type 0} (w w' : World X) (context : Ptr) : Type 0 where
  pub texts :
      (q : Ptr) (t : Text)
      → q ≢ context
      → w.cell q ≡ some (struct_text t)
      → q ≢ w.config_buf
      → (w'.cell q ≡ some (struct_text t)) × (q ≢ w'.config_buf)

freed_other :
    {X : Type 0} (w : World X) (p q : Ptr) (o : Object)
    → q ≢ p
    → w.cell q ≡ some o
    → write w.cell p none q ≡ some o
freed_other w p q o other held = ground (arith, other, held)

-- Freeing another text leaves the buffer as it is.
leaves_free :
    {X : Type 0} (toml : Toml X) {root : Ptr} {section key : Text} (w : World X) (p : Ptr)
    → p ≢ w.config_buf
    → LeavesText toml root section key w
    → LeavesText toml root section key (record w { cell = write w.cell p none })
leaves_free toml w p apart (inl (inl unset)) = inl (inl unset)
leaves_free toml w p apart (inl (inr (t, text))) = inl (inr (t, ground (arith, apart, text)))
leaves_free toml w p apart (inr (y, missing, gone)) = inr (y, missing, ground (arith, gone))

module _ {X : Type 0} ⦃uv : Uv X⦄ ⦃os : Os X⦄ ⦃toml : Toml X⦄ ⦃rig : Rig X⦄ (rigid : ℕ)
    (section name : Text) where
  section_lem :
      (w : World X) (fuel : ℕ) (ss : Slots) (ds : List DriverInfo) (ms : List ModuleInfo)
      → Waiting w ss
      → HasText w
      → w.loaded_drivers ≡ vserial_driver_info ∷ ds
      → w.loaded_modules ≡ test_module_info ∷ ms
      → IsConfigured toml w.toml_root section name rigid
      → ((w' : World X) × (p : Ptr) × (m : Module) × (start_section (suc fuel) section w ≡ ok p w')
          × (m.info ≡ test_module_info)
          × IsLaunched w' p m ss
          × KeepsTexts w w'
          × Adds w w' p
          × LeavesText toml w.toml_root section (bytes "hamlib.serial.port") w')
        ⊎ Dies (Works os rig name rigid) (start_section (suc fuel) section w)
  unfolding start_section start_lifecycle test_module_info
  section_lem w fuel ss ds ms wt has drivers modules conf =
      let (w1, read, text, has1, ext1, wt1, _, texts1) =
        rgets_found section (bytes "module.name") w ss wt has conf.loaded (bytes "test")
          conf.has_module in
      let w2 = created w1 test_module_info section in
      let ext2 = unlisted-Extends w1 section wt1.formed in
      let root : w2.toml_root ≡ w.toml_root = ext2.same_root ∙ ext1.same_root in
      let text_e = load_held w1 w.next _ text as_text (bytes "test") refl in
      let called =
        module_start-called (start_lifecycle (suc fuel)) fuel section test_module_info ms w1
          (ext1.same_modules ∙ modules) in
      elim (test_lifecycle_start-IsLaunched rigid section name w2 fuel (w1.next + 1)
        (instance_of w1 test_module_info) ss ds (created-Waiting w1 section ss wt1)
        (HasText-Extends any_kind (λ t. refl) has1 ext2 refl) (created_module w1 section)
        (created_label w1 section) (ext2.same_drivers ∙ ext1.same_drivers ∙ drivers)
        (λ e. conf.loaded (sym root ∙ e))
        (subst (λ r. HasKey toml r section (bytes "vserial.port") name) (sym root) conf.has_port)
        (subst (λ r. HasInt toml r section (bytes "hamlib.rigid") rigid) (sym root) conf.has_rigid)
        (subst (λ r. MayHaveKey toml r section (bytes "hamlib.serial.port")) (sym root)
          conf.has_serial)) [
            | inr (message, v, dies, why) ↦
                inr (message, v, rw (read, text_e, called, dies) refl, why)
            | inl (w3, started, launched, texts3, run3, others3, leaves) ↦ inl (
              w3,
              w1.next + 1,
              instance_of w1 test_module_info,
              rw (read, text_e, called, started),
              refl,
              launched,
              KeepsTexts-trans texts1
                  (KeepsTexts-trans (created-KeepsTexts w1 section wt1.formed) texts3),
              record {
                same_loop = run3.same_loop ∙ ext1.same_loop;
                same_signal = run3.same_signal ∙ ext1.same_signal;
                same_root = run3.same_root ∙ ext1.same_root;
                same_drivers = run3.same_drivers ∙ ext1.same_drivers;
                same_modules = run3.same_modules ∙ ext1.same_modules;
                others = w.running_modules;
                running = run3.same_running ∙ ap (λ l. (w1.next + 1) ∷ l) ext1.same_running;
                kept = λ q o held lasts.
                    let held1 = ext1.kept q o held (is_lasting-not_text o lasts) in
                    let lt = held_lt_next w1 q o held1 wt1.formed in
                    others3 q o (λ e. omega (arith, lt, e)) (ext2.kept q o held1 refl) lasts;
              },
              subst (λ r. LeavesText toml r section (bytes "hamlib.serial.port") w3) root leaves,
            )
          ]

  -- With the driver of the virtual serial port and the test module registered last, and a section
  -- that names that module and configures the port and the radio, the job of the section returns or
  -- ends the process by `util_fatal`. Where it returns, an instance of the test module is wired to an
  -- open port and an open radio, the port's handle is polled for it, and the first delivery of the
  -- port's lines waits behind all jobs; it always returns if all the calls that open the port and
  -- the radio succeed with a name and a path that fit, and only a symlink is at the port's name.
  pub start_module_handler_run-IsLaunched :
      (w : World X) (fuel context : ℕ) (ss : Slots) (ds : List DriverInfo) (ms : List ModuleInfo)
      → Waiting w ss
      → HasText w
      → w.loaded_drivers ≡ vserial_driver_info ∷ ds
      → w.loaded_modules ≡ test_module_info ∷ ms
      → IsConfigured toml w.toml_root section name rigid
      → w.cell context ≡ some (struct_text section)
      → context ≢ w.config_buf
      → ((w' : World X) × (p : Ptr) × (m : Module) × (start_module_handler_run
              (suc fuel)
              true
              context
              w
            ≡ ok tt w')
          × (m.info ≡ test_module_info)
          × IsLaunched w' p m ss
          × Adds w w' p
          × KeepsOtherTexts w w' context
          × LeavesText toml w.toml_root section (bytes "hamlib.serial.port") w')
        ⊎ Dies (Works os rig name rigid) (start_module_handler_run (suc fuel) true context w)
  unfolding start_module_handler_run
  start_module_handler_run-IsLaunched w fuel context ss ds ms wt has drivers modules conf held
        apart =
      let text_e = load_held w context _ held as_text section refl in
      elim (section_lem w fuel ss ds ms wt has drivers modules conf) [
        | inr (message, v, dies, why) ↦ inr (message, v, rw (text_e, dies) refl, why)
        | inl (w1, p, m, ran, info, launched, texts, adds, leaves) ↦
            let (held1, apart1) = texts.texts context section held apart in
            let formed = launched.waiting.formed in
            let ext = Extends-free not_text w1 context (struct_text section) formed held1 refl in
            inl (
              record w1 { cell = write w1.cell context none },
              p,
              m,
              rw (
                text_e,
                ran,
                free_held w1 context _ held1 (held_ne_null w1 context _ held1 formed),
              ),
              info,
              record {
                user = launched.user;
                port = launched.port;
                context = launched.context;
                handle = launched.handle;
                before = launched.before;
                calls = launched.calls;
                set_up =
                    IsSetUp-KeepsIf launched.set_up (Extends-weaken is_lasting-not_text ext).kept;
                slot = launched.slot;
                is_delivery = launched.is_delivery;
                waiting =
                    Waiting-Extends launched.waiting (Extends-weaken is_queue-not_text ext) refl
                      refl;
              },
              record {
                same_loop = adds.same_loop;
                same_signal = adds.same_signal;
                same_root = adds.same_root;
                same_drivers = adds.same_drivers;
                same_modules = adds.same_modules;
                others = adds.others;
                running = adds.running;
                kept = λ q o old lasts.
                    ext.kept q o (adds.kept q o old lasts) (is_lasting-not_text o lasts);
              },
              record {
                texts = λ q t other old ne.
                    let (old1, ne1) = texts.texts q t old ne in
                    (freed_other w1 context q (struct_text t) other old1, ne1);
              },
              leaves_free toml w1 context apart1 leaves,
            )
      ]
