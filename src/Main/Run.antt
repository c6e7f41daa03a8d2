-- ===== src/Main/Run.antt =====
-- src/main.c: from the loaded configuration with one section to the events of its port.
use righack.Base.{
  if◌then◌else◌, ◌++◌, ◌⊎◌, ℕ, suc, ◌+◌, ◌≡◌, refl, ◌≢◌, ◌∙◌, subst, sym, inl, inr, Bool, true,
  false, some, List, ◌∷◌, [], Text, arith, ◌==◌,
}
use righack.Configfile.{configfile_get_section_name}
use righack.Configfile.Buffer.{guard_loaded}
use righack.Configfile.Keys.{HasText}
use righack.External.{Uv, Os, Toml, Rig, UvEvents}
use righack.Machine.{World, ok, ◌>>◌}
use righack.Machine.Access.{held_lt_next}
use righack.Machine.Extends.{
  any_kind, is_fixed, Extends, Extends-alloc, Extends-weaken, Extends-trans,
}
use righack.Machine.Memory.{alloc, write}
use righack.Machine.Objects.{DriverInfo, ModuleInfo, Ptr, null, struct_text, start_module_handler}
use righack.Main.{call_event, schedule_section}
use righack.Main.Section.{IsConfigured}
use righack.Main.Startup.{run_once_prepare_cb-IsReady, IsReady-IsFollowing}
use righack.Main.Ready.{Runs, IsFollowing}
use righack.Module.{test_module_info}
use righack.Runloop.Later.Drain.{first_live}
use righack.Runloop.Later.Chain.{Slot, Slots, first, Waiting, Waiting-Extends}
use righack.Runloop.Later.Schedule.{new_slot, runloop_run_later-Waiting}
use righack.Runloop.Loop.{prepare_event}
use righack.Vserial.{vserial_driver_info}
use righack.Vserial.Built.{HasText-Extends}
use righack.Machine.Ends.{Dies}

-- The first entry stays the first when a job is put behind those that wait.
queue_first :
    {X : Type 0} (w : World X) (ss : Slots) (s : Slot)
    → Waiting w ss
    → w.run_once_queue ≡ first ss
    → (if w.run_once_queue == null then s.at else w.run_once_queue) ≡ first (ss ++ s ∷ [])
queue_first w [] s wt e = let t : (w.run_once_queue == null) ≡ true = ground (arith, e) in rw t
queue_first w (t ∷ ss) s wt e =
    let live : (w.run_once_queue == null) ≡ false = rw e (first_live w t ss wt) in rw live e

pub queue_empty : {X : Type 0} (w : World X) → Waiting w [] → w.run_once_queue ≡ null
queue_empty w wt = elim wt.tail [ inl (_, e) ↦ e | inr (_, l) ↦ absurd l ]

module _ {X : Type 0} ⦃uv : Uv X⦄ ⦃os : Os X⦄ ⦃toml : Toml X⦄ ⦃rig : Rig X⦄ where
  -- The state with the copy of the section's name.
  abbrev pub named : World X → Text → World X
  named w section = record w {
    cell = write w.cell w.next (some (struct_text section));
    next = w.next + 1;
  }

  -- The job of a section waits behind the others, and its name is apart from `config_buf`.
  pub scheduled_lem :
      (w : World X) (i : ℕ) (section : Text) (ss : Slots)
      → Waiting w ss
      → w.run_once_queue ≡ first ss
      → HasText w
      → w.toml_root ≢ null
      → toml.key_in w.ext w.toml_root i ≡ some section
      → (w' : World X) × (schedule_section i w ≡ ok tt w')
        × Waiting w' (ss ++ new_slot (named w section) start_module_handler w.next ∷ [])
        × (w'.run_once_queue
            ≡ first (ss ++ new_slot (named w section) start_module_handler w.next ∷ []))
        × Extends is_fixed w w'
        × HasText w'
        × (w'.cell w.next ≡ some (struct_text section))
        × (w.next ≢ w'.config_buf)
        × (w'.config_buf ≡ w.config_buf)
        × (w'.ext ≡ (
            if w.run_once_prepare_started
            then w.ext
            else uv.prepare_start w.run_once_prepare w.ext))
  unfolding schedule_section configfile_get_section_name alloc
  scheduled_lem w i section ss wt start has root listed =
      let ext1 : Extends any_kind w (named w section) =
        Extends-alloc any_kind w (struct_text section) w.ext wt.formed in
      let (w', later, wt', outside, queue, ext, buf) =
        runloop_run_later-Waiting start_module_handler w.next (named w section) ss
          (Waiting-Extends wt (Extends-weaken (λ o e. refl) ext1) refl refl) in
      (
        w',
        rw (guard_loaded w root, listed, later),
        wt',
        queue ∙ queue_first w ss (new_slot (named w section) start_module_handler w.next) wt start,
        Extends-trans (Extends-weaken (λ o e. refl) ext1) ext,
        HasText-Extends is_fixed (λ t. refl) (HasText-Extends any_kind (λ t. refl) has ext1 refl)
            ext buf,
        ext.kept w.next _ (ground arith) refl,
        λ e. elim has [
          | inl unset ↦ omega (arith, e, buf, unset, wt.formed.next_pos)
          | inr (t, held) ↦ omega (arith, e, buf, held_lt_next w w.config_buf _ held wt.formed)
        ],
        buf,
        outside,
      )

  module _ (InStep : X → Ptr → Bool → Type 0)
      (set_law : (h : Ptr) (b : Bool) (x : X)
        → (rig.set_ptt h b x).0 ≡ false
        → InStep (rig.set_ptt h b x).1 h b)
      (read_law : (fd : ℕ) (x : X) (h : Ptr) (b : Bool)
        → InStep x h b
        → InStep (os.read fd x).1 h b)
      (stop_law : (prepare : Ptr) (x : X) (h : Ptr) (b : Bool)
        → InStep x h b
        → InStep (uv.prepare_stop prepare x) h b)
      (rigid : ℕ) (section name : Text) where
    -- Suppose that setting push-to-talk sets it where it succeeds, while reading the port and
    -- stopping the prepare handle leave it as it is; that no job waits; that the driver and the
    -- module are registered last; and that the configuration is loaded, lists a section at `i`, and
    -- has in it what the module reads. Then scheduling the section, and the pass over the queue
    -- behind it, which starts the module and delivers the port's lines, either return with a port
    -- whose radio is in step with the lines that the driver keeps, and through any events that libuv
    -- then reports for the port's handle it stays in step, or the process ends by `util_fatal`. Or
    -- they end the process by `util_fatal`, and then the calls that open the port and the radio and
    -- set push-to-talk do not always succeed, or give a path, or there is a name, that does not fit
    -- into PATH_MAX, or at the port's name there can be something else than a symlink, or a symlink
    -- that cannot be read and replaced.
    pub schedule_section-IsFollowing :
        (w : World X) (n i : ℕ) (prepare : Ptr) (ds : List DriverInfo) (ms : List ModuleInfo)
        (es : List (Bool × UvEvents))
        → Waiting w []
        → HasText w
        → w.loaded_drivers ≡ vserial_driver_info ∷ ds
        → w.loaded_modules ≡ test_module_info ∷ ms
        → IsConfigured toml w.toml_root section name rigid
        → toml.key_in w.ext w.toml_root i ≡ some section
        → ((w' : World X) × ((schedule_section i
                  >> call_event (suc (suc (suc n))) (prepare_event prepare))
                w
              ≡ ok tt w')
            × IsFollowing InStep (suc (suc (suc n))) es w')
          ⊎ Dies
              (Runs os rig name rigid)
              ((schedule_section i >> call_event (suc (suc (suc n))) (prepare_event prepare)) w)
    schedule_section-IsFollowing w n i prepare ds ms es wt has drivers modules conf listed =
        let (w1, scheduled, wt1, queue, ext, has1, held, apart, _, _) =
          scheduled_lem w i section [] wt (queue_empty w wt) has conf.loaded listed in
        elim (run_once_prepare_cb-IsReady InStep set_law rigid section name stop_law w1 n w.next
          prepare (new_slot (named w section) start_module_handler w.next) ds ms wt1 queue refl has1
          (ext.same_drivers ∙ drivers) (ext.same_modules ∙ modules)
          (subst (λ r. IsConfigured toml r section name rigid) (sym ext.same_root) conf) held
          apart) [
            | inl (w2, passed, ready) ↦ inl (
              w2,
              rw (scheduled, passed),
              IsReady-IsFollowing InStep set_law read_law ready (suc (suc (suc n))) es,
            )
            | inr (message, v, dies, why) ↦ inr (message, v, rw (scheduled, dies) refl, why)
          ]
