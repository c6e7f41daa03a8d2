-- ===== src/Main/Whole.antt =====
-- src/main.c: whole runs of a configuration with sections, from the start of the process to its end.
use righack.Base.{
  zero, ap, ◌+◌, ◌<◌, length, ◌⊎◌, inl, inr, ℕ, suc, ◌≡◌, refl, ◌≢◌, ◌∙◌, subst, sym, inl, Bool,
  true, false, some, List, ◌∷◌, ◌++◌, [], Text, arith,
}
use righack.Configfile.Count.{HasSections}
use righack.External.{Uv, Os, Toml, Rig, UvEvents}
use righack.Machine.{World, Prog, Outcome, ok, stop, fatal, exit, exit_ok, and_then, halt, ◌>>◌}
use righack.Machine.Extends.{any_kind, Extends, Extends-alloc, Extends-weaken}
use righack.Machine.Objects.{Ptr, null, uv_signal, uv_prepare}
use righack.Main.{main, bootstrap, load_and_schedule, schedule_sections, call_event, stop_lifecycle}
use righack.Main.Boot.{loaded_ext, at_start, loaded, Loads, boot_lem}
use righack.Main.Calls.{HandleLaws, LoopLaws, RadioCalls-same_active}
use righack.Main.Interrupt.{
  with_signal, returned, runloop_run_lem, uv_run-append, ready_active, kept-IsRunning, handle_apart,
}
use righack.Main.Shutdown.{signal_closed, destroy_message, runloop_cleanup-running}
use righack.Main.Ready.{IsReady}
use righack.Machine.Ends.{IsFatal}
use righack.Main.Pass.{Anyhow, AreReady, pass_lem}
use righack.Main.Polled.{KeepsOrDies, handle_events, uv_run_keeps, AreUp-ArePolled}
use righack.Main.Sections.{Setting, AreConfigured, AreStarting, AreStarting-KeepsIf, sections_lem}
use righack.Configfile.Keys.{HasText}
use righack.Module.{test_module_info, module_stop_all}
use righack.Vserial.{vserial_driver_info}
use righack.Runloop.Later.Chain.{first, Slots, Waiting, Waiting-Extends}
use righack.Runloop.Loop.{Event, prepare_event, int_event, uv_run, runloop_run, runloop_cleanup}
use righack.Vserial.Built.{HasText-Extends}

then_assoc :
    {X A B C : Type 0} (o : Outcome X A) (f : A → Prog X B) (g : B → Prog X C)
    → and_then o (λ a v. and_then (f a v) g) ≡ and_then (and_then o f) g
then_assoc (ok a v) f g = refl
then_assoc (stop s v) f g = refl

nulls : {A : Type 0} → List A → List Ptr
nulls [] = []
nulls (a ∷ cs) = null ∷ nulls cs

length-nulls : {A : Type 0} (cs : List A) → length (nulls cs) ≡ length cs
unfolding nulls
length-nulls [] = refl
length-nulls (a ∷ cs) = ap suc (length-nulls cs)

module _ {X : Type 0} ⦃uv : Uv X⦄ ⦃os : Os X⦄ ⦃toml : Toml X⦄ ⦃rig : Rig X⦄ where
  -- What follows `runloop_run` in `main`.
  abbrev pub ending : ℕ → List Event → List Event → Prog X (Unit {0})
  ending fuel stopping closing =
      runloop_cleanup (call_event fuel) (module_stop_all stop_lifecycle) stopping closing
      >> halt (exit exit_ok)

  pub main_lem :
      (fuel : ℕ) (path : Text) (running stopping closing : List Event) (w : World X)
      → main fuel (path ∷ []) running stopping closing w
        ≡ and_then ((bootstrap fuel >> load_and_schedule fuel path) w) (λ _ v.
          and_then (runloop_run (call_event fuel) running v) (λ _. ending fuel stopping closing))
  unfolding main
  main_lem fuel path running stopping closing w = then_assoc (bootstrap fuel w) _ _

  loaded-Waiting : (y : X) (root : Ptr) → Waiting (loaded y root) []
  loaded-Waiting y root = record {
    formed = record {
      null_empty = refl;
      next_pos = omega arith;
      rest_empty = λ q le. ground (arith, le);
    };
    chain = tt;
    distinct = tt;
    tail = inl (refl, refl);
  }

  with_signal-Waiting : (w : World X) {ss : Slots} → Waiting w ss → Waiting (with_signal w) ss
  with_signal-Waiting w wt =
      let ext : Extends any_kind w _ = Extends-alloc any_kind w uv_signal w.ext wt.formed in
      let wt' = Waiting-Extends wt (Extends-weaken (λ o e. refl) ext) refl refl in
      record { formed = wt'.formed; chain = wt'.chain; distinct = wt'.distinct; tail = wt'.tail }

  signal_pass :
      (fuel : ℕ) (w1 : World X) (new : Slots) (n : ℕ)
      → n + n + 2 < fuel
      → length new ≡ suc n
      → Waiting w1 new
      → w1.run_once_queue ≡ first new
      → AreStarting (with_signal w1) new
      → HasText (with_signal w1)
      → w1.loaded_drivers ≡ vserial_driver_info ∷ []
      → w1.loaded_modules ≡ test_module_info ∷ []
      → ((w3 : World X) × (call_event fuel (prepare_event 2) (with_signal w1) ≡ ok tt w3)
          × AreReady 2 (with_signal w1) w3 n)
        ⊎ IsFatal (call_event fuel (prepare_event 2) (with_signal w1))
  signal_pass fuel w1 [] n lt count wt queue a has drivers modules = absurd (omega (arith, count))
  signal_pass fuel w1 (s ∷ ss) n lt count wt queue a has drivers modules =
      let same : length ss ≡ n = omega (arith, count) in
      subst
        (λ k.
          ((w3 : World X) × (call_event fuel (prepare_event 2) (with_signal w1) ≡ ok tt w3)
            × AreReady 2 (with_signal w1) w3 k)
          ⊎ IsFatal (call_event fuel (prepare_event 2) (with_signal w1)))
        same
        (pass_lem fuel 2 s ss [] [] (with_signal w1) (omega (arith, lt, same))
          (with_signal-Waiting w1 wt) queue a has drivers modules)

  -- The sections are scheduled, and the first event of the loop runs their jobs, or ends the process.
  sections_pass :
      (start_law : (h : Ptr) (x : X) (root : Ptr) (i : ℕ)
        → toml.key_in (uv.prepare_start h x) root i ≡ toml.key_in x root i)
      (fuel : ℕ) (root : Ptr) (y : X) (c : Setting) (cs : List Setting)
      → length cs + length cs + 2 < fuel
      → AreConfigured y root 0 (c ∷ cs)
      → (w1 : World X) × (schedule_sections (suc (length cs)) 0 (loaded y root) ≡ ok tt w1)
        × (w1.thread_loop ≡ 1)
        × (w1.int_signal ≡ null)
        × ((with_signal w1).cell 2 ≡ some uv_prepare)
        × (((w3 : World X) × (call_event fuel (prepare_event 2) (with_signal w1) ≡ ok tt w3)
              × AreReady 2 (with_signal w1) w3 (length cs))
            ⊎ IsFatal (call_event fuel (prepare_event 2) (with_signal w1)))
  sections_pass start_law fuel root y c cs lt conf =
      let w : World X = loaded y root in
      let (w1, scheduled, sch) =
        sections_lem start_law (c ∷ cs) 0 w [] (loaded-Waiting y root) refl (inl refl) conf.1.loaded
          conf in
      let signal : Extends any_kind w1 _ =
        Extends-alloc any_kind w1 uv_signal w1.ext sch.waiting.formed in
      (
        w1,
        scheduled,
        sch.extends.same_loop,
        sch.extends.same_signal,
        signal.kept 2 uv_prepare (sch.extends.kept 2 uv_prepare refl refl) refl,
        signal_pass fuel w1 sch.new (length cs) lt sch.count sch.waiting sch.queue
            (AreStarting-KeepsIf w1 (with_signal w1) sch.new sch.starting
              (λ q o held fixed. signal.kept q o held refl) refl refl)
            (HasText-Extends any_kind (λ t. refl) sch.has_text signal refl) sch.extends.same_drivers
            sch.extends.same_modules,
      )

  module _ (handles : HandleLaws uv os rig) (loops : LoopLaws uv) {prepare : Ptr} {w w' : World X}
      (r : IsReady Anyhow prepare w w') (fuel : ℕ) (stopping closing : List Event) where
    -- Behind the events of the port the user interrupts the program, which ends in the destruction
    -- of the poll handle.
    interrupted_lem :
        (o : Outcome X (Unit {0}))
        → KeepsOrDies w' o
        → w.cell prepare ≡ some uv_prepare
        → w.cell w.int_signal ≡ some uv_signal
        → w.thread_loop ≢ null
        → (m : Text) × (v : World X) × (and_then
              (and_then
                (and_then o (λ _. uv_run (call_event fuel) (int_event ∷ [])))
                (λ _ v. ok (uv.loop_alive v.ext) (returned v)))
              (λ _. ending fuel stopping closing)
            ≡ stop (fatal m) v)
    unfolding uv_run call_event
    interrupted_lem (stop s v) (m, e) prepared signal loop = (m, v, rw e)
    interrupted_lem (ok a v) keeps prepared signal loop =
        let x1 = uv.stop_loop v.thread_loop v.ext in
        let x2 = uv.signal_stop v.int_signal x1 in
        let same_signal : v.int_signal ≡ w.int_signal = keeps.same_signal ∙ r.adds.same_signal in
        let apart : v.int_signal ≢ r.handle = λ e.
          handle_apart handles loops Anyhow r w.int_signal uv_signal signal refl
            (sym same_signal ∙ e) in
        let active : uv.is_active x2 r.handle ≡ true =
          loops.signal_stops v.int_signal x1 r.handle apart
          ∙ loops.loop_stops v.thread_loop v.ext r.handle
          ∙ RadioCalls-same_active handles r.handle keeps.calls
          ∙ ready_active handles loops Anyhow r prepared in
        let (running, at) = kept-IsRunning handles loops Anyhow r v false x2 keeps active in
        let ended =
          runloop_cleanup-running loops.closes (call_event fuel) stopping closing
            (record v { in_runloop_context = false; ext = x2 }) r.at_module r.adds.others
            (λ e. loop (sym r.adds.same_loop ∙ sym keeps.same_loop ∙ e))
            (keeps.same_running ∙ r.adds.running) running (λ e. apart (e ∙ at)) in
        (
          destroy_message,
          signal_closed (record v { in_runloop_context = false; ext = x2 }),
          rw ended,
        )

  -- Suppose that the configuration file can be read and lists sections, at least one, each of
  -- which has what the module reads, and each but the last also the radio's line; that libuv's
  -- start of the prepare handle leaves the configuration alone; that a poll handle is active once
  -- `uv_poll_start` was called for it with the events of a port, as it is where that does not
  -- fail; that neither hamlib nor `read` touches libuv's handles, and libuv's own calls only those
  -- that they name; and that the fuel exceeds twice the number of sections. Then, whichever of the
  -- calls that open the ports and the radios or use them fail, there are as many handles as
  -- sections such that `main`, when libuv first runs the queue, then reports any events of those
  -- handles in any order and at last the interrupt, ends by `util_fatal`, whatever it calls back
  -- after that: no memory fault is possible, and the process never ends with `exit_ok`.
  pub main-ends_fatal :
      (start_law : (h : Ptr) (x : X) (root : Ptr) (i : ℕ)
        → toml.key_in (uv.prepare_start h x) root i ≡ toml.key_in x root i)
      (handles : HandleLaws uv os rig) (loops : LoopLaws uv) (fuel : ℕ) (path : Text) (root : Ptr)
      (x : X) (c : Setting) (cs : List Setting)
      → length cs + length cs + 2 < fuel
      → Loads os toml path root
      → HasSections (loaded (loaded_ext path x) root) (suc (length cs))
      → AreConfigured (loaded_ext path x) root 0 (c ∷ cs)
      → (h : Ptr) × (hs : List Ptr) × (length hs ≡ length cs)
        × ((es : List (ℕ × Bool × UvEvents)) (stopping closing : List Event)
            → (m : Text) × (v : World X) × (main fuel
                  (path ∷ [])
                  (prepare_event 2 ∷ (handle_events h hs es ++ int_event ∷ []))
                  stopping
                  closing
                  (at_start x)
                ≡ stop (fatal m) v))
  unfolding uv_run
  main-ends_fatal start_law handles loops zero path root x c cs lt loads has conf =
      absurd (omega (arith, lt))
  main-ends_fatal start_law handles loops (suc f) path root x c cs lt loads has conf =
      let fuel = suc f in
      let y = loaded_ext path x in
      let boots = boot_lem f (suc (length cs)) path root x loads has (omega (arith, lt)) in
      let (w1, scheduled, loop, unset, prepared, pass) =
        sections_pass start_law fuel root y c cs lt conf in
      let there : w1.thread_loop ≢ null = λ e. omega (arith, loop, e) in
      elim pass [
        | inl (w3, passed, a) ↦ (
          a.handle,
          a.handles,
          a.count,
          λ es stopping closing.
              let o = uv_run (call_event fuel) (handle_events a.handle a.handles es) w3 in
              let kept =
                uv_run_keeps fuel w3 a.handle a.handles es
                  (AreUp-ArePolled a.handle a.handles a.are_up) in
              let (m, v, ended) =
                interrupted_lem handles loops a.ready fuel stopping closing o kept prepared
                  (ground arith) there in
              (
                m,
                v,
                main_lem fuel path _ stopping closing (at_start x)
                    ∙ rw
                        (
                          boots,
                          scheduled,
                          runloop_run_lem (call_event fuel) _ w1 there unset,
                          passed,
                          uv_run-append (call_event fuel) (handle_events a.handle a.handles es)
                              (int_event ∷ []) w3,
                        )
                        ended,
              ),
        )
        | inr (m, v, dies) ↦ (
          null,
          nulls cs,
          length-nulls cs,
          λ es stopping closing. (
            m,
            v,
            main_lem fuel path _ stopping closing (at_start x)
                ∙ rw (boots, scheduled, runloop_run_lem (call_event fuel) _ w1 there unset, dies)
                    refl,
          ),
        )
      ]
