-- ===== src/Main/Starts.antt =====
-- src/runloop.c with src/main.c: a pass over the queue that starts the modules of several sections and
-- then delivers the lines of their ports.
use mathlib.Core.List.{append_assoc}
use righack.Base.{
  ℕ, zero, suc, ◌+◌, ◌<◌, ◌≡◌, ◌∙◌, List, [], ◌∷◌, ◌++◌, arith, length, length-append, inl, inr,
  ◌⊎◌, subst, sym, some, Text, bytes,
}
use righack.Configfile.Keys.{HasText, LeavesText, LeavesText-HasKey}
use righack.External.{Uv, Os, Toml, Rig}
use righack.Machine.{World, ok, stop, fatal}
use righack.Machine.Ends.{IsFatal}
use righack.Machine.Extends.{KeepsIf, is_lasting}
use righack.Machine.Objects.{Ptr, DriverInfo, ModuleInfo, Module, struct_text}
use righack.Main.{call_job}
use righack.Main.Deliveries.{deliveries_lem}
use righack.Main.Launched.{IsLaunched, IsSetUp-KeepsIf}
use righack.Main.Ports.{
  IsUp, AreUp, AreUp-KeepsIf, Delivering, AreDelivering, AreDelivering-KeepsIf, IsTop,
  IsTop-KeepsIf,
}
use righack.Main.Ready.{released-KeepsIf}
use righack.Main.Section.{Adds, KeepsOtherTexts, start_module_handler_run-IsLaunched}
use righack.Main.Sections.{Setting, AreStarting, AreStarting-KeepsOtherTexts, Apart, NamesLine}
use righack.Module.{test_module_info}
use righack.Runloop.Later.{run_jobs}
use righack.Runloop.Later.Chain.{Slot, Slots, Waiting, first, Holds}
use righack.Runloop.Later.Drain.{Draining, Draining-Waiting, released}
use righack.Runloop.Later.Stops.{round_runs, round_stops}
use righack.Vserial.{vserial_driver_info}

-- The buffer of the configuration can be used, if starts are left.
abbrev pub HasTextIf : {X : Type 0} → World X → Slots → Type 0
HasTextIf w [] = Unit
HasTextIf w (s ∷ ss) = HasText w

released_text :
    {X : Type 0} (w : World X) (s : Slot) (next q : Ptr) (t : Text)
    → Holds w.cell s next
    → w.cell q ≡ some (struct_text t)
    → (released w s).cell q ≡ some (struct_text t)
released_text w s next q t h held = ground (arith, h, held)

released-HasText :
    {X : Type 0} (w : World X) (s : Slot) (next : Ptr)
    → Holds w.cell s next
    → HasText w
    → HasText (released w s)
released-HasText w s next h (inl unset) = inl unset
released-HasText w s next h (inr (t, held)) = inr (t, released_text w s next w.config_buf t h held)

left_lem :
    {X : Type 0} (toml : Toml X) {root : Ptr} {section : Text} (w : World X) (s : Slot) (next : Ptr)
    (ss : Slots)
    → Holds w.cell s next
    → LeavesText toml root section (bytes "hamlib.serial.port") w
    → NamesLine toml root section ss
    → HasTextIf (released w s) ss
left_lem toml w s next [] h leaves line = tt
left_lem toml w s next (t ∷ ss) h leaves (_, key) =
    released-HasText w s next h (LeavesText-HasKey w leaves key)

module _ {X : Type 0} ⦃uv : Uv X⦄ ⦃os : Os X⦄ ⦃toml : Toml X⦄ ⦃rig : Rig X⦄ where
  abbrev pub IsTopIf : World X → Slots → Type 0
  IsTopIf w [] = IsTop w
  IsTopIf w (s ∷ ss) = Unit

  IsTopIf-IsTop : (w : World X) (ss : Slots) → IsTop w → IsTopIf w ss
  IsTopIf-IsTop w [] t = t
  IsTopIf-IsTop w (s ∷ ss) t = tt

  -- What a start leaves, whose delivery waits behind the starts `ss` and the deliveries `ds`.
  record IsRound (w w' : World X) (ss ds : Slots) (slot : Slot) : Type 0 where
    pub draining : Draining w' (ss ++ (ds ++ slot ∷ []))
    pub starting : AreStarting w' ss
    pub delivering : Delivering w' slot
    pub top : IsTop w'
    pub up : IsUp w' top.handle
    pub has_text : HasTextIf w' ss
    pub kept : KeepsIf is_lasting w.cell w'.cell
    pub same_root : w'.toml_root ≡ w.toml_root
    pub same_drivers : w'.loaded_drivers ≡ w.loaded_drivers
    pub same_modules : w'.loaded_modules ≡ w.loaded_modules
    pub same_loop : w'.thread_loop ≡ w.thread_loop
    pub same_signal : w'.int_signal ≡ w.int_signal

  made-IsRound :
      (w w1 : World X) (p : Ptr) (m : Module) (s : Slot) (c : Setting) (ss ds : Slots)
      → m.info ≡ test_module_info
      → (l : IsLaunched w1 p m (s ∷ (ss ++ ds))) → (adds : Adds w w1 p)
      → KeepsOtherTexts w w1 s.job.context
      → LeavesText toml w.toml_root c.section (bytes "hamlib.serial.port") w1
      → Waiting w1 (s ∷ (ss ++ (ds ++ l.slot ∷ [])))
      → Draining (released w1 s) (ss ++ (ds ++ l.slot ∷ []))
      → Apart s.job.context ss
      → NamesLine toml w.toml_root c.section ss
      → AreStarting w ss
      → IsRound w (released w1 s) ss ds l.slot
  made-IsRound w w1 p m s c ss ds info l adds texts leaves wt1 d apart line rest =
      let next = first (ss ++ (ds ++ l.slot ∷ [])) in
      let kept = released-KeepsIf w1 s next wt1.chain.0 in
      let set_up = IsSetUp-KeepsIf {w' = released w1 s} l.set_up kept in
      record {
        draining = d;
        starting =
            AreStarting-KeepsOtherTexts s.job.context ss rest apart
              (record {
                texts = λ q t other held ne.
                    let (held1, ne1) = texts.texts q t other held ne in
                    (released_text w1 s next q t wt1.chain.0 held1, ne1);
              })
              adds.same_root;
        delivering = record {
          at_module = p;
          module_is = m;
          user = l.user;
          port = l.port;
          context = l.context;
          handle = l.handle;
          set_up = set_up;
          is_delivery = l.is_delivery;
        };
        top = record {
          at_module = p;
          module_is = m;
          user = l.user;
          port = l.port;
          context = l.context;
          handle = l.handle;
          set_up = set_up;
          is_test = info;
          before = l.before;
          calls = l.calls;
          others = adds.others;
          running = adds.running;
        };
        up = record {
          at_module = p;
          module_is = m;
          user = l.user;
          port = l.port;
          context = l.context;
          set_up = set_up;
        };
        has_text = left_lem toml w1 s next ss wt1.chain.0 leaves line;
        kept = λ q o held lasts. kept q o (adds.kept q o held lasts) lasts;
        same_root = adds.same_root;
        same_drivers = adds.same_drivers;
        same_modules = adds.same_modules;
        same_loop = adds.same_loop;
        same_signal = adds.same_signal;
      }

  -- What the whole pass leaves of `w`: `n` handles of polled ports, one of them of the module that
  -- was started last.
  pub record IsPassed (w w' : World X) (n : ℕ) : Type 0 where
    pub top : IsTop w'
    pub handles : List Ptr
    pub are_up : AreUp w' handles
    pub count : length handles ≡ n
    pub kept : KeepsIf is_lasting w.cell w'.cell
    pub same_root : w'.toml_root ≡ w.toml_root
    pub same_drivers : w'.loaded_drivers ≡ w.loaded_drivers
    pub same_modules : w'.loaded_modules ≡ w.loaded_modules
    pub same_loop : w'.thread_loop ≡ w.thread_loop
    pub same_signal : w'.int_signal ≡ w.int_signal

  IsPassed-trans :
      {w w1 w2 : World X} {n k : ℕ} {ss ds : Slots} {slot : Slot}
      → IsRound w w1 ss ds slot
      → IsPassed w1 w2 k
      → k ≡ n
      → IsPassed w w2 n
  IsPassed-trans r p e = record {
    top = p.top;
    handles = p.handles;
    are_up = p.are_up;
    count = p.count ∙ e;
    kept = λ q o held lasts. p.kept q o (r.kept q o held lasts) lasts;
    same_root = p.same_root ∙ r.same_root;
    same_drivers = p.same_drivers ∙ r.same_drivers;
    same_modules = p.same_modules ∙ r.same_modules;
    same_loop = p.same_loop ∙ r.same_loop;
    same_signal = p.same_signal ∙ r.same_signal;
  }

  AreDelivering-append :
      (w : World X) (ds : Slots) (s : Slot)
      → AreDelivering w ds
      → Delivering w s
      → AreDelivering w (ds ++ s ∷ [])
  AreDelivering-append w [] s a d = (d, tt)
  AreDelivering-append w (t ∷ ds) s a d = (a.0, AreDelivering-append w ds s a.1 d)

  module _ (f : ℕ) (drs : List DriverInfo) (ms : List ModuleInfo) where
    -- One start returns, or ends the process.
    start-IsRound :
        (fuel : ℕ) (s : Slot) (ss ds : Slots) (w : World X)
        → Waiting w (s ∷ (ss ++ ds))
        → AreStarting w (s ∷ ss)
        → HasText w
        → w.loaded_drivers ≡ vserial_driver_info ∷ drs
        → w.loaded_modules ≡ test_module_info ∷ ms
        → ((w' : World X) × (slot : Slot) × IsRound w w' ss ds slot
            × (run_jobs (call_job (suc f)) (suc fuel) s.at w
                ≡ run_jobs (call_job (suc f)) fuel (first (ss ++ (ds ++ slot ∷ []))) w'))
          ⊎ IsFatal (run_jobs (call_job (suc f)) (suc fuel) s.at w)
    unfolding call_job
    start-IsRound fuel s ss ds w wt (c, st, apart, line, rest) has drivers modules =
        elim (start_module_handler_run-IsLaunched c.rigid c.section c.name w f s.job.context
          (s ∷ (ss ++ ds)) drs ms wt has drivers modules st.configured st.holds_name st.apart) [
            | inr (m, v, dies, _) ↦ inr (
              m,
              v,
              round_stops (call_job (suc f)) fuel s (ss ++ ds) w v (fatal m) wt (
                  subst (λ j. call_job (suc f) j.cb j.should_run j.context w ≡ stop (fatal m) v)
                    (sym st.is_start) dies),
            )
            | inl (w1, p, m, started, info, l, adds, texts, leaves) ↦
                let wt1 =
                  subst (λ q. Waiting w1 (s ∷ q)) (append_assoc ss ds (l.slot ∷ [])) l.waiting in
                let (ran, d) =
                  round_runs (call_job (suc f)) fuel s (ss ++ ds) (ss ++ (ds ++ l.slot ∷ [])) w w1
                    wt
                    (subst (λ j. call_job (suc f) j.cb j.should_run j.context w ≡ ok tt w1)
                      (sym st.is_start) started)
                    wt1 in
                inl (
                  released w1 s,
                  l.slot,
                  made-IsRound w w1 p m s c ss ds info l adds texts leaves wt1 d apart line rest,
                  ran,
                )
          ]

    -- All starts and then all deliveries return, on enough fuel, or one ends the process.
    pub starts_lem :
        (fuel : ℕ) (ss ds : Slots) (hs : List Ptr) (w : World X)
        → length ss + length ss + length ds < fuel
        → Draining w (ss ++ ds)
        → AreStarting w ss
        → AreDelivering w ds
        → AreUp w hs
        → IsTopIf w ss
        → HasTextIf w ss
        → w.loaded_drivers ≡ vserial_driver_info ∷ drs
        → w.loaded_modules ≡ test_module_info ∷ ms
        → ((w' : World X) × (run_jobs (call_job (suc f)) fuel (first (ss ++ ds)) w ≡ ok tt w')
            × Draining w' []
            × IsPassed w w' (length ss + length hs))
          ⊎ IsFatal (run_jobs (call_job (suc f)) fuel (first (ss ++ ds)) w)
    starts_lem zero ss ds hs w lt d a del up top has drivers modules = absurd (omega (arith, lt))
    starts_lem (suc fuel) [] ds hs w lt d a del up top has drivers modules =
        elim (deliveries_lem (suc f) (suc fuel) ds w (omega (arith, lt)) d del) [
          | inr dies ↦ inr dies
          | inl (w', ran, d', passes) ↦ inl (
            w',
            ran,
            d',
            record {
              top = IsTop-KeepsIf top passes.kept passes.calls passes.same_running;
              handles = hs;
              are_up = AreUp-KeepsIf w w' hs up passes.kept;
              count = omega arith;
              kept = passes.kept;
              same_root = passes.same_root;
              same_drivers = passes.same_drivers;
              same_modules = passes.same_modules;
              same_loop = passes.same_loop;
              same_signal = passes.same_signal;
            },
          )
        ]
    starts_lem (suc fuel) (s ∷ ss) ds hs w lt d a del up top has drivers modules =
        elim (start-IsRound fuel s ss ds w (Draining-Waiting w s (ss ++ ds) d) a has drivers
          modules) [
            | inr dies ↦ inr dies
            | inl (w1, slot, r, ran) ↦
                let more = length-append ds (slot ∷ []) in
                elim (starts_lem fuel ss (ds ++ slot ∷ []) (r.top.handle ∷ hs) w1
                  (omega (arith, lt, more)) r.draining r.starting
                  (AreDelivering-append w1 ds slot (AreDelivering-KeepsIf w w1 ds del r.kept)
                    r.delivering)
                  (r.up, AreUp-KeepsIf w w1 hs up r.kept) (IsTopIf-IsTop w1 ss r.top) r.has_text
                  (r.same_drivers ∙ drivers) (r.same_modules ∙ modules)) [
                    | inr (m, v, dies) ↦ inr (m, v, ran ∙ dies)
                    | inl (w2, looped, d2, passed) ↦
                        inl (w2, ran ∙ looped, d2, IsPassed-trans r passed (omega arith))
                  ]
          ]
