-- ===== src/Main/Interrupt.antt =====
-- src/main.c: what is left when the loop returns control, and what stopping the module then meets.
use righack.Base.{
  ◌+◌, ◌≡◌, refl, ◌≢◌, ◌∙◌, ap, sym, true, some, [], ◌∷◌, ◌++◌, List, arith, ◌==◌, false, Bool,
}
use righack.External.{Uv, Os, Toml, Rig}
use righack.Machine.{World, Prog, Outcome, ok, stop, and_then}
use righack.Machine.Memory.{write, alloc}
use righack.Machine.Objects.{
  uv_prepare, PollPrivate, Object, Ptr, null, uv_signal, struct_poll_private, ModuleInfo,
  DriverInfo,
}
use righack.Main.Calls.{RadioCalls-same_active, HandleLaws, LoopLaws}
use righack.Main.Shutdown.{IsRunning}
use righack.Main.Ready.{IsReady}
use righack.Main.Wired.{Keeps}
use righack.Module.{test_module_info}
use righack.Runloop.Loop.{Event, uv_run, runloop_run}
use righack.Vserial.{poll_mask, vserial_driver_info}
use righack.Machine.Extends.{is_uv}
use righack.Machine.Others.{is_uv-is_lasting}
use righack.Runloop.Poll.{uv_of_events}

is_uv_poll :
    {h : PollPrivate} (o : Object) → some o ≡ some (struct_poll_private h) → is_uv o ≡ true → ⊥
is_uv_poll o e kind = ground (arith, e, kind)

module _ {X : Type 0} ⦃uv : Uv X⦄ where
  -- The state in which `runloop_run` gives control to libuv, when it is called first.
  abbrev pub with_signal : World X → World X
  with_signal w = record w {
    cell = write w.cell w.next (some uv_signal);
    next = w.next + 1;
    int_signal = w.next;
    in_runloop_context = true;
    ext = uv.signal_start w.next (uv.signal_init w.next w.ext);
  }

  abbrev pub returned : World X → World X
  returned w = record w { in_runloop_context = false; ext = uv.signal_stop w.int_signal w.ext }

  pub runloop_run_lem :
      (call_event : Event → Prog X (Unit {0})) (es : List Event) (w : World X)
      → w.thread_loop ≢ null
      → w.int_signal ≡ null
      → runloop_run call_event es w
        ≡ and_then
            (uv_run call_event es (with_signal w))
            (λ _ v. ok (uv.loop_alive v.ext) (returned v))
  unfolding runloop_run alloc
  runloop_run_lem call_event es w there fresh =
      let live : (w.thread_loop == null) ≡ false = ground (arith, there) in
      let unset : (w.int_signal == null) ≡ true = ground (arith, fresh) in rw (live, unset)

  then_append :
      (o : Outcome X (Unit {0})) (some_ all rest : Prog X (Unit {0}))
      → ((v : World X) → all v ≡ and_then (some_ v) (λ _. rest))
      → and_then o (λ _. all) ≡ and_then (and_then o (λ _. some_)) (λ _. rest)
  then_append (ok a v) some_ all rest e = e v
  then_append (stop s v) some_ all rest e = refl

  pub uv_run-append :
      (call_event : Event → Prog X (Unit {0})) (es fs : List Event) (w : World X)
      → uv_run call_event (es ++ fs) w
        ≡ and_then (uv_run call_event es w) (λ _. uv_run call_event fs)
  unfolding uv_run
  uv_run-append call_event [] fs w = refl
  uv_run-append call_event (e ∷ es) fs w =
      then_append (call_event e w) (uv_run call_event es) (uv_run call_event (es ++ fs))
        (uv_run call_event fs) (λ v. uv_run-append call_event es fs v)

module _ {X : Type 0} ⦃uv : Uv X⦄ ⦃os : Os X⦄ ⦃toml : Toml X⦄ ⦃rig : Rig X⦄
    (handles : HandleLaws uv os rig) (loops : LoopLaws uv) (InStep : X → Ptr → Bool → Type 0)
    {prepare : Ptr} {w w' : World X} (r : IsReady InStep prepare w w') where
  -- A block of libuv's is none of the port's.
  pub handle_apart : (q : Ptr) (o : Object) → w.cell q ≡ some o → is_uv o ≡ true → q ≢ r.handle
  handle_apart q o held kind e =
      let now : w'.cell q ≡ some o = r.adds.kept q o held (is_uv-is_lasting o kind) in
      let (_, _, at) = r.set_up.is_polled in
      let other : w'.cell q ≡ some (struct_poll_private r.set_up.private) =
        ap w'.cell (e ∙ sym at) ∙ r.set_up.is_poll.holds_private in
      is_uv_poll o (sym now ∙ other) kind

  polls_read : (uv_of_events poll_mask).readable ≡ true
  unfolding uv_of_events
  polls_read = refl

  -- The handle that the pass has started is active still.
  pub ready_active : w.cell prepare ≡ some uv_prepare → uv.is_active w'.ext r.handle ≡ true
  ready_active held =
      ap (λ x. uv.is_active x r.handle) r.stopped
      ∙ loops.prepare_stops prepare r.after r.handle (handle_apart prepare uv_prepare held refl)
      ∙ RadioCalls-same_active handles r.handle r.calls
      ∙ loops.starts r.handle (uv_of_events poll_mask) r.before polls_read

  -- When events of the port have kept the blocks, the module is one that runs with a polled port.
  pub kept-IsRunning :
      (v : World X) (b : Bool) (x : X)
      → Keeps w' v
      → uv.is_active x r.handle ≡ true
      → (h : IsRunning (record v { in_runloop_context = b; ext = x }) r.at_module)
        × (h.polled.poll.private ≡ r.handle)
  unfolding test_module_info vserial_driver_info
  kept-IsRunning v b x keeps active =
      let s = r.set_up in
      let (_, _, at) = s.is_polled in
      let (user_vserial, _, private_) = s.tied in
      let (bits, context_held) = keeps.contexts r.port r.context s.wired.attached.holds_context in
      (
        record {
          instance_ = record (r.module_is) { private = s.test };
          context = r.user;
          holds_module = keeps.blocks r.at_module _ s.holds_module refl;
          is_test = ap (λ (i : ModuleInfo). i.lifecycle) r.is_test;
          holds_context = keeps.blocks s.test _ s.holds_test refl;
          has_driver = s.there.1;
          polled = record {
            driver = s.driver;
            context = record (r.context) { modem_bits = bits };
            poll = s.poll;
            holds_driver =
                ap v.cell user_vserial
                ∙ keeps.blocks r.context.driver _ s.wired.attached.holds_driver refl;
            is_vserial = ap (λ (i : DriverInfo). i.lifecycle) s.driver_is.0;
            is_unstarted = s.driver_is.1;
            has_context = λ e. s.there.0 (sym private_ ∙ e);
            holds_context = ap v.cell private_ ∙ context_held;
            holds_poll = keeps.blocks r.context.poll _ s.is_poll.holds_poll refl;
            is_active = ap (λ h. uv.is_active x h) at ∙ active;
          };
        },
        at,
      )
