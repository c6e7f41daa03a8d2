-- ===== src/Main/Startup.antt =====
-- src/main.c with all of the parts: one pass over the queue that holds the job of one section, and
-- the events of the port behind it.
use righack.Base.{
  true, ◌⊎◌, inl, inr, Bool-cases, bytes, arith, refl, ℕ, suc, ◌≡◌, ◌≢◌, ◌∙◌, subst, sym, Bool,
  false, some, List, ◌∷◌, [], Text, arith,
}
use righack.Configfile.Keys.{HasText}
use righack.External.{Uv, Os, Toml, Rig, UvEvents}
use righack.Machine.{stop, fatal, World, ok}
use righack.Machine.Objects.{
  VserialContext, TestContext, DriverInfo, ModuleInfo, Module, Ptr, null, struct_text,
  start_module_handler, update_flow_control,
}
use righack.Main.{start_module_handler_run, call_fc, call_job, call_event}
use righack.Main.Events.{poll_events, uv_run-keys}
use righack.Main.Launched.{IsLaunched, IsSetUp-KeepsIf, IsSetUp}
use righack.Main.Ptt.{IsKeyed, KeysOrDies}
use righack.Main.Section.{Adds, IsConfigured, start_module_handler_run-IsLaunched}
use righack.Main.Wired.{told, update_refused, rts, update_wired}
use righack.Module.{test_module_info}
use righack.Runloop.Later.{job}
use righack.Runloop.Later.Chain.{Slot, Waiting}
use righack.Runloop.Later.Drain.{
  run_once_prepare_cb-two, released, run_job-released, Draining-Waiting,
}
use righack.Runloop.Loop.{uv_run, prepare_event}
use righack.Vserial.{vserial_driver_info}
use righack.Vserial.Packet.{vserial_deliver_fc_changed}
use righack.Vserial.Packet.Events.{deliver_attached}
use righack.Machine.Ends.{Dies}
use righack.Runloop.Later.Stops.{prepare_stopped, prepare_stopped_late}
use righack.Main.Calls.{no_call, keys, RadioCalls-trans, RadioCalls}
use righack.Main.Ready.{released-KeepsIf, Keying, Runs, IsFollowing, IsReady, IsReady-IsKeyed}

module _ {X : Type 0} ⦃uv : Uv X⦄ ⦃os : Os X⦄ ⦃toml : Toml X⦄ ⦃rig : Rig X⦄ where
  module _ (InStep : X → Ptr → Bool → Type 0)
      (set_law : (h : Ptr) (b : Bool) (x : X)
        → (rig.set_ptt h b x).0 ≡ false
        → InStep (rig.set_ptt h b x).1 h b) where
    -- The delivery brings the radio in step, or the process ends.
    pub deliver_set_up :
        (w : World X) (p port : Ptr) (m : Module) (u : TestContext) (c : VserialContext)
        (handle : Ptr)
        → IsSetUp w p m u port c handle
        → ((y : X) × (vserial_deliver_fc_changed call_fc port w ≡ ok tt (record w { ext = y }))
            × (InStep y u.rig (rts c.modem_bits))
            × RadioCalls os rig w.ext y)
          ⊎ Dies (Keying rig) (vserial_deliver_fc_changed call_fc port w)
    deliver_set_up w p port m u c handle s =
        let called = deliver_attached call_fc w port update_flow_control s.wired.attached in
        elim (Bool-cases (rig.set_ptt u.rig (rts c.modem_bits) w.ext).0) [
          | inl failed ↦ inr (
            bytes "Could not set transmit: %s",
            told w port c.modem_bits s.wired,
            called ∙ update_refused w port c.modem_bits s.wired failed,
            λ k. ground (arith, failed, k.takes u.rig (rts c.modem_bits) w.ext),
          )
          | inr success ↦ inl (
            (rig.set_ptt u.rig (rts c.modem_bits) w.ext).1,
            called ∙ update_wired w port c.modem_bits s.wired success,
            set_law u.rig (rts c.modem_bits) w.ext success,
            keys no_call u.rig (rts c.modem_bits),
          )
        ]

    module _ (rigid : ℕ) (section name : Text)
        (stop_law : (prepare : Ptr) (x : X) (h : Ptr) (b : Bool)
          → InStep x h b
          → InStep (uv.prepare_stop prepare x) h b) where
      -- The rest of that pass, once the job of the section has returned.
      started_pass :
          (w : World X) (n context : ℕ) (prepare : Ptr) (s : Slot)
          → Waiting w (s ∷ [])
          → w.run_once_queue ≡ s.at
          → s.job ≡ job start_module_handler context
          → (w1 : World X) (p : Ptr) (m : Module)
          → start_module_handler_run (suc (suc (suc n))) true context w ≡ ok tt w1
          → m.info ≡ test_module_info
          → IsLaunched w1 p m (s ∷ [])
          → Adds w w1 p
          → ((w' : World X) × (call_event (suc (suc (suc n))) (prepare_event prepare) w ≡ ok tt w')
              × IsReady InStep prepare w w')
            ⊎ Dies
                (Runs os rig name rigid)
                (call_event (suc (suc (suc n))) (prepare_event prepare) w)
      unfolding call_event call_job
      started_pass w n context prepare s wt queue is_start w1 p m started info l adds =
          let fuel = suc (suc (suc n)) in
          let start_called : call_job fuel s.job.cb s.job.should_run s.job.context w ≡ ok tt w1 =
            subst (λ j. call_job fuel j.cb j.should_run j.context w ≡ ok tt w1) (sym is_start)
              started in
          let (_, d) =
            run_job-released (call_job fuel) s [] (l.slot ∷ []) w w1 wt start_called l.waiting in
          let w2 = released w1 s in
          let up2 =
            IsSetUp-KeepsIf {w' = w2} l.set_up
              (released-KeepsIf w1 s l.slot.at l.waiting.chain.0) in
          elim (deliver_set_up w2 p l.port m l.user l.context l.handle up2) [
            | inr (message, v, dies, why) ↦ inr (
              message,
              v,
              prepare_stopped_late (call_job fuel) (suc n) prepare s w queue l.slot w1 v
                  (fatal message) wt start_called l.waiting
                  (subst
                    (λ j. call_job fuel j.cb j.should_run j.context w2 ≡ stop (fatal message) v)
                    (sym l.is_delivery) dies),
              λ r. why r.keying,
            )
            | inl (y, delivered, synced, called) ↦
                let w3 : World X = record w2 { ext = y } in
                let delivery_called : call_job fuel l.slot.job.cb l.slot.job.should_run
                      l.slot.job.context w2
                    ≡ ok tt w3 =
                  subst (λ j. call_job fuel j.cb j.should_run j.context w2 ≡ ok tt w3)
                    (sym l.is_delivery) delivered in
                let wt2 = Draining-Waiting w2 l.slot [] d in
                let wt3 : Waiting w3 (l.slot ∷ []) = record {
                  formed = wt2.formed;
                  chain = wt2.chain;
                  distinct = wt2.distinct;
                  tail = wt2.tail;
                } in
                let w5 : World X = record (released w3 l.slot) {
                  run_once_queue = null;
                  ext = uv.prepare_stop prepare y;
                  run_once_prepare_started = false;
                } in
                let up5 =
                  IsSetUp-KeepsIf {w' = w5} up2 (released-KeepsIf w2 l.slot null wt2.chain.0) in
                inl (
                  w5,
                  run_once_prepare_cb-two (call_job fuel) n prepare s l.slot w w1 w3 wt queue
                      start_called l.waiting delivery_called wt3,
                  record {
                    at_module = p;
                    module_is = m;
                    is_test = info;
                    user = l.user;
                    port = l.port;
                    context = l.context;
                    handle = l.handle;
                    set_up = up5;
                    synced = stop_law prepare y l.user.rig _ synced;
                    before = l.before;
                    after = y;
                    calls = RadioCalls-trans l.calls called;
                    stopped = refl;
                    adds = record {
                      same_loop = adds.same_loop;
                      same_signal = adds.same_signal;
                      same_root = adds.same_root;
                      same_drivers = adds.same_drivers;
                      same_modules = adds.same_modules;
                      others = adds.others;
                      running = adds.running;
                      kept = λ q o old lasts.
                          released-KeepsIf w2 l.slot null wt2.chain.0 q o
                            (released-KeepsIf w1 s l.slot.at l.waiting.chain.0 q o
                              (adds.kept q o old lasts) lasts)
                            lasts;
                    };
                  },
                )
          ]

      -- The pass over a queue that holds the job of the one section ends with the module ready, or the
      -- process ends, and then not all of the calls outside succeed.
      pub run_once_prepare_cb-IsReady :
          (w : World X) (n context : ℕ) (prepare : Ptr) (s : Slot) (ds : List DriverInfo)
          (ms : List ModuleInfo)
          → Waiting w (s ∷ [])
          → w.run_once_queue ≡ s.at
          → s.job ≡ job start_module_handler context
          → HasText w
          → w.loaded_drivers ≡ vserial_driver_info ∷ ds
          → w.loaded_modules ≡ test_module_info ∷ ms
          → IsConfigured toml w.toml_root section name rigid
          → w.cell context ≡ some (struct_text section)
          → context ≢ w.config_buf
          → ((w' : World X) × (call_event (suc (suc (suc n))) (prepare_event prepare) w ≡ ok tt w')
              × IsReady InStep prepare w w')
            ⊎ Dies
                (Runs os rig name rigid)
                (call_event (suc (suc (suc n))) (prepare_event prepare) w)
      unfolding call_event call_job
      run_once_prepare_cb-IsReady w n context prepare s ds ms wt queue is_start has drivers modules
            conf held apart =
          let fuel = suc (suc (suc n)) in
          elim (start_module_handler_run-IsLaunched rigid section name w (suc (suc n)) context
            (s ∷ []) ds ms wt has drivers modules conf held apart) [
              | inr (message, v, dies, why) ↦ inr (
                message,
                v,
                prepare_stopped (call_job fuel) (suc (suc n)) prepare s w queue v (fatal message) []
                    wt
                    (subst
                      (λ j. call_job fuel j.cb j.should_run j.context w ≡ stop (fatal message) v)
                      (sym is_start) dies),
                λ r. why r.works,
              )
              | inl (w1, p, m, started, info, l, adds, _, _) ↦
                  started_pass w n context prepare s wt queue is_start w1 p m started info l adds
            ]

    -- From there the radio stays in step through any events of the port.
    pub IsReady-keeps_on :
        (read_law : (fd : ℕ) (x : X) (h : Ptr) (b : Bool)
          → InStep x h b
          → InStep (os.read fd x).1 h b)
        {prepare : Ptr} {w w' : World X} (r : IsReady InStep prepare w w') (fuel : ℕ)
        (es : List (Bool × UvEvents))
        → KeysOrDies InStep w' r.port (uv_run (call_event fuel) (poll_events r.handle es) w')
    IsReady-keeps_on read_law {w'} r fuel es =
        let (is_cb, at_port, at_handle) = r.set_up.is_polled in
        subst (λ h. KeysOrDies InStep w' r.port (uv_run (call_event fuel) (poll_events h es) w'))
          at_handle
          (subst
            (λ c.
              KeysOrDies InStep w' c
                (uv_run (call_event fuel) (poll_events r.set_up.poll.private es) w'))
            at_port
            (uv_run-keys InStep (λ h b old x was. set_law h b x) read_law fuel r.context.poll
              r.set_up.poll r.set_up.private is_cb w' es r.set_up.is_poll
              (subst (λ c. IsKeyed InStep w' c) (sym at_port) (IsReady-IsKeyed InStep r))))

    pub IsReady-IsFollowing :
        (read_law : (fd : ℕ) (x : X) (h : Ptr) (b : Bool)
          → InStep x h b
          → InStep (os.read fd x).1 h b)
        {prepare : Ptr} {w w' : World X} (r : IsReady InStep prepare w w') (fuel : ℕ)
        (es : List (Bool × UvEvents))
        → IsFollowing InStep fuel es w'
    IsReady-IsFollowing read_law r fuel es = record {
      handle = r.handle;
      port = r.port;
      keyed = IsReady-IsKeyed InStep r;
      keeps_on = IsReady-keeps_on read_law r fuel es;
    }
