-- ===== src/Main/Synced.antt =====
-- src/runloop.c with src/drivers/vserial.c and src/modules/test.c: a run of the loop that delivers the
-- lines of several ports for the first time, and then reports events of theirs.
use righack.Base.{
  ◌+◌, ℕ, zero, suc, ◌<◌, ◌≡◌, ◌≢◌, refl, ◌∙◌, subst, sym, Bool, Bool-cases, false, List, [], ◌∷◌,
  arith, length, inl, inr, ◌⊎◌, bytes,
}
use righack.External.{Uv, Os, Toml, Rig, UvEvents}
use righack.Machine.{World, ok, stop, fatal}
use righack.Machine.Ends.{IsFatal}
use righack.Machine.Extends.{KeepsIf, is_lasting}
use righack.Machine.Objects.{null, Ptr, update_flow_control}
use righack.Main.{call_event, call_job, call_fc}
use righack.Main.Launched.{IsSetUp-KeepsIf}
use righack.Main.Followed.{Wire, AreApart, wire_events}
use righack.Main.Radios.{uv_run-AreFollowed}
use righack.Main.Ready.{released-KeepsIf}
use righack.Main.Wired.{rts, told, update_wired, update_refused}
use righack.Runloop.Later.{run_jobs}
use righack.Runloop.Later.Chain.{Slot, Slots, Waiting, first}
use righack.Runloop.Later.Drain.{Draining, Draining-Waiting, Waiting-Draining, released}
use righack.Runloop.Later.Stops.{round_runs, round_stops, prepare_outcome}
use righack.Runloop.Loop.{prepare_event, uv_run}
use righack.Vserial.Packet.Events.{deliver_attached}
use righack.Main.Awaited.{
  stopped_all, Brings-trans, Brings, synced_lem, SyncedOrDies, all_lem, IsSetUp-IsFollowed,
  IsFollowed-KeepsIf, AreAwaited-KeepsIf, AreAwaited, IsAwaited,
}

module _ {X : Type 0} ⦃uv : Uv X⦄ ⦃os : Os X⦄ ⦃toml : Toml X⦄ ⦃rig : Rig X⦄
    (InStep : X → Ptr → Bool → Type 0)
    (set_law : (h : Ptr) (b : Bool) (x : X)
      → (rig.set_ptt h b x).0 ≡ false
      → InStep (rig.set_ptt h b x).1 h b)
    (other_law : (h g : Ptr) (b b' : Bool) (x : X)
      → g ≢ h
      → InStep x g b'
      → InStep (rig.set_ptt h b x).1 g b') where
  -- One delivery brings its radio in step, and leaves the other ones as they are.
  told_lem :
      (w : World X) (s : Slot) (next : Ptr) (a : Wire) (d : IsAwaited w s a)
      → KeepsIf is_lasting w.cell (released w s).cell
      → (rig.set_ptt d.user.rig (rts d.context.modem_bits) w.ext).0 ≡ false
      → Brings InStep w
          (record (released w s) {
            ext = (rig.set_ptt d.user.rig (rts d.context.modem_bits) w.ext).1;
          })
          (a ∷ [])
  told_lem w s next a d kept success =
      let bits = d.context.modem_bits in
      let y = (rig.set_ptt d.user.rig (rts bits) w.ext).1 in
      let w1 : World X = record (released w s) { ext = y } in
      record {
        kept = kept;
        all = (
          IsSetUp-IsFollowed InStep w1 d.at_module d.port a.0 a.1 d.module_is d.user d.context
              (IsSetUp-KeepsIf {w' = w1} d.set_up kept) d.at_radio
              (subst (λ g. InStep y g (rts bits)) d.at_radio
                (set_law d.user.rig (rts bits) w.ext success)),
          tt,
        );
        others = λ g r free f.
            IsFollowed-KeepsIf InStep w w1 g r kept
              (λ b was.
                other_law d.user.rig r (rts bits) b w.ext (λ e. free.0 (sym (e ∙ d.at_radio))) was)
              f;
      }

  module _ (job_fuel : ℕ) where
    one_lem :
        (fuel : ℕ) (s : Slot) (ss : Slots) (a : Wire) (w : World X)
        → Waiting w (s ∷ ss)
        → IsAwaited w s a
        → ((w' : World X) × (run_jobs (call_job job_fuel) (suc fuel) s.at w
              ≡ run_jobs (call_job job_fuel) fuel (first ss) w')
            × Draining w' ss
            × Brings InStep w w' (a ∷ []))
          ⊎ IsFatal (run_jobs (call_job job_fuel) (suc fuel) s.at w)
    unfolding call_job
    one_lem fuel s ss a w wt d =
        let bits = d.context.modem_bits in
        let wired = d.set_up.wired in
        let called = deliver_attached call_fc w d.port update_flow_control wired.attached in
        elim (Bool-cases (rig.set_ptt d.user.rig (rts bits) w.ext).0) [
          | inl failed ↦
              let v = told w d.port bits wired in
              inr (
                bytes "Could not set transmit: %s",
                v,
                round_stops (call_job job_fuel) fuel s ss w v
                    (fatal (bytes "Could not set transmit: %s")) wt
                    (subst
                      (λ j.
                        call_job job_fuel j.cb j.should_run j.context w
                        ≡ stop (fatal (bytes "Could not set transmit: %s")) v)
                      (sym d.is_delivery) (called ∙ update_refused w d.port bits wired failed)),
              )
          | inr success ↦
              let w1 : World X = told w d.port bits wired in
              let wt1 : Waiting w1 (s ∷ ss) = record {
                formed = wt.formed;
                chain = wt.chain;
                distinct = wt.distinct;
                tail = wt.tail;
              } in
              let (ran, drained) =
                round_runs (call_job job_fuel) fuel s ss ss w w1 wt
                  (subst (λ j. call_job job_fuel j.cb j.should_run j.context w ≡ ok tt w1)
                    (sym d.is_delivery) (called ∙ update_wired w d.port bits wired success))
                  wt1 in
              inl (
                released w1 s,
                ran,
                drained,
                told_lem w s (first ss) a d (released-KeepsIf w s (first ss) wt.chain.0) success,
              )
        ]

    -- All of them return, on enough fuel, or one ends the process.
    each_lem :
        (fuel : ℕ) (ss : Slots) (wires : List Wire) (w : World X)
        → length ss < fuel
        → Draining w ss
        → AreAwaited w ss wires
        → AreApart wires
        → ((w' : World X) × (run_jobs (call_job job_fuel) fuel (first ss) w ≡ ok tt w')
            × Brings InStep w w' wires)
          ⊎ IsFatal (run_jobs (call_job job_fuel) fuel (first ss) w)
    unfolding run_jobs
    each_lem zero ss wires w lt d a apart = absurd (omega (arith, lt))
    each_lem (suc fuel) [] (b ∷ wires) w lt d a apart = absurd a
    each_lem (suc fuel) (s ∷ ss) [] w lt d a apart = absurd a
    each_lem (suc fuel) [] [] w lt d a apart =
        inl (w, refl, record { kept = λ q o held e. held; all = tt; others = λ g r free f. f })
    each_lem (suc fuel) (s ∷ ss) (b ∷ wires) w lt d (here, rest) (free, apart) =
        elim (one_lem fuel s ss b w (Draining-Waiting w s ss d) here) [
          | inr dies ↦ inr dies
          | inl (w1, ran, d1, one) ↦
              elim (each_lem fuel ss wires w1 (omega (arith, lt)) d1
                (AreAwaited-KeepsIf w w1 ss wires rest one.kept) apart) [
                  | inr (m, v, dies) ↦ inr (m, v, ran ∙ dies)
                  | inl (w2, looped, more) ↦
                      inl (w2, ran ∙ looped, Brings-trans InStep b wires free one more)
                ]
        ]

  -- Suppose that the queue holds the first deliveries of ports, each wired to a radio of its own, and
  -- that the fuel exceeds their number. When libuv runs the queue and then reports any events of the
  -- ports' handles, in any order, errors and all masks included, every radio is in the end in step
  -- with the lines that the driver keeps for its own port, whatever it did before; or the process
  -- ends by `util_fatal`. No memory fault is possible. Setting a radio is taken to bring it in step
  -- and to leave the other ones as they are, and neither `read` nor the stop of the prepare handle to
  -- change one.
  pub uv_run-SyncedOrDies :
      (read_law : (fd : ℕ) (x : X) (h : Ptr) (b : Bool)
        → InStep x h b
        → InStep (os.read fd x).1 h b)
      (stop_law : (prepare : Ptr) (x : X) (h : Ptr) (b : Bool)
        → InStep x h b
        → InStep (uv.prepare_stop prepare x) h b)
      (fuel : ℕ) (w : World X) (prepare : Ptr) (s : Slot) (ss : Slots) (a : Wire)
      (wires : List Wire) (es : List (ℕ × Bool × UvEvents))
      → length ss + 1 < fuel
      → Waiting w (s ∷ ss)
      → w.run_once_queue ≡ s.at
      → AreAwaited w (s ∷ ss) (a ∷ wires)
      → AreApart (a ∷ wires)
      → SyncedOrDies InStep a wires
          (uv_run (call_event fuel) (prepare_event prepare ∷ wire_events a wires es) w)
  unfolding uv_run call_event
  uv_run-SyncedOrDies read_law stop_law fuel w prepare s ss a wires es lt wt queue awaited apart =
      elim (each_lem fuel fuel (s ∷ ss) (a ∷ wires) w (omega (arith, lt))
        (Waiting-Draining w (s ∷ ss) wt) awaited apart) [
          | inr (m, v, dies) ↦
              rw (prepare_outcome (call_job fuel) fuel prepare (s ∷ ss) w _ queue dies) (m, refl)
          | inl (w1, ran, b) ↦
              let w2 : World X = record w1 {
                run_once_queue = null;
                ext = uv.prepare_stop prepare w1.ext;
                run_once_prepare_started = false;
              } in
              rw (prepare_outcome (call_job fuel) fuel prepare (s ∷ ss) w _ queue ran) (
                synced_lem InStep w2 a wires _ (
                  uv_run-AreFollowed InStep (λ h b old x was. set_law h b x) other_law read_law fuel
                    w2 a wires es apart
                    (all_lem InStep w2 a wires
                      (stopped_all InStep prepare stop_law w1 (a ∷ wires) b.all))))
        ]
