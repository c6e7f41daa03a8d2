-- ===== src/Main/Deliveries.antt =====
-- src/runloop.c with src/drivers/vserial.c and src/modules/test.c: the end of a pass over the queue,
-- where only deliveries of lines are left.
use righack.Base.{
  ℕ, zero, suc, ◌<◌, ◌≡◌, refl, ◌∙◌, [], ◌∷◌, arith, length, inl, inr, ◌⊎◌, subst, sym,
}
use righack.External.{Uv, Os, Toml, Rig}
use righack.Machine.{World, ok, stop, fatal}
use righack.Machine.Ends.{IsFatal}
use righack.Machine.Extends.{KeepsIf, is_lasting}
use righack.Main.{call_job}
use righack.Main.Calls.{RadioCalls, RadioCalls-trans, no_call}
use righack.Main.Ports.{Delivering, AreDelivering, AreDelivering-KeepsIf}
use righack.Main.Ready.{released-KeepsIf}
use righack.Main.Startup.{deliver_set_up}
use righack.Runloop.Later.{run_jobs}
use righack.Runloop.Later.Chain.{Slot, Slots, Waiting, first}
use righack.Runloop.Later.Drain.{Draining, Draining-Waiting, released}
use righack.Runloop.Later.Stops.{round_runs, round_stops}

module _ {X : Type 0} ⦃os : Os X⦄ ⦃rig : Rig X⦄ where
  -- All blocks but texts and those of the queue stay, and outside there were calls of the radio alone.
  pub record Passes (w w' : World X) : Type 0 where
    pub kept : KeepsIf is_lasting w.cell w'.cell
    pub calls : RadioCalls os rig w.ext w'.ext
    pub same_loop : w'.thread_loop ≡ w.thread_loop
    pub same_signal : w'.int_signal ≡ w.int_signal
    pub same_running : w'.running_modules ≡ w.running_modules
    pub same_root : w'.toml_root ≡ w.toml_root
    pub same_drivers : w'.loaded_drivers ≡ w.loaded_drivers
    pub same_modules : w'.loaded_modules ≡ w.loaded_modules

  Passes-trans : {w1 w2 w3 : World X} → Passes w1 w2 → Passes w2 w3 → Passes w1 w3
  Passes-trans a b = record {
    kept = λ q o held e. b.kept q o (a.kept q o held e) e;
    calls = RadioCalls-trans a.calls b.calls;
    same_loop = b.same_loop ∙ a.same_loop;
    same_signal = b.same_signal ∙ a.same_signal;
    same_running = b.same_running ∙ a.same_running;
    same_root = b.same_root ∙ a.same_root;
    same_drivers = b.same_drivers ∙ a.same_drivers;
    same_modules = b.same_modules ∙ a.same_modules;
  }

module _ {X : Type 0} ⦃uv : Uv X⦄ ⦃os : Os X⦄ ⦃toml : Toml X⦄ ⦃rig : Rig X⦄ (job_fuel : ℕ) where
  -- One delivery returns, or ends the process.
  delivery_lem :
      (fuel : ℕ) (s : Slot) (ss : Slots) (w : World X)
      → Waiting w (s ∷ ss)
      → Delivering w s
      → ((w' : World X) × (run_jobs (call_job job_fuel) (suc fuel) s.at w
            ≡ run_jobs (call_job job_fuel) fuel (first ss) w')
          × Draining w' ss
          × Passes w w')
        ⊎ IsFatal (run_jobs (call_job job_fuel) (suc fuel) s.at w)
  unfolding call_job
  delivery_lem fuel s ss w wt d =
      elim (deliver_set_up (λ x h b. Unit) (λ h b x e. tt) w d.at_module d.port d.module_is d.user
        d.context d.handle d.set_up) [
          | inr (m, v, dies, _) ↦ inr (
            m,
            v,
            round_stops (call_job job_fuel) fuel s ss w v (fatal m) wt (
                subst (λ j. call_job job_fuel j.cb j.should_run j.context w ≡ stop (fatal m) v)
                  (sym d.is_delivery) dies),
          )
          | inl (y, delivered, _, calls) ↦
              let w1 : World X = record w { ext = y } in
              let wt1 : Waiting w1 (s ∷ ss) = record {
                formed = wt.formed;
                chain = wt.chain;
                distinct = wt.distinct;
                tail = wt.tail;
              } in
              let (ran, drained) =
                round_runs (call_job job_fuel) fuel s ss ss w w1 wt
                  (subst (λ j. call_job job_fuel j.cb j.should_run j.context w ≡ ok tt w1)
                    (sym d.is_delivery) delivered)
                  wt1 in
              inl (
                released w1 s,
                ran,
                drained,
                record {
                  kept = released-KeepsIf w1 s (first ss) wt1.chain.0;
                  calls = calls;
                  same_loop = refl;
                  same_signal = refl;
                  same_running = refl;
                  same_root = refl;
                  same_drivers = refl;
                  same_modules = refl;
                },
              )
        ]

  -- All of them return, on enough fuel, or one ends the process.
  pub deliveries_lem :
      (fuel : ℕ) (ss : Slots) (w : World X)
      → length ss < fuel
      → Draining w ss
      → AreDelivering w ss
      → ((w' : World X) × (run_jobs (call_job job_fuel) fuel (first ss) w ≡ ok tt w')
          × Draining w' []
          × Passes w w')
        ⊎ IsFatal (run_jobs (call_job job_fuel) fuel (first ss) w)
  unfolding run_jobs
  deliveries_lem zero ss w lt d a = absurd (omega (arith, lt))
  deliveries_lem (suc fuel) [] w lt d a = inl (
    w,
    refl,
    d,
    record {
      kept = λ q o held e. held;
      calls = no_call;
      same_loop = refl;
      same_signal = refl;
      same_running = refl;
      same_root = refl;
      same_drivers = refl;
      same_modules = refl;
    },
  )
  deliveries_lem (suc fuel) (s ∷ ss) w lt d (here, rest) =
      elim (delivery_lem fuel s ss w (Draining-Waiting w s ss d) here) [
        | inr dies ↦ inr dies
        | inl (w1, ran, d1, passes) ↦
            elim (deliveries_lem fuel ss w1 (omega (arith, lt)) d1
              (AreDelivering-KeepsIf w w1 ss rest passes.kept)) [
                | inr (m, v, dies) ↦ inr (m, v, ran ∙ dies)
                | inl (w2, looped, d2, more) ↦ inl (w2, ran ∙ looped, d2, Passes-trans passes more)
              ]
      ]
