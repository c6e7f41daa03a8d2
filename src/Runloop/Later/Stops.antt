-- ===== src/Runloop/Later/Stops.antt =====
-- src/runloop.c: a pass of `run_once_prepare_cb` in which a job ends the process.
use mathlib.Core.Path.{subst}
use righack.Base.{false, refl, ℕ, suc, ◌≡◌, sym, [], ◌∷◌, Bool}
use righack.External.{Uv}
use righack.Machine.{Outcome, and_then, World, Prog, Stop, ok, stop}
use righack.Machine.Access.{load_held}
use righack.Machine.Objects.{null, Ptr, JobCb, as_queue_entry, as_run_once}
use righack.Runloop.Later.{entry, run_job, run_jobs, run_once_prepare_cb}
use righack.Runloop.Later.Chain.{Slot, Slots, first, Waiting}
use righack.Runloop.Later.Drain.{Draining, released, run_job-released, first_live, Draining-Waiting}

module _ {X : Type 0} (call_job : JobCb → Bool → Ptr → Prog X (Unit {0})) where
  run_job_stopped :
      (s : Slot) (ss : Slots) (w v : World X) (r : Stop)
      → Waiting w (s ∷ ss)
      → call_job s.job.cb s.job.should_run s.job.context w ≡ stop r v
      → run_job call_job s.at w ≡ stop r v
  unfolding run_job
  run_job_stopped s ss w v r wt called = rw (
    load_held w s.at _ wt.chain.0.0 as_queue_entry (entry s.run (first ss)) refl,
    load_held w s.run _ wt.chain.0.1 as_run_once s.job refl,
    called,
  )

  -- One round of the loop, whose job returns or ends the process.
  pub round_runs :
      (fuel : ℕ) (s : Slot) (ss ts : Slots) (w w1 : World X)
      → Waiting w (s ∷ ss)
      → call_job s.job.cb s.job.should_run s.job.context w ≡ ok tt w1
      → Waiting w1 (s ∷ ts)
      → (run_jobs call_job (suc fuel) s.at w ≡ run_jobs call_job fuel (first ts) (released w1 s))
        × Draining (released w1 s) ts
  unfolding run_jobs
  round_runs fuel s ss ts w w1 wt called wt1 =
      let (ran, d) = run_job-released call_job s ss ts w w1 wt called wt1 in
      (rw (first_live w s ss wt, ran), d)

  pub round_stops :
      (fuel : ℕ) (s : Slot) (ss : Slots) (w v : World X) (r : Stop)
      → Waiting w (s ∷ ss)
      → call_job s.job.cb s.job.should_run s.job.context w ≡ stop r v
      → run_jobs call_job (suc fuel) s.at w ≡ stop r v
  unfolding run_jobs
  round_stops fuel s ss w v r wt called =
      rw (first_live w s ss wt, run_job_stopped s ss w v r wt called)

  module _ ⦃uv : Uv X⦄ (n : ℕ) (prepare : Ptr) (s : Slot) (w : World X)
      (start : w.run_once_queue ≡ s.at) where
    -- The first job ends the process.
    pub prepare_stopped :
        (v : World X) (r : Stop) (ss : Slots)
        → Waiting w (s ∷ ss)
        → call_job s.job.cb s.job.should_run s.job.context w ≡ stop r v
        → run_once_prepare_cb call_job (suc n) prepare w ≡ stop r v
    unfolding run_once_prepare_cb run_jobs
    prepare_stopped v r ss wt called =
        let ran : run_jobs call_job (suc n) s.at w ≡ stop r v =
          rw (first_live w s ss wt, run_job_stopped s ss w v r wt called) in
        rw (subst (λ p. run_jobs call_job (suc n) p w ≡ stop r v) (sym start) ran)

    -- The second job does, which the first has scheduled.
    pub prepare_stopped_late :
        (t : Slot) (w1 v : World X) (r : Stop)
        → Waiting w (s ∷ [])
        → call_job s.job.cb s.job.should_run s.job.context w ≡ ok tt w1
        → Waiting w1 (s ∷ t ∷ [])
        → call_job t.job.cb t.job.should_run t.job.context (released w1 s) ≡ stop r v
        → run_once_prepare_cb call_job (suc (suc n)) prepare w ≡ stop r v
    unfolding run_once_prepare_cb run_jobs
    prepare_stopped_late t w1 v r wt called1 wt1 called2 =
        let (ran1, d) = run_job-released call_job s [] (t ∷ []) w w1 wt called1 wt1 in
        let wtd = Draining-Waiting (released w1 s) t [] d in
        let stopped = run_job_stopped t [] (released w1 s) v r wtd called2 in
        let ran : run_jobs call_job (suc (suc n)) s.at w ≡ stop r v =
          rw (first_live w s [] wt, ran1, first_live (released w1 s) t [] wtd, stopped) in
        rw (subst (λ p. run_jobs call_job (suc (suc n)) p w ≡ stop r v) (sym start) ran)

  -- The pass as a whole, from what comes of its loop.
  pub prepare_outcome :
      ⦃uv : Uv X⦄ (fuel : ℕ) (prepare : Ptr) (ss : Slots) (w : World X) (o : Outcome X (Unit {0}))
      → w.run_once_queue ≡ first ss
      → run_jobs call_job fuel (first ss) w ≡ o
      → run_once_prepare_cb call_job fuel prepare w
        ≡ and_then o (λ _ v. ok tt (record v {
          run_once_queue = null;
          ext = uv.prepare_stop prepare v.ext;
          run_once_prepare_started = false;
        }))
  unfolding run_once_prepare_cb
  prepare_outcome fuel prepare ss w o start ran =
      rw (subst (λ p. run_jobs call_job fuel p w ≡ o) (sym start) ran)
