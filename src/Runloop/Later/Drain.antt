-- ===== src/Runloop/Later/Drain.antt =====
-- src/runloop.c: the rounds of `run_once_prepare_cb`, whose callbacks may schedule further jobs.
use mathlib.Core.Path.{subst}
use righack.Base.{ℕ, suc, ◌≡◌, refl, ◌≢◌, sym, inr, none, some, [], ◌∷◌, arith, false, Bool, ◌==◌}
use righack.External.{Uv}
use righack.Machine.{World, Prog, ok}
use righack.Machine.Access.{IsHeap, write-IsHeap, load_held, free_held, held_ne_null}
use righack.Machine.Memory.{write, free}
use righack.Machine.Objects.{Ptr, null, JobCb, struct_queue_entry, as_queue_entry, as_run_once}
use righack.Runloop.Later.{entry, run_job, run_jobs, run_once_prepare_cb}
use righack.Runloop.Later.Chain.{Slot, Slots, first, IsLast, Chain, Distinct, Waiting, Chain-write}

abbrev pub Tail : {X : Type 0} → World X → Slots → Type 0
Tail w [] = Unit
Tail w (s ∷ ss) = (w.run_once_queue ≢ null) × IsLast w.run_once_last (s ∷ ss)

-- The queue within a pass, when no job is running.
pub record Draining {X : Type 0} (w : World X) (ss : Slots) : Type 0 where
  pub formed : IsHeap w.cell w.next
  pub chain : Chain w.cell ss
  pub distinct : Distinct ss
  pub tail : Tail w ss

-- What is left of `w` when the first entry and its job are freed.
abbrev pub released : {X : Type 0} → World X → Slot → World X
released w s = record w { cell = write (write w.cell s.run none) s.at none }

module _ {X : Type 0} where
  IsLast-Tail :
      (s : Slot) (ss : Slots) (w : World X)
      → w.run_once_queue ≢ null
      → IsLast w.run_once_last (s ∷ ss)
      → Tail w ss
  IsLast-Tail s [] w ne l = tt
  IsLast-Tail s (t ∷ ss) w ne l = (ne, l)

  pub Draining-Waiting :
      (w : World X) (s : Slot) (ss : Slots) → Draining w (s ∷ ss) → Waiting w (s ∷ ss)
  Draining-Waiting w s ss d = record {
    formed = d.formed;
    chain = d.chain;
    distinct = d.distinct;
    tail = inr d.tail;
  }

  Waiting-Tail : (w : World X) (s : Slot) (ss : Slots) → Waiting w (s ∷ ss) → Tail w (s ∷ ss)
  Waiting-Tail w s ss wt = ground arith

  -- The queue at the start of a pass.
  pub Waiting-Draining : (w : World X) (ss : Slots) → Waiting w ss → Draining w ss
  Waiting-Draining w [] wt = record { formed = wt.formed; chain = tt; distinct = tt; tail = tt }
  Waiting-Draining w (s ∷ ss) wt = record {
    formed = wt.formed;
    chain = wt.chain;
    distinct = wt.distinct;
    tail = Waiting-Tail w s ss wt;
  }

  -- The two calls of `free` succeed, and leave the rest of the queue.
  release_lem :
      (w : World X) (s : Slot) (ss : Slots)
      → Waiting w (s ∷ ss)
      → (free s.run w ≡ ok tt (record w { cell = write w.cell s.run none }))
        × (free s.at (record w { cell = write w.cell s.run none }) ≡ ok tt (released w s))
        × Draining (released w s) ss
  release_lem w s ss wt =
      let mid : World X = record w { cell = write w.cell s.run none } in
      let held : mid.cell s.at ≡ some (struct_queue_entry (entry s.run (first ss))) =
        ground (arith, wt.chain) in
      let h1 = write-IsHeap w.cell w.next s.run none wt.formed wt.chain.0.1 in
      (
        free_held w s.run _ wt.chain.0.1 (held_ne_null w s.run _ wt.chain.0.1 wt.formed),
        free_held mid s.at _ held (held_ne_null mid s.at _ held h1),
        record {
          formed = write-IsHeap mid.cell w.next s.at none h1 held;
          chain =
              Chain-write mid.cell s.at none ss
                (Chain-write w.cell s.run none ss wt.chain.1 wt.distinct.1) wt.distinct.0;
          distinct = wt.distinct.2;
          tail = let t = Waiting-Tail w s ss wt in IsLast-Tail s ss (released w s) t.0 t.1;
        },
      )

-- One round whose job is run: its blocks are freed, and the rest of the queue is left.
pub run_job-released :
    {X : Type 0} (call_job : JobCb → Bool → Ptr → Prog X (Unit {0})) (s : Slot) (ss ts : Slots)
    (w w1 : World X)
    → Waiting w (s ∷ ss)
    → call_job s.job.cb s.job.should_run s.job.context w ≡ ok tt w1
    → Waiting w1 (s ∷ ts)
    → (run_job call_job s.at w ≡ ok (first ts) (released w1 s)) × Draining (released w1 s) ts
unfolding run_job
run_job-released call_job s ss ts w w1 wt called wt1 =
    let (freed_run, freed_at, d) = release_lem w1 s ts wt1 in
    (
      rw (
        load_held w s.at _ wt.chain.0.0 as_queue_entry (entry s.run (first ss)) refl,
        load_held w s.run _ wt.chain.0.1 as_run_once s.job refl,
        called,
        load_held w1 s.at _ wt1.chain.0.0 as_queue_entry (entry s.run (first ts)) refl,
        freed_run,
        freed_at,
      ),
      d,
    )

pub first_live :
    {X : Type 0} (w : World X) (s : Slot) (ss : Slots) → Waiting w (s ∷ ss) → (s.at == null) ≡ false
first_live w s ss wt = ground (arith, held_ne_null w s.at _ wt.chain.0.0 wt.formed)

-- A pass over one job that schedules one further job.
pub run_once_prepare_cb-two :
    {X : Type 0} ⦃uv : Uv X⦄ (call_job : JobCb → Bool → Ptr → Prog X (Unit {0})) (n : ℕ)
    (prepare : Ptr) (s t : Slot) (w w1 w2 : World X)
    → Waiting w (s ∷ [])
    → w.run_once_queue ≡ s.at
    → call_job s.job.cb s.job.should_run s.job.context w ≡ ok tt w1
    → Waiting w1 (s ∷ t ∷ [])
    → call_job t.job.cb t.job.should_run t.job.context (released w1 s) ≡ ok tt w2
    → Waiting w2 (t ∷ [])
    → run_once_prepare_cb call_job (suc (suc (suc n))) prepare w
      ≡ ok tt (record (released w2 t) {
        run_once_queue = null;
        ext = uv.prepare_stop prepare w2.ext;
        run_once_prepare_started = false;
      })
unfolding run_once_prepare_cb run_jobs
run_once_prepare_cb-two ⦃uv⦄ call_job n prepare s t w w1 w2 wt start called1 wt1 called2 wt2 =
    let (ran1, d) = run_job-released call_job s [] (t ∷ []) w w1 wt called1 wt1 in
    let wtd = Draining-Waiting (released w1 s) t [] d in
    let (ran2, _) = run_job-released call_job t [] [] (released w1 s) w2 wtd called2 wt2 in
    let ran : run_jobs call_job (suc (suc (suc n))) s.at w ≡ ok tt (released w2 t) =
      rw (first_live w s [] wt, ran1, first_live (released w1 s) t [] wtd, ran2) in
    rw (
      subst (λ p. run_jobs call_job (suc (suc (suc n))) p w ≡ ok tt (released w2 t)) (sym start)
        ran)
