-- ===== src/Runloop/Later.antt =====
-- src/runloop.c: the queue of jobs that run once, at the next turn of the loop.
pub mod Chain
pub mod Drain
pub mod Schedule
pub mod Stops
use righack.Base.{ℕ, zero, suc, Bool, true, false, ◌==◌, if◌then◌else◌, bytes}
use righack.External.{Uv}
use righack.Machine.{
  World, Prog, out_of_fuel, pure, halt, skip, ◌>>=◌, ◌>>◌, gets, modify, tell, when,
}
use righack.Machine.Memory.{alloc, load, store, free}
use righack.Machine.Objects.{
  Ptr, null, JobCb, RunOnce, QueueEntry, struct_run_once, struct_queue_entry, as_run_once,
  as_queue_entry, uv_prepare, uv_loop,
}

-- struct run_once, what the caller gets
pub record RunOnceHandle : Type 0 where
  pub cb : JobCb
  pub context : Ptr
  pub private : Ptr

abbrev pub job : JobCb → Ptr → RunOnce
job f context = record { should_run = true; cb = f; context = context }

abbrev pub entry : Ptr → Ptr → QueueEntry
entry run next = record { run = run; next = next }

module _ {X : Type 0} ⦃uv : Uv X⦄ where
  -- Linking the new entry behind the last one.
  unfoldable pub enqueue : Ptr → Prog X (Unit {0})
  unfolding load store
  enqueue queue_entry = do
    queue ← gets (λ w. w.run_once_queue)
    if queue == null
        then modify (λ w. record w { run_once_queue = queue_entry; run_once_last = queue_entry })
        else (do
          last ← gets (λ w. w.run_once_last)
          e ← load as_queue_entry last
          store last (struct_queue_entry (record e { next = queue_entry }))
          modify (λ w. record w { run_once_last = queue_entry }))

  unfoldable pub runloop_run_later : JobCb → Ptr → Prog X RunOnceHandle
  unfolding alloc enqueue
  runloop_run_later f context = do
    new_job ← alloc (struct_run_once (job f context))
    queue_entry ← alloc (struct_queue_entry (entry new_job null))
    enqueue queue_entry
    started ← gets (λ w. w.run_once_prepare_started)
    prepare ← gets (λ w. w.run_once_prepare)
    when (if started then false else true) (tell (uv.prepare_start prepare))
    pure (record { cb = f; context = context; private = new_job })

module _ {X : Type 0} (call_job : JobCb → Bool → Ptr → Prog X (Unit {0})) where
  -- One round of the loop of `run_once_prepare_cb`; the result is the next entry, which is read
  -- only after the callback has returned.
  unfoldable pub run_job : Ptr → Prog X Ptr
  unfolding load free
  run_job p = do
    e ← load as_queue_entry p
    r ← load as_run_once e.run
    call_job r.cb r.should_run r.context
    old ← load as_queue_entry p
    free old.run
    free p
    pure old.next

  unfoldable pub run_jobs : ℕ → Ptr → Prog X (Unit {0})
  unfolding run_job
  run_jobs zero p = halt out_of_fuel
  run_jobs (suc fuel) p = if p == null then skip else (do next ← run_job p; run_jobs fuel next)

  unfoldable pub run_once_prepare_cb : ⦃uv : Uv X⦄ → ℕ → Ptr → Prog X (Unit {0})
  unfolding run_jobs
  run_once_prepare_cb ⦃uv⦄ fuel prepare = do
    p ← gets (λ w. w.run_once_queue)
    run_jobs fuel p
    modify (λ w. record w { run_once_queue = null })
    tell (uv.prepare_stop prepare)
    modify (λ w. record w { run_once_prepare_started = false })
