-- ===== src/Runloop/Later/Schedule.antt =====
-- src/runloop.c: `runloop_run_later` puts its job at the end of the queue.
use righack.Base.{
  ◌+◌, ◌≡◌, refl, ◌≢◌, inl, inr, Option, some, [], ◌∷◌, ◌++◌, if◌then◌else◌, ◌==◌, arith,
  Bool-cases, ◌∙◌,
}
use righack.External.{Uv}
use righack.Machine.{World, ok}
use righack.Machine.Access.{held_lt_next, write-IsHeap, alloc-IsHeap}
use righack.Machine.Memory.{write}
use righack.Machine.Objects.{
  Ptr, null, JobCb, Object, QueueEntry, struct_run_once, struct_queue_entry,
}
use righack.Runloop.Later.{job, entry, enqueue, runloop_run_later}
use righack.Runloop.Later.Chain.{
  Slot, Slots, IsLast, Chain, Avoids, Distinct, Waiting, Holds-write, Chain-write, gone-Avoids,
}
use righack.Machine.Extends.{Extends-ext, Extends-trans, Extends, is_fixed, KeepsIf}

-- The slot of the job that is scheduled in `w`.
abbrev pub new_slot : {X : Type 0} → World X → JobCb → Ptr → Slot
new_slot w f context = record { at = w.next + 1; run = w.next; job = job f context }

IsLast-append : (p : Ptr) (ss : Slots) (s : Slot) → p ≡ s.at → IsLast p (ss ++ s ∷ [])
IsLast-append p [] s e = e
IsLast-append p (t ∷ []) s e = e
IsLast-append p (t ∷ u ∷ ss) s e = IsLast-append p (u ∷ ss) s e

Avoids-append :
    (p : Ptr) (ss : Slots) (s : Slot) → Avoids p ss → p ≢ s.at → p ≢ s.run → Avoids p (ss ++ s ∷ [])
Avoids-append p [] s av a b = (a, b, tt)
Avoids-append p (t ∷ ss) s av a b = (av.0, av.1, Avoids-append p ss s av.2 a b)

Distinct-append :
    (ss : Slots) (s : Slot)
    → Distinct ss
    → Avoids s.at ss
    → Avoids s.run ss
    → Distinct (ss ++ s ∷ [])
Distinct-append [] s d a b = (tt, tt, tt)
Distinct-append (t ∷ ss) s d a b = (
  Avoids-append t.at ss s d.0 (λ e. a.0 (ground arith)) (λ e. b.0 (ground arith)),
  Avoids-append t.run ss s d.1 (λ e. a.1 (ground arith)) (λ e. b.1 (ground arith)),
  Distinct-append ss s d.2 a.2 b.2,
)

last_ne : (q p : Ptr) (ss : Slots) → Avoids q ss → IsLast p ss → q ≢ p
last_ne q p [] av l = absurd l
last_ne q p (t ∷ []) av l = λ e. av.0 (e ∙ l)
last_ne q p (t ∷ u ∷ ss) av l = last_ne q p (u ∷ ss) av.2 l

-- The write that links `s` behind the last entry `p`.
link_last :
    (h : Ptr → Option Object) (p : Ptr) (ss : Slots) (s : Slot)
    → Chain h ss
    → Distinct ss
    → IsLast p ss
    → Chain h (s ∷ [])
    → Avoids s.at ss
    → Avoids s.run ss
    → (e : QueueEntry) × (h p ≡ some (struct_queue_entry e))
      × Chain (write h p (some (struct_queue_entry (entry e.run s.at)))) (ss ++ s ∷ [])
link_last h p [] s ch d l hs a b = absurd l
link_last h p (t ∷ []) s ch d l hs a b = (entry t.run null, ground arith, ground arith)
link_last h p (t ∷ u ∷ ss) s ch d l hs a b =
    let (e, held, rest) = link_last h p (u ∷ ss) s ch.1 d.2 l hs a.2 b.2 in
    (e, held, (Holds-write h p _ t u.at ch.0 (last_ne t.at p (u ∷ ss) d.0 l) (λ q. cc), rest))

module _ {X : Type 0} ⦃uv : Uv X⦄ where
  enqueue_empty :
      (p : Ptr) (w : World X)
      → w.run_once_queue ≡ null
      → enqueue p w ≡ ok tt (record w { run_once_queue = p; run_once_last = p })
  unfolding enqueue
  enqueue_empty p w e = ground arith

  enqueue_behind :
      (p : Ptr) (w : World X) (e : QueueEntry)
      → w.run_once_queue ≢ null
      → w.cell w.run_once_last ≡ some (struct_queue_entry e)
      → enqueue p w
        ≡ ok tt (record w {
          cell = write w.cell w.run_once_last (some (struct_queue_entry (entry e.run p)));
          run_once_last = p;
        })
  unfolding enqueue
  enqueue_behind p w e ne held = ground arith

  -- What `enqueue` leaves: the slot stands at the end, and nothing else has changed.
  record Enqueued (w w' : World X) (ss : Slots) (s : Slot) : Type 0 where
    waiting : Waiting w' (ss ++ s ∷ [])
    same_ext : w'.ext ≡ w.ext
    kept : KeepsIf is_fixed w.cell w'.cell
    same_root : w'.toml_root ≡ w.toml_root
    same_drivers : w'.loaded_drivers ≡ w.loaded_drivers
    same_modules : w'.loaded_modules ≡ w.loaded_modules
    same_loop : w'.thread_loop ≡ w.thread_loop
    same_signal : w'.int_signal ≡ w.int_signal
    same_running : w'.running_modules ≡ w.running_modules
    same_buf : w'.config_buf ≡ w.config_buf
    same_prepare : w'.run_once_prepare ≡ w.run_once_prepare
    same_started : w'.run_once_prepare_started ≡ w.run_once_prepare_started
    start : w'.run_once_queue ≡ (if w.run_once_queue == null then s.at else w.run_once_queue)

  enqueue-Enqueued :
      (w : World X) (ss : Slots) (s : Slot)
      → Waiting w ss
      → Chain w.cell (s ∷ [])
      → Avoids s.at ss
      → Avoids s.run ss
      → (w' : World X) × (enqueue s.at w ≡ ok tt w') × Enqueued w w' ss s
  enqueue-Enqueued w ss s wt hs a b = elim wt.tail [
    | inl (nil, queue) ↦ (
      record w { run_once_queue = s.at; run_once_last = s.at },
      enqueue_empty s.at w queue,
      record {
        waiting = record {
          formed = wt.formed;
          chain = rw nil hs;
          distinct = rw nil (tt, tt, tt);
          tail = inr (λ q. cc (wt.formed.null_empty), rw nil refl);
        };
        same_ext = refl;
        kept = λ q o held fixed. held;
        same_root = refl;
        same_drivers = refl;
        same_modules = refl;
        same_loop = refl;
        same_signal = refl;
        same_running = refl;
        same_buf = refl;
        same_prepare = refl;
        same_started = refl;
        start = ground arith;
      },
    )
    | inr (queue, last) ↦
        let (e, held, linked) =
          link_last w.cell w.run_once_last ss s wt.chain wt.distinct last hs a b in
        (
          _,
          enqueue_behind s.at w e queue held,
          record {
            waiting = record {
              formed = write-IsHeap w.cell w.next w.run_once_last _ wt.formed held;
              chain = linked;
              distinct = Distinct-append ss s wt.distinct a b;
              tail = inr (queue, IsLast-append s.at ss s refl);
            };
            same_ext = refl;
            kept = λ q o old fixed. ground (arith, held, old, fixed);
            same_root = refl;
            same_drivers = refl;
            same_modules = refl;
            same_loop = refl;
            same_signal = refl;
            same_running = refl;
            same_buf = refl;
            same_prepare = refl;
            same_started = refl;
            start = ground arith;
          },
        )
  ]

  -- The two allocations of `runloop_run_later`.
  abbrev allocated : World X → JobCb → Ptr → World X
  allocated w f context = record w {
    cell =
        write (write w.cell w.next (some (struct_run_once (job f context)))) (w.next + 1)
          (some (struct_queue_entry (entry w.next null)));
    next = w.next + 1 + 1;
  }

  -- They leave the queue as it was, and the new slot beside it.
  allocated-Waiting :
      (f : JobCb) (context : Ptr) (w : World X) (ss : Slots)
      → Waiting w ss
      → Waiting (allocated w f context) ss
        × Chain (allocated w f context).cell (new_slot w f context ∷ [])
        × Avoids (w.next + 1) ss
        × Avoids w.next ss
  allocated-Waiting f context w ss wt =
      let h1 = alloc-IsHeap w.cell w.next (struct_run_once (job f context)) wt.formed in
      let a : Avoids w.next ss =
        gone-Avoids w.cell w.next ss wt.chain (wt.formed.rest_empty w.next (omega arith)) in
      let b : Avoids (w.next + 1) ss =
        gone-Avoids w.cell (w.next + 1) ss wt.chain
          (wt.formed.rest_empty (w.next + 1) (omega arith)) in
      (
        record {
          formed = alloc-IsHeap _ (w.next + 1) (struct_queue_entry (entry w.next null)) h1;
          chain = Chain-write _ (w.next + 1) _ ss (Chain-write w.cell w.next _ ss wt.chain a) b;
          distinct = wt.distinct;
          tail = wt.tail;
        },
        ground arith,
        b,
        a,
      )

  -- All blocks but entries of the queue stay.
  scheduled-Extends :
      (f : JobCb) (context : Ptr) (w w2 : World X) (ss : Slots)
      → Waiting w ss
      → Enqueued (allocated w f context) w2 ss (new_slot w f context)
      → Extends is_fixed w w2
  scheduled-Extends f context w w2 ss wt q = record {
    formed = q.waiting.formed;
    kept = λ a o held fixed. q.kept a o (ground (arith, held_lt_next w a o held wt.formed)) fixed;
    same_root = q.same_root;
    same_drivers = q.same_drivers;
    same_modules = q.same_modules;
    same_loop = q.same_loop;
    same_signal = q.same_signal;
    same_running = q.same_running;
  }

  -- The rest of `runloop_run_later`, once the entry is in the queue.
  after_enqueue :
      (f : JobCb) (context : Ptr) (w w2 : World X) (ss : Slots)
      → Waiting w ss
      → enqueue (w.next + 1) (allocated w f context) ≡ ok tt w2
      → Enqueued (allocated w f context) w2 ss (new_slot w f context)
      → (w' : World X) × (runloop_run_later f context w
          ≡ ok (record { cb = f; context = context; private = w.next }) w')
        × Waiting w' (ss ++ new_slot w f context ∷ [])
        × (w'.ext ≡ (
            if w.run_once_prepare_started
            then w.ext
            else uv.prepare_start w.run_once_prepare w.ext))
        × (w'.run_once_queue ≡ (if w.run_once_queue == null then w.next + 1 else w.run_once_queue))
        × Extends is_fixed w w'
        × (w'.config_buf ≡ w.config_buf)
  unfolding runloop_run_later
  after_enqueue f context w w2 ss wt e q = elim (Bool-cases w.run_once_prepare_started) [
    | inl on ↦ (
      w2,
      rw (e, q.same_started, on),
      q.waiting,
      rw on q.same_ext,
      q.start,
      scheduled-Extends f context w w2 ss wt q,
      q.same_buf,
    )
    | inr off ↦ (
      record w2 { ext = uv.prepare_start w2.run_once_prepare w2.ext },
      rw (e, q.same_started, off),
      record {
        formed = q.waiting.formed;
        chain = q.waiting.chain;
        distinct = q.waiting.distinct;
        tail = q.waiting.tail;
      },
      rw (off, q.same_prepare, q.same_ext),
      q.start,
      Extends-trans (scheduled-Extends f context w w2 ss wt q)
          (Extends-ext is_fixed w2 (uv.prepare_start w2.run_once_prepare w2.ext) q.waiting.formed),
      q.same_buf,
    )
  ]

  -- `runloop_run_later` returns, and puts the new job, to be run, behind all jobs that wait, also
  -- within a pass; the queue begins with it if it was empty. The prepare handle is started unless it
  -- is marked as started; the configuration, its buffer, the drivers, and all blocks but entries of
  -- the queue stay.
  pub runloop_run_later-Waiting :
      (f : JobCb) (context : Ptr) (w : World X) (ss : Slots)
      → Waiting w ss
      → (w' : World X) × (runloop_run_later f context w
          ≡ ok (record { cb = f; context = context; private = w.next }) w')
        × Waiting w' (ss ++ new_slot w f context ∷ [])
        × (w'.ext ≡ (
            if w.run_once_prepare_started
            then w.ext
            else uv.prepare_start w.run_once_prepare w.ext))
        × (w'.run_once_queue ≡ (if w.run_once_queue == null then w.next + 1 else w.run_once_queue))
        × Extends is_fixed w w'
        × (w'.config_buf ≡ w.config_buf)
  runloop_run_later-Waiting f context w ss wt =
      let (wt1, hs, b, a) = allocated-Waiting f context w ss wt in
      let (w2, e, q) =
        enqueue-Enqueued (allocated w f context) ss (new_slot w f context) wt1 hs b a in
      after_enqueue f context w w2 ss wt e q
