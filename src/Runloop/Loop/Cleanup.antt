-- ===== src/Runloop/Loop/Cleanup.antt =====
-- src/runloop.c: `runloop_cleanup` when no module is running.
use righack.Base.{
  ◌≡◌, refl, ◌≢◌, ◌∙◌, false, Option, some, none, List, [], ◌∷◌, arith, ◌==◌, if◌then◌else◌,
  Bool-cases, inl, inr,
}
use righack.External.{Uv, no_cb, cleanup_handle_cb}
use righack.Machine.{World, Prog, ok}
use righack.Machine.Access.{free_held}
use righack.Machine.Memory.{write}
use righack.Machine.Objects.{Ptr, null, Object, uv_loop, uv_signal}
use righack.Runloop.Loop.{
  Event, closed_event, uv_run, walk_each, walk_runloop_cb, cleanup_handle_cb_run, take_down,
  runloop_cleanup,
}

-- Memory when the blocks are freed one by one, and the static pointer to the prepare handle then.
abbrev pub freed_each : List Ptr → (Ptr → Option Object) → Ptr → Option Object
freed_each [] h = h
freed_each (p ∷ ps) h = freed_each ps (write h p none)

abbrev pub prepare_after : List Ptr → Ptr → Ptr
prepare_after [] prepare = prepare
prepare_after (p ∷ ps) prepare = prepare_after ps (if p == prepare then null else prepare)

-- Each block is there when its turn comes; so none is in the list twice.
abbrev pub AreHeld : List Ptr → (Ptr → Option Object) → Type 0
AreHeld [] h = Unit
AreHeld (p ∷ ps) h = (p ≢ null) × (o : Object) × (h p ≡ some o) × AreHeld ps (write h p none)

abbrev pub Misses : Ptr → List Ptr → Type 0
Misses q [] = Unit
Misses q (p ∷ ps) = (q ≢ p) × Misses q ps

-- Libuv calls `cleanup_handle_cb` for each of the handles.
abbrev pub closings : List Ptr → List Event
closings [] = []
closings (p ∷ ps) = closed_event p cleanup_handle_cb ∷ closings ps

freed_each-other :
    (q : Ptr) (ps : List Ptr) (h : Ptr → Option Object) → Misses q ps → freed_each ps h q ≡ h q
freed_each-other q [] h m = refl
freed_each-other q (p ∷ ps) h m = freed_each-other q ps (write h p none) m.1 ∙ ground (arith, m.0)

module _ {X : Type 0} ⦃uv : Uv X⦄ where
  -- What `walk_runloop_cb` closes of the handles that libuv walks, and the state outside then.
  abbrev pub to_close : X → List Ptr → List Ptr
  to_close x [] = []
  to_close x (p ∷ ps) =
      let skipped = to_close x ps in
      let closed = to_close (uv.close p cleanup_handle_cb x) ps in
      if uv.is_closing x p then skipped else p ∷ closed

  abbrev pub closed_each : X → List Ptr → X
  closed_each x [] = x
  closed_each x (p ∷ ps) =
      let skipped = closed_each x ps in
      let closed = closed_each (uv.close p cleanup_handle_cb x) ps in
      if uv.is_closing x p then skipped else closed

  walk_lem :
      (ps : List Ptr) (w : World X)
      → walk_each ps w ≡ ok tt (record w { ext = closed_each w.ext ps })
  unfolding walk_each walk_runloop_cb
  walk_lem [] w = refl
  walk_lem (p ∷ ps) w = elim (Bool-cases (uv.is_closing w.ext p)) [
    | inl t ↦ rw t (walk_lem ps w)
    | inr t ↦ rw t (walk_lem ps (record w { ext = uv.close p cleanup_handle_cb w.ext }))
  ]

  cleanup_lem :
      (p : Ptr) (o : Object) (w : World X)
      → p ≢ null
      → w.cell p ≡ some o
      → cleanup_handle_cb_run p w
        ≡ ok tt (record w {
          cell = write w.cell p none;
          run_once_prepare = if p == w.run_once_prepare then null else w.run_once_prepare;
        })
  unfolding cleanup_handle_cb_run
  cleanup_lem p o w there held = elim (Bool-cases (p == w.run_once_prepare)) [
    | inl t ↦ rw (free_held w p o held there, t)
    | inr t ↦ rw (free_held w p o held there, t)
  ]

  module _ (call_event : Event → Prog X (Unit {0}))
      (calls : (p : Ptr) (w : World X)
        → call_event (closed_event p cleanup_handle_cb) w ≡ cleanup_handle_cb_run p w) where
    closings_lem :
        (ps : List Ptr) (w : World X)
        → AreHeld ps w.cell
        → uv_run call_event (closings ps) w
          ≡ ok tt (record w {
            cell = freed_each ps w.cell;
            run_once_prepare = prepare_after ps w.run_once_prepare;
          })
    unfolding uv_run
    closings_lem [] w held = refl
    closings_lem (p ∷ ps) w (there, o, held, rest) =
        rw (calls p w, cleanup_lem p o w there held)
          (closings_lem ps
            (record w {
              cell = write w.cell p none;
              run_once_prepare = if p == w.run_once_prepare then null else w.run_once_prepare;
            })
            rest)

  -- What is outside when the signal handle is closed, when the walk is over, and the handles of the
  -- walk that are closed for `cleanup_handle_cb`.
  abbrev pub before_walk : World X → X
  before_walk w = uv.close w.int_signal no_cb w.ext

  abbrev pub closing_handles : World X → List Ptr
  closing_handles w = to_close (before_walk w) (uv.walk (before_walk w))

  abbrev pub behind_walk : World X → X
  behind_walk w = closed_each (before_walk w) (uv.walk (before_walk w))

  -- The state in which `runloop_cleanup` returns.
  abbrev pub cleaned : World X → World X
  cleaned w = record w {
    cell =
        write (write (freed_each (closing_handles w) w.cell) w.int_signal none) w.thread_loop none;
    thread_loop = null;
    run_once_prepare = prepare_after (closing_handles w) w.run_once_prepare;
    ext = (uv.loop_close w.thread_loop (behind_walk w)).1;
  }

  -- The loop and the signal handle are there, each handle that is closed is another block that is
  -- there, and libuv does not find the loop busy.
  pub record CanEnd (w : World X) : Type 0 where
    pub loop_there : w.thread_loop ≢ null
    pub signal_there : w.int_signal ≢ null
    pub holds_loop : w.cell w.thread_loop ≡ some uv_loop
    pub holds_signal : w.cell w.int_signal ≡ some uv_signal
    pub are_held : AreHeld (closing_handles w) w.cell
    pub loop_apart : Misses w.thread_loop (closing_handles w)
    pub signal_apart : Misses w.int_signal (closing_handles w)
    pub not_busy : (uv.loop_close w.thread_loop (behind_walk w)).0 ≡ false

  module _ (call_event : Event → Prog X (Unit {0}))
      (calls : (p : Ptr) (w : World X)
        → call_event (closed_event p cleanup_handle_cb) w ≡ cleanup_handle_cb_run p w)
      (stop_all : Prog X (Unit {0})) where
    pub runloop_cleanup_lem :
        (w : World X)
        → CanEnd w
        → stop_all (record w { ext = before_walk w }) ≡ ok tt (record w { ext = before_walk w })
        → runloop_cleanup call_event stop_all [] (closings (closing_handles w)) w
          ≡ ok tt (cleaned w)
    unfolding runloop_cleanup take_down uv_run
    runloop_cleanup_lem w can stopped =
        let loop_live : (w.thread_loop == null) ≡ false = ground (arith, can.loop_there) in
        let signal_live : (w.int_signal == null) ≡ false = ground (arith, can.signal_there) in
        let ps = closing_handles w in
        let h1 = freed_each ps w.cell in
        let signal1 : h1 w.int_signal ≡ some uv_signal =
          freed_each-other w.int_signal ps w.cell can.signal_apart ∙ can.holds_signal in
        let loop1 : h1 w.thread_loop ≡ some uv_loop =
          freed_each-other w.thread_loop ps w.cell can.loop_apart ∙ can.holds_loop in
        let loop2 : write h1 w.int_signal none w.thread_loop ≡ some uv_loop =
          ground (arith, signal1, loop1) in
        let w2 : World X = record w { ext = behind_walk w } in
        let w3 : World X = record w {
          cell = h1;
          run_once_prepare = prepare_after ps w.run_once_prepare;
          ext = (uv.loop_close w.thread_loop (behind_walk w)).1;
        } in
        rw (
          loop_live,
          signal_live,
          stopped,
          walk_lem (uv.walk (before_walk w)) (record w { ext = before_walk w }),
          closings_lem call_event calls ps w2 can.are_held,
          can.not_busy,
          signal_live,
          free_held w3 w.int_signal uv_signal signal1 can.signal_there,
          free_held (record w3 { cell = write h1 w.int_signal none }) w.thread_loop uv_loop loop2
              can.loop_there,
        )
