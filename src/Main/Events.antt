-- ===== src/Main/Events.antt =====
-- src/runloop.c with src/drivers/vserial.c and src/modules/test.c: a run of the loop in which libuv
-- reports events of the port's poll handle.
use righack.Base.{ℕ, ◌≡◌, refl, Bool, true, false, List, [], ◌∷◌, inl, inr, Bool-cases, ◌||◌}
use righack.External.{Uv, Os, Toml, Rig, UvEvents}
use righack.Machine.{World, Outcome, ok, stop, and_then}
use righack.Machine.Objects.{
  Ptr, Poll, PollPrivate, vserial_poll_cb, struct_poll, struct_poll_private,
}
use righack.Main.{call_poll, call_event}
use righack.Main.Ptt.{IsKeyed, KeysOrDies, KeysOrDies-Keeps, vserial_poll_cb-keys}
use righack.Main.Wired.{Keeps-refl, Keeps}
use righack.Runloop.Loop.{Event, poll_event, uv_run}
use righack.Runloop.Poll.{events_of_uv}
use righack.Runloop.Poll.Life.{IsPoll, runloop_poll_run_cb_lem}

-- Events of the handle: whether libuv reports an error, and the mask.
abbrev pub poll_events : Ptr → List (Bool × UvEvents) → List Event
poll_events handle [] = []
poll_events handle (e ∷ es) = poll_event handle e.0 e.1 ∷ poll_events handle es

pub IsPoll-Keeps :
    {X : Type 0} ⦃os : Os X⦄ ⦃rig : Rig X⦄ {w w' : World X} {q : Ptr} {poll : Poll}
    {h : PollPrivate}
    → IsPoll w q poll h
    → Keeps w w'
    → IsPoll w' q poll h
IsPoll-Keeps {q} {poll} {h} is keeps = record {
  holds_poll = keeps.blocks q (struct_poll poll) is.holds_poll refl;
  holds_private = keeps.blocks poll.private (struct_poll_private h) is.holds_private refl;
  points_back = is.points_back;
}

module _ {X : Type 0} ⦃uv : Uv X⦄ ⦃os : Os X⦄ ⦃toml : Toml X⦄ ⦃rig : Rig X⦄
    (InStep : X → Ptr → Bool → Type 0)
    (set_law : (h : Ptr) (b old : Bool) (x : X)
      → InStep x h old
      → (rig.set_ptt h b x).0 ≡ false
      → InStep (rig.set_ptt h b x).1 h b)
    (read_law : (fd : ℕ) (x : X) (h : Ptr) (b : Bool) → InStep x h b → InStep (os.read fd x).1 h b)
    (fuel : ℕ) (q : Ptr) (poll : Poll) (h : PollPrivate)
    (is_vserial : poll.cb ≡ vserial_poll_cb) where
  -- One event, by the callbacks of runloop.c and of the driver.
  pub event_keys :
      (w : World X) (failed : Bool) (e : UvEvents)
      → IsPoll w q poll h
      → IsKeyed InStep w poll.context
      → KeysOrDies InStep w poll.context (call_event fuel (poll_event poll.private failed e) w)
  unfolding call_event call_poll
  event_keys w true e is k = rw (runloop_poll_run_cb_lem call_poll w q poll h is true e) (_, refl)
  event_keys w false e is k = elim (Bool-cases (e.readable || (e.writable || e.prioritized))) [
    | inl t ↦
        rw (runloop_poll_run_cb_lem call_poll w q poll h is false e, t, is_vserial)
          (vserial_poll_cb-keys InStep set_law read_law w q poll (events_of_uv e) is.holds_poll k)
    | inr t ↦ rw (runloop_poll_run_cb_lem call_poll w q poll h is false e, t) (_, refl)
  ]

  -- The events behind one that keeps the invariant keep it, if they do from every state.
  then_keys :
      (w : World X) (p : Ptr) (o : Outcome X (Unit {0})) (rest : World X → Outcome X (Unit {0}))
      → KeysOrDies InStep w p o
      → ((w1 : World X) → IsKeyed InStep w1 p → Keeps w w1 → KeysOrDies InStep w1 p (rest w1))
      → KeysOrDies InStep w p (and_then o (λ _. rest))
  then_keys w p (ok a w1) rest k on =
      KeysOrDies-Keeps InStep w w1 p (rest w1) k.1 k.2 (on w1 k.0 k.1)
  then_keys w p (stop s w1) rest k on = k

  -- Through any sequence of events that libuv reports for the port's handle, errors and all masks
  -- included, the radio stays in step with the lines that the driver keeps, and all blocks but the
  -- port's context stay as they are, or the process ends by `util_fatal`; no memory fault is
  -- possible.
  pub uv_run-keys :
      (w : World X) (es : List (Bool × UvEvents))
      → IsPoll w q poll h
      → IsKeyed InStep w poll.context
      → KeysOrDies InStep w poll.context (uv_run (call_event fuel) (poll_events poll.private es) w)
  unfolding uv_run
  uv_run-keys w [] is k = (k, Keeps-refl w, λ q ne. refl)
  uv_run-keys w (e ∷ es) is k =
      then_keys w poll.context (call_event fuel (poll_event poll.private e.0 e.1) w)
        (uv_run (call_event fuel) (poll_events poll.private es)) (event_keys w e.0 e.1 is k)
        (λ w1 k1 keeps. uv_run-keys w1 es (IsPoll-Keeps is keeps) k1)
