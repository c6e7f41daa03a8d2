-- ===== src/Runloop/Timer/Refine.antt =====
-- src/runloop.c: a timer against its abstract state, through any sequence of calls.
use righack.Base.{ℕ, ◌≡◌, refl, ap, ◌∙◌, Bool, true, false, Option, none, some, List, [], ◌∷◌, Text}
use righack.External.{Uv}
use righack.Machine.{and_then, World, Outcome, Prog, ok, stop, fatal, skip, ◌>>◌}
use righack.Machine.Objects.{Ptr, Timer, TimerPrivate}
use righack.Runloop.Timer.{runloop_timer_schedule, runloop_timer_reset, runloop_timer_cancel}
use righack.Runloop.Timer.Life.{
  IsTimer, scheduled-IsTimer, schedule_held, reset_active, cancel_active, timer_guards,
}

-- The calls that a user may make between creating a timer and destroying it.
pub data TimerCall : Type 0 where
  schedule : (initial repeat : ℕ) → TimerCall
  reset cancel : TimerCall

-- The abstract state of a timer: idle, or armed with its two times.
abbrev pub Armed : Type 0
Armed = Option (ℕ × ℕ)

-- What a call does to the abstract state; nothing where it is refused.
abbrev pub after : Armed → TimerCall → Option Armed
after s (schedule initial repeat) = some (some (initial, repeat))
after none reset = none
after (some times) reset = some (some times)
after none cancel = none
after (some times) cancel = some none

abbrev pub after_all : Armed → List TimerCall → Option Armed
after_all s [] = some s
after_all s (c ∷ cs) = elim (after s c) [ none ↦ none | some s' ↦ after_all s' cs ]

-- The times in the private part of an armed timer.
abbrev pub Stored : TimerPrivate → Armed → Type 0
Stored h none = Unit
Stored h (some times) = (h.initial ≡ times.0) × (h.repeat ≡ times.1)

abbrev pub is_armed : Armed → Bool
is_armed none = false
is_armed (some times) = true

same_times :
    {a b : ℕ} {times : ℕ × ℕ}
    → (a ≡ times.0) × (b ≡ times.1)
    → ◌≡◌ {A = Armed} (some (a, b)) (some times)
same_times e = rw (e.0, e.1)

module _ {X : Type 0} ⦃uv : Uv X⦄ where
  abbrev pub make : Ptr → TimerCall → Prog X (Unit {0})
  make p (schedule initial repeat) = runloop_timer_schedule p initial repeat
  make p reset = runloop_timer_reset p
  make p cancel = runloop_timer_cancel p

  abbrev pub make_all : Ptr → List TimerCall → Prog X (Unit {0})
  make_all p [] = skip
  make_all p (c ∷ cs) = make p c >> make_all p cs

module _ {X : Type 0} (armed : X → Ptr → Armed) where
  -- The timer at `p` in memory, and libuv's handle, stand for the abstract state `s`.
  pub record Represents (w : World X) (p : Ptr) (t : Timer) (s : Armed) : Type 0 where
    pub private : TimerPrivate
    pub is_timer : IsTimer w p t private
    pub holds : armed w.ext t.private ≡ s
    pub stored : Stored private s

  -- The outcome agrees with the abstract one: the state is represented, or the call was refused and
  -- the process has ended by `util_fatal`.
  abbrev pub Agrees : Ptr → Timer → Option Armed → Outcome X (Unit {0}) → Type 0
  Agrees p t (some s) (ok _ w) = Represents w p t s
  Agrees p t none (stop s w) = (m : Text) × (s ≡ fatal m)
  Agrees p t (some s) (stop r w) = ⊥
  Agrees p t none (ok _ w) = ⊥

module _ {X : Type 0} ⦃uv : Uv X⦄ (armed : X → Ptr → Armed)
    (active_law : (h : Ptr) (x : X) → uv.is_active x h ≡ is_armed (armed x h))
    (start_law : (h : Ptr) (i r : ℕ) (x : X) → armed (uv.timer_start h i r x) h ≡ some (i, r))
    (stop_law : (h : Ptr) (x : X) → armed (uv.timer_stop h x) h ≡ none) where
  active_of :
      (w : World X) (p : Ptr) (t : Timer) {s : Armed}
      → Represents armed w p t s
      → uv.is_active w.ext t.private ≡ is_armed s
  active_of w p t k = active_law t.private w.ext ∙ ap is_armed k.holds

  -- One call.
  make_refines :
      (w : World X) (p : Ptr) (t : Timer) (s : Armed) (c : TimerCall)
      → Represents armed w p t s
      → Agrees armed p t (after s c) (make p c w)
  make_refines w p t s (schedule initial repeat) k =
      rw (schedule_held w p t k.private initial repeat k.is_timer) (record {
        private = record (k.private) { initial = initial; repeat = repeat };
        is_timer = scheduled-IsTimer w p t k.private initial repeat k.is_timer;
        holds = start_law t.private initial repeat w.ext;
        stored = (refl, refl);
      })
  make_refines w p t none reset k =
      rw ((timer_guards w p t k.private k.is_timer false (active_of w p t k)).0) (_, refl)
  make_refines w p t none cancel k =
      rw ((timer_guards w p t k.private k.is_timer false (active_of w p t k)).1) (_, refl)
  make_refines w p t (some times) reset k =
      rw (reset_active w p t k.private k.is_timer (active_of w p t k)) (record {
        private = k.private;
        is_timer = record {
          holds_timer = k.is_timer.holds_timer;
          holds_private = k.is_timer.holds_private;
          points_back = k.is_timer.points_back;
        };
        holds = start_law t.private k.private.initial k.private.repeat w.ext ∙ same_times k.stored;
        stored = k.stored;
      })
  make_refines w p t (some times) cancel k =
      rw (cancel_active w p t k.private k.is_timer (active_of w p t k)) (record {
        private = k.private;
        is_timer = record {
          holds_timer = k.is_timer.holds_timer;
          holds_private = k.is_timer.holds_private;
          points_back = k.is_timer.points_back;
        };
        holds = stop_law t.private w.ext;
        stored = tt;
      })

  -- The calls behind one that agrees agree, if they do from every state that it may leave.
  then_Agrees :
      (p : Ptr) (t : Timer) (cs : List TimerCall) (o : Option Armed) (r : Outcome X (Unit {0}))
      → Agrees armed p t o r
      → ((s' : Armed) (w' : World X)
          → Represents armed w' p t s'
          → Agrees armed p t (after_all s' cs) (make_all p cs w'))
      → Agrees armed p t
          (elim o [ none ↦ none | some s' ↦ after_all s' cs ])
          (and_then r (λ _. make_all p cs))
  then_Agrees p t cs (some s') (ok a w') k' rest = rest s' w' k'
  then_Agrees p t cs none (stop r w') k' rest = k'
  then_Agrees p t cs (some s') (stop r w') k' rest = absurd k'
  then_Agrees p t cs none (ok a w') k' rest = absurd k'

  -- Through every sequence of calls a timer behaves as its abstract state: the calls return exactly
  -- if no one of them is refused, and leave libuv's handle idle or armed with the times as the
  -- abstract calls do; where one is refused the process ends by `util_fatal`.
  pub make_all_refines :
      (w : World X) (p : Ptr) (t : Timer) (s : Armed) (cs : List TimerCall)
      → Represents armed w p t s
      → Agrees armed p t (after_all s cs) (make_all p cs w)
  make_all_refines w p t s [] k = k
  make_all_refines w p t s (c ∷ cs) k =
      then_Agrees p t cs (after s c) (make p c w) (make_refines w p t s c k)
        (λ s' w' k'. make_all_refines w' p t s' cs k')
