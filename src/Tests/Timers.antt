-- ===== src/Tests/Timers.antt =====
-- A timer through a sequence of calls, where libuv keeps the times of each handle.
use righack.Base.{arith, ◌≡◌, refl, false, none, some, [], ◌∷◌, ◌==◌, if◌then◌else◌}
use righack.External.{Uv}
use righack.Machine.{World}
use righack.Machine.Objects.{Ptr, Timer, TimerPrivate, struct_timer, struct_timer_private}
use righack.Runloop.Timer.Refine.{
  schedule, reset, cancel, Armed, is_armed, make_all, Represents, Agrees, make_all_refines,
}
use righack.Tests.Env.{world}

record Clock : Type 0 where
  armed : Ptr → Armed

abbrev set_armed : Ptr → Armed → Clock → Clock
set_armed h s x = record { armed = λ p. if p == h then s else x.armed p }

instance abbrev clock_uv : Uv Clock
clock_uv = record {
  loop_init = λ h x. x;
  loop_close = λ h x. (false, x);
  stop_loop = λ h x. x;
  loop_alive = λ x. false;
  walk = λ x. [];
  is_active = λ x p. is_armed (x.armed p);
  is_closing = λ x p. false;
  close = λ h f x. set_armed h none x;
  prepare_init = λ h x. x;
  prepare_start = λ h x. x;
  prepare_stop = λ h x. x;
  signal_init = λ h x. x;
  signal_start = λ h x. x;
  signal_stop = λ h x. x;
  timer_init = λ h x. x;
  timer_start = λ h i r x. set_armed h (some (i, r)) x;
  timer_stop = λ h x. set_armed h none x;
  poll_init = λ h fd x. x;
  poll_start = λ h e x. x;
}

abbrev timer : Timer
timer = record { cb = 0; context = 0; private = 2 }

abbrev timer_private : TimerPrivate
timer_private = record { uv_data = 1; initial = 0; repeat = 0 }

abbrev clock_world : World Clock
clock_world =
    world (struct_timer timer ∷ struct_timer_private timer_private ∷ [])
      (record { armed = λ p. none })

abbrev idle : Represents (λ x h. x.armed h) clock_world 1 timer none
idle = record {
  private = timer_private;
  is_timer = record { holds_timer = refl; holds_private = refl; points_back = refl };
  holds = refl;
  stored = tt;
}

started_law : (h : Ptr) (s : Armed) (x : Clock) → (set_armed h s x).armed h ≡ s
started_law h s x = ground arith

make_all_refines_example :
    Agrees
      (λ x h. x.armed h)
      1
      timer
      none
      (make_all 1 (schedule 100 50 ∷ reset ∷ cancel ∷ reset ∷ []) clock_world)
make_all_refines_example =
    make_all_refines (λ x h. x.armed h) (λ h x. refl) (λ h i r x. started_law h (some (i, r)) x)
      (λ h x. started_law h none x) clock_world 1 timer none
      (schedule 100 50 ∷ reset ∷ cancel ∷ reset ∷ []) idle
