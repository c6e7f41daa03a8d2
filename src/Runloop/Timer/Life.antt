-- ===== src/Runloop/Timer/Life.antt =====
-- src/runloop.c: the life of a timer.
use righack.Base.{ℕ, ◌≡◌, refl, Bool, true, false, some, bytes, arith, if◌then◌else◌}
use righack.External.{Uv, runloop_timer_close_cb}
use righack.Machine.{World, ok, stop, fatal, ◌>>◌}
use righack.Machine.Access.{load_held, store_held}
use righack.Machine.Memory.{write}
use righack.Machine.Objects.{
  Ptr, Timer, TimerPrivate, struct_timer, struct_timer_private, as_timer, as_timer_private,
}
use righack.Runloop.Timer.{
  runloop_timer_destroy, runloop_timer_schedule, runloop_timer_reset, runloop_timer_cancel,
}

-- The timer at `p`, and its private part, which points back.
pub record IsTimer {X : Type 0} (w : World X) (p : Ptr) (t : Timer) (h : TimerPrivate)
    : Type 0 where
  pub holds_timer : w.cell p ≡ some (struct_timer t)
  pub holds_private : w.cell t.private ≡ some (struct_timer_private h)
  pub points_back : h.uv_data ≡ p

module _ {X : Type 0} ⦃uv : Uv X⦄ where
  -- The state of a timer that was scheduled.
  abbrev pub scheduled : World X → Timer → TimerPrivate → ℕ → ℕ → World X
  scheduled w t h initial repeat = record w {
    cell =
        write w.cell t.private
          (some (struct_timer_private (record h { initial = initial; repeat = repeat })));
    ext = uv.timer_start t.private initial repeat w.ext;
  }

  pub schedule_held :
      (w : World X) (p : Ptr) (t : Timer) (h : TimerPrivate) (initial repeat : ℕ)
      → IsTimer w p t h
      → runloop_timer_schedule p initial repeat w ≡ ok tt (scheduled w t h initial repeat)
  unfolding runloop_timer_schedule
  schedule_held w p t h initial repeat is = rw (
    load_held w p _ is.holds_timer as_timer t refl,
    load_held w t.private _ is.holds_private as_timer_private h refl,
    store_held w t.private _ is.holds_private
        (struct_timer_private (record h { initial = initial; repeat = repeat })),
  )

  -- Scheduling keeps the timer, with the new times.
  pub scheduled-IsTimer :
      (w : World X) (p : Ptr) (t : Timer) (h : TimerPrivate) (initial repeat : ℕ)
      → IsTimer w p t h
      → IsTimer
          (scheduled w t h initial repeat)
          p
          t
          (record h { initial = initial; repeat = repeat })
  scheduled-IsTimer w p t h initial repeat is = record {
    holds_timer = ground (arith, is.holds_timer, is.holds_private);
    holds_private = ground arith;
    points_back = is.points_back;
  }

  module _ (w : World X) (p : Ptr) (t : Timer) (h : TimerPrivate) (is : IsTimer w p t h) where
    pub reset_active :
        uv.is_active w.ext t.private ≡ true
        → runloop_timer_reset p w
          ≡ ok tt (record w { ext = uv.timer_start t.private h.initial h.repeat w.ext })
    unfolding runloop_timer_reset
    reset_active a = rw (
      load_held w p _ is.holds_timer as_timer t refl,
      a,
      load_held w t.private _ is.holds_private as_timer_private h refl,
    )

    pub cancel_active :
        uv.is_active w.ext t.private ≡ true
        → runloop_timer_cancel p w ≡ ok tt (record w { ext = uv.timer_stop t.private w.ext })
    unfolding runloop_timer_cancel
    cancel_active a = rw (load_held w p _ is.holds_timer as_timer t refl, a)

    destroy_inactive :
        uv.is_active w.ext t.private ≡ false
        → runloop_timer_destroy p w
          ≡ ok tt (record w { ext = uv.close t.private runloop_timer_close_cb w.ext })
    unfolding runloop_timer_destroy
    destroy_inactive a = rw (load_held w p _ is.holds_timer as_timer t refl, a)

    -- The guards: an idle timer can be neither reset nor cancelled, and an active one not
    -- destroyed; each attempt ends the process and changes nothing.
    pub timer_guards :
        (active : Bool)
        → uv.is_active w.ext t.private ≡ active
        → (if active
            then (runloop_timer_destroy p w
                ≡ stop (fatal (bytes "attempt to destroy a timer that is active")) w)
            else ((runloop_timer_reset p w
                  ≡ stop (fatal (bytes "attempt to reset a timer that is not active")) w)
                × (runloop_timer_cancel p w
                    ≡ stop (fatal (bytes "Attempt to cancel a timer that is not active")) w)))
    unfolding runloop_timer_destroy runloop_timer_reset runloop_timer_cancel
    timer_guards true a = rw (load_held w p _ is.holds_timer as_timer t refl, a)
    timer_guards false a = (
      rw (load_held w p _ is.holds_timer as_timer t refl, a),
      rw (load_held w p _ is.holds_timer as_timer t refl, a),
    )

  module _
      (start_law : (h : Ptr) (i r : ℕ) (x : X) → uv.is_active (uv.timer_start h i r x) h ≡ true)
      (stop_law : (h : Ptr) (x : X) → uv.is_active (uv.timer_stop h x) h ≡ false) where
    -- A timer that was scheduled is restarted by a reset with the same two times.
    pub timer_schedule-reset :
        (w : World X) (p : Ptr) (t : Timer) (h : TimerPrivate) (initial repeat : ℕ)
        → IsTimer w p t h
        → (runloop_timer_schedule p initial repeat >> runloop_timer_reset p) w
          ≡ ok tt (record (scheduled w t h initial repeat) {
            ext =
                uv.timer_start t.private initial repeat
                  (uv.timer_start t.private initial repeat w.ext);
          })
    timer_schedule-reset w p t h initial repeat is = rw (schedule_held w p t h initial repeat is) (
        reset_active (scheduled w t h initial repeat) p t _
          (scheduled-IsTimer w p t h initial repeat is) (start_law t.private initial repeat w.ext))

    -- A timer that was scheduled can be cancelled, and then destroyed: its handle is closed.
    pub timer_schedule-cancel-destroy :
        (w : World X) (p : Ptr) (t : Timer) (h : TimerPrivate) (initial repeat : ℕ)
        → IsTimer w p t h
        → (runloop_timer_schedule p initial repeat
              >> (runloop_timer_cancel p >> runloop_timer_destroy p))
            w
          ≡ ok tt (record (scheduled w t h initial repeat) {
            ext =
                uv.close t.private runloop_timer_close_cb
                  (uv.timer_stop t.private (uv.timer_start t.private initial repeat w.ext));
          })
    timer_schedule-cancel-destroy w p t h initial repeat is =
        let is1 = scheduled-IsTimer w p t h initial repeat is in
        let w1 : World X = scheduled w t h initial repeat in
        let w2 : World X = record w1 { ext = uv.timer_stop t.private w1.ext } in
        let is2 : IsTimer w2 p t (record h { initial = initial; repeat = repeat }) = record {
          holds_timer = is1.holds_timer;
          holds_private = is1.holds_private;
          points_back = is1.points_back;
        } in
        rw
          (
            schedule_held w p t h initial repeat is,
            cancel_active w1 p t _ is1 (start_law t.private initial repeat w.ext),
          )
          (destroy_inactive w2 p t _ is2 (stop_law t.private w1.ext))
