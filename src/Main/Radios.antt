-- ===== src/Main/Radios.antt =====
-- src/drivers/vserial.c with src/modules/test.c: the radios' push-to-talk through events of several
-- ports.
use righack.Base.{false, ◌≢◌, ℕ, ◌≡◌, ◌∙◌, subst, sym, Bool, List, [], ◌∷◌}
use righack.External.{Uv, Os, Toml, Rig, UvEvents}
use righack.Machine.{World, Outcome, ok, stop}
use righack.Machine.Objects.{Ptr}
use righack.Main.{call_event}
use righack.Main.Events.{event_keys, IsPoll-Keeps}
use righack.Main.Polled.{pick}
use righack.Main.Ptt.{KeysOrDies}
use righack.Main.Wired.{Keeps-refl}
use righack.Runloop.Loop.{poll_event, uv_run}
use righack.Main.Followed.{
  wire_events, FollowedOrDies, AreFollowed, Wire, IsFollowed, then_all, IsFollowed-SameBut,
  pick-IsFollowed, AdvancesOrDies, AreApart,
}

module _ {X : Type 0} ⦃uv : Uv X⦄ ⦃os : Os X⦄ ⦃toml : Toml X⦄ ⦃rig : Rig X⦄
    (InStep : X → Ptr → Bool → Type 0)
    (set_law : (h : Ptr) (b old : Bool) (x : X)
      → InStep x h old
      → (rig.set_ptt h b x).0 ≡ false
      → InStep (rig.set_ptt h b x).1 h b)
    (other_law : (h g : Ptr) (b b' : Bool) (x : X)
      → g ≢ h
      → InStep x g b'
      → InStep (rig.set_ptt h b x).1 g b')
    (read_law : (fd : ℕ) (x : X) (h : Ptr) (b : Bool) → InStep x h b → InStep (os.read fd x).1 h b)
    (fuel : ℕ) where
  -- The radio `r` is in step, and every other one as it was in `x0`.
  abbrev KeepsStep : X → Ptr → X → Ptr → Bool → Type 0
  KeepsStep x0 r x g b =
      (g ≡ r) × InStep x r b × ((h : Ptr) (b' : Bool) → h ≢ r → InStep x0 h b' → InStep x h b')

  advance_lem :
      (w : World X) (handle radio : Ptr) (o : Outcome X (Unit {0}))
      (f : IsFollowed InStep w handle radio)
      → KeysOrDies (KeepsStep w.ext radio) w f.poll.context o
      → AdvancesOrDies InStep w (handle, radio) o
  advance_lem w handle radio (ok t w') f k = record {
    keeps = k.1;
    this = record {
      at = f.at;
      poll = f.poll;
      private = f.private;
      is_poll = IsPoll-Keeps f.is_poll k.1;
      is_cb = f.is_cb;
      at_handle = f.at_handle;
      context = k.0.context;
      port = k.0.port;
      driver = k.0.driver;
      user = k.0.user;
      wired = k.0.wired;
      at_radio = k.0.synced.0;
      synced = k.0.synced.1;
    };
    others =
        IsFollowed-SameBut InStep w w' f.poll.context radio f.wired f.at_radio k.1 k.2
          (λ r b ne s. k.0.synced.2 r b ne s);
  }
  advance_lem w handle radio (stop s w') f k = k

  event_advances :
      (w : World X) (handle radio : Ptr) (failed : Bool) (e : UvEvents)
      → IsFollowed InStep w handle radio
      → AdvancesOrDies InStep w (handle, radio) (call_event fuel (poll_event handle failed e) w)
  event_advances w handle radio failed e f = advance_lem w handle radio _ f (
      subst
        (λ q.
          KeysOrDies (KeepsStep w.ext radio) w f.poll.context
            (call_event fuel (poll_event q failed e) w))
        f.at_handle
        (event_keys (KeepsStep w.ext radio)
          (λ h b old x was done. (
            was.0,
            subst (λ g. InStep (rig.set_ptt h b x).1 g b) was.0
                (set_law h b old x (subst (λ g. InStep x g old) (sym was.0) was.1) done),
            λ g b' ne s. other_law h g b b' x (λ eq. ne (eq ∙ was.0)) (was.2 g b' ne s),
          ))
          (λ fd x h b was.
            (was.0, read_law fd x radio b was.1, λ g b' ne s. read_law fd x g b' (was.2 g b' ne s)))
          fuel f.at f.poll f.private f.is_cb w failed e f.is_poll
          (record {
            context = f.context;
            port = f.port;
            driver = f.driver;
            user = f.user;
            wired = f.wired;
            synced = (f.at_radio, f.synced, λ g b' ne s. s);
          })))

  -- Through any events that libuv reports for the handles of several ports, in any order, errors and
  -- all masks included, every radio stays in step with the lines that the driver keeps for its own
  -- port, if no two ports share a radio; all blocks stay as they are but the contexts of ports. Or
  -- the process ends by `util_fatal`; no memory fault is possible. Setting a radio is taken to keep it
  -- in step with what was set and to leave the other ones as they are, and `read` to change none.
  pub uv_run-AreFollowed :
      (w : World X) (a : Wire) (wires : List Wire) (es : List (ℕ × Bool × UvEvents))
      → AreApart (a ∷ wires)
      → AreFollowed InStep w a wires
      → FollowedOrDies InStep w a wires (uv_run (call_event fuel) (wire_events a wires es) w)
  unfolding uv_run
  uv_run-AreFollowed w a wires [] apart f = (f, Keeps-refl w)
  uv_run-AreFollowed w a wires ((k, failed, e) ∷ es) apart f =
      then_all InStep w a wires k (call_event fuel (poll_event (pick a wires k).0 failed e) w)
        (uv_run (call_event fuel) (wire_events a wires es)) apart f
        (event_advances w (pick a wires k).0 (pick a wires k).1 failed e
          (pick-IsFollowed InStep w a wires k f))
        (λ w1 f1. uv_run-AreFollowed w1 a wires es apart f1)
