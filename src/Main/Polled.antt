-- ===== src/Main/Polled.antt =====
-- src/runloop.c with src/drivers/vserial.c and src/modules/test.c: a run of the loop in which libuv
-- reports events of several ports.
use righack.Base.{ℕ, zero, suc, ◌≡◌, refl, subst, sym, Bool, List, [], ◌∷◌, Text}
use righack.External.{Uv, Os, Toml, Rig, UvEvents}
use righack.Machine.{World, Outcome, ok, stop, fatal, and_then}
use righack.Machine.Objects.{
  Ptr, Poll, PollPrivate, TestContext, Driver, Vserial, VserialContext, vserial_poll_cb,
}
use righack.Main.{call_event}
use righack.Main.Events.{event_keys, IsPoll-Keeps}
use righack.Main.Ports.{IsUp, AreUp}
use righack.Main.Ptt.{KeysOrDies}
use righack.Main.Wired.{IsWired, Keeps, Keeps-refl, Keeps-trans}
use righack.Runloop.Loop.{Event, poll_event, uv_run}
use righack.Runloop.Poll.Life.{IsPoll}

-- What an event is of: the `k`th, or the last one if there are not so many.
abbrev pub pick {ℓ} : {A : Type ℓ} → A → List A → ℕ → A
pick h [] k = h
pick h (g ∷ hs) zero = h
pick h (g ∷ hs) (suc k) = pick g hs k

-- Events of these handles: which handle, whether libuv reports an error, and the mask.
abbrev pub handle_events : Ptr → List Ptr → List (ℕ × Bool × UvEvents) → List Event
handle_events h hs [] = []
handle_events h hs ((k, failed, e) ∷ es) = poll_event (pick h hs k) failed e ∷ handle_events h hs es

module _ {X : Type 0} ⦃os : Os X⦄ ⦃rig : Rig X⦄ where
  -- All blocks are kept but the contexts of ports, or the process ends by `util_fatal`.
  abbrev pub KeepsOrDies : World X → Outcome X (Unit {0}) → Type 0
  KeepsOrDies w (ok _ w') = Keeps w w'
  KeepsOrDies w (stop s w') = (m : Text) × (s ≡ fatal m)

  after_lem :
      (w w1 : World X) (o : Outcome X (Unit {0})) → Keeps w w1 → KeepsOrDies w1 o → KeepsOrDies w o
  after_lem w w1 (ok a w') keeps k = Keeps-trans keeps k
  after_lem w w1 (stop s w') keeps k = k

  -- A handle whose events go to a port that is wired to a radio.
  pub record IsPolled (w : World X) (handle : Ptr) : Type 0 where
    pub at : Ptr
    pub poll : Poll
    pub private : PollPrivate
    pub is_poll : IsPoll w at poll private
    pub is_cb : poll.cb ≡ vserial_poll_cb
    pub at_handle : poll.private ≡ handle
    pub context : VserialContext
    pub port : Vserial
    pub driver : Driver
    pub user : TestContext
    pub wired : IsWired w poll.context context port driver user

  abbrev pub ArePolled : World X → Ptr → List Ptr → Type 0
  ArePolled w h [] = IsPolled w h
  ArePolled w h (g ∷ hs) = IsPolled w h × ArePolled w g hs

  IsUp-IsPolled : {w : World X} {h : Ptr} → IsUp w h → IsPolled w h
  IsUp-IsPolled {w} u =
      let s = u.set_up in
      let (is_cb, at_port, at_handle) = s.is_polled in
      record {
        at = u.context.poll;
        poll = s.poll;
        private = s.private;
        is_poll = s.is_poll;
        is_cb = is_cb;
        at_handle = at_handle;
        context = u.context;
        port = s.vserial;
        driver = s.driver;
        user = u.user;
        wired = subst (λ p. IsWired w p u.context s.vserial s.driver u.user) (sym at_port) s.wired;
      }

  pub AreUp-ArePolled :
      {w : World X} (h : Ptr) (hs : List Ptr) → AreUp w (h ∷ hs) → ArePolled w h hs
  AreUp-ArePolled h [] a = IsUp-IsPolled a.0
  AreUp-ArePolled h (g ∷ hs) a = (IsUp-IsPolled a.0, AreUp-ArePolled g hs a.1)

  IsPolled-Keeps : {w w' : World X} {h : Ptr} → IsPolled w h → Keeps w w' → IsPolled w' h
  IsPolled-Keeps p keeps =
      let (bits, held) = keeps.contexts p.poll.context p.context p.wired.attached.holds_context in
      record {
        at = p.at;
        poll = p.poll;
        private = p.private;
        is_poll = IsPoll-Keeps p.is_poll keeps;
        is_cb = p.is_cb;
        at_handle = p.at_handle;
        context = record (p.context) { modem_bits = bits };
        port = p.port;
        driver = p.driver;
        user = p.user;
        wired = record {
          attached = record {
            holds_context = held;
            holds_port = keeps.blocks p.context.vserial _ p.wired.attached.holds_port refl;
            holds_driver = keeps.blocks p.context.driver _ p.wired.attached.holds_driver refl;
            cb = p.wired.attached.cb;
            holds_cb = keeps.blocks p.driver.cb _ p.wired.attached.holds_cb refl;
            calls = p.wired.attached.calls;
          };
          holds_user = keeps.blocks p.driver.user _ p.wired.holds_user refl;
        };
      }

  ArePolled-Keeps :
      {w w' : World X} (h : Ptr) (hs : List Ptr) → ArePolled w h hs → Keeps w w' → ArePolled w' h hs
  ArePolled-Keeps h [] a keeps = IsPolled-Keeps a keeps
  ArePolled-Keeps h (g ∷ hs) a keeps = (IsPolled-Keeps a.0 keeps, ArePolled-Keeps g hs a.1 keeps)

  pick-IsPolled :
      (w : World X) (h : Ptr) (hs : List Ptr) (k : ℕ) → ArePolled w h hs → IsPolled w (pick h hs k)
  pick-IsPolled w h [] k a = a
  pick-IsPolled w h (g ∷ hs) zero a = a.0
  pick-IsPolled w h (g ∷ hs) (suc k) a = pick-IsPolled w g hs k a.1

module _ {X : Type 0} ⦃uv : Uv X⦄ ⦃os : Os X⦄ ⦃toml : Toml X⦄ ⦃rig : Rig X⦄ (fuel : ℕ) where
  kept_lem :
      (InStep : X → Ptr → Bool → Type 0) (w : World X) (p : Ptr) (o : Outcome X (Unit {0}))
      → KeysOrDies InStep w p o
      → KeepsOrDies w o
  kept_lem InStep w p (ok a w') k = k.1
  kept_lem InStep w p (stop s w') k = k

  event_lem :
      (w : World X) (h : Ptr) (failed : Bool) (e : UvEvents)
      → IsPolled w h
      → KeepsOrDies w (call_event fuel (poll_event h failed e) w)
  event_lem w h failed e p =
      subst (λ q. KeepsOrDies w (call_event fuel (poll_event q failed e) w)) p.at_handle
        (kept_lem (λ x g b. Unit) w p.poll.context _
          (event_keys (λ x g b. Unit) (λ g b old x was done. tt) (λ fd x g b t. tt) fuel p.at p.poll
            p.private p.is_cb w failed e p.is_poll
            (record {
              context = p.context;
              port = p.port;
              driver = p.driver;
              user = p.user;
              wired = p.wired;
              synced = tt;
            })))

  then_lem :
      (w : World X) (o : Outcome X (Unit {0})) (rest : World X → Outcome X (Unit {0}))
      → KeepsOrDies w o
      → ((w1 : World X) → Keeps w w1 → KeepsOrDies w1 (rest w1))
      → KeepsOrDies w (and_then o (λ _. rest))
  then_lem w (ok a w1) rest k on = after_lem w w1 (rest w1) k (on w1 k)
  then_lem w (stop s w1) rest k on = k

  -- Any events of the handles keep all blocks but the contexts of ports, or one ends the process.
  pub uv_run_keeps :
      (w : World X) (h : Ptr) (hs : List Ptr) (es : List (ℕ × Bool × UvEvents))
      → ArePolled w h hs
      → KeepsOrDies w (uv_run (call_event fuel) (handle_events h hs es) w)
  unfolding uv_run
  uv_run_keeps w h hs [] a = Keeps-refl w
  uv_run_keeps w h hs ((k, failed, e) ∷ es) a =
      then_lem w (call_event fuel (poll_event (pick h hs k) failed e) w)
        (uv_run (call_event fuel) (handle_events h hs es))
        (event_lem w (pick h hs k) failed e (pick-IsPolled w h hs k a))
        (λ w1 keeps. uv_run_keeps w1 h hs es (ArePolled-Keeps h hs a keeps))
