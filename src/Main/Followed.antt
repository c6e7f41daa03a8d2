-- ===== src/Main/Followed.antt =====
-- src/drivers/vserial.c with src/modules/test.c: several ports, each wired to a radio of its own, and
-- what an event of one of them changes.
use righack.Base.{◌≢◌, ℕ, zero, suc, ◌≡◌, refl, ◌∙◌, subst, sym, ap, Bool, List, [], ◌∷◌, Text}
use righack.External.{Os, Rig, UvEvents}
use righack.Machine.{World, Outcome, ok, stop, fatal, and_then}
use righack.Machine.Objects.{
  Ptr, Poll, PollPrivate, TestContext, Driver, Vserial, VserialContext, vserial_poll_cb,
}
use righack.Main.Events.{IsPoll-Keeps}
use righack.Main.Polled.{pick}
use righack.Main.Wired.{IsWired, Keeps, Keeps-trans, SameBut, rts}
use righack.Runloop.Loop.{Event, poll_event}
use righack.Runloop.Poll.Life.{IsPoll}

-- A handle and the radio of its port.
abbrev pub Wire : Type 0
Wire = Ptr × Ptr

-- Events of these wires' handles: which wire, whether libuv reports an error, and the mask.
abbrev pub wire_events : Wire → List Wire → List (ℕ × Bool × UvEvents) → List Event
wire_events a wires [] = []
wire_events a wires ((k, failed, e) ∷ es) =
    poll_event (pick a wires k).0 failed e ∷ wire_events a wires es

-- None of the wires goes to the radio.
abbrev pub IsFree : Ptr → List Wire → Type 0
IsFree radio [] = Unit
IsFree radio (a ∷ wires) = (a.1 ≢ radio) × IsFree radio wires

-- No two of the wires go to the same radio.
abbrev pub AreApart : List Wire → Type 0
AreApart [] = Unit
AreApart (a ∷ wires) = IsFree a.1 wires × AreApart wires

pick-IsFree :
    (radio : Ptr) (a : Wire) (wires : List Wire) (k : ℕ)
    → IsFree radio (a ∷ wires)
    → radio ≢ (pick a wires k).1
pick-IsFree radio a [] k free = λ e. free.0 (sym e)
pick-IsFree radio a (b ∷ wires) zero free = λ e. free.0 (sym e)
pick-IsFree radio a (b ∷ wires) (suc k) free = pick-IsFree radio b wires k free.1

module _ {X : Type 0} ⦃os : Os X⦄ ⦃rig : Rig X⦄ (InStep : X → Ptr → Bool → Type 0) where
  -- A wire whose radio transmits exactly if RTS was set when the lines of its port were last read.
  pub record IsFollowed (w : World X) (handle radio : Ptr) : Type 0 where
    pub at : Ptr
    pub poll : Poll
    pub private : PollPrivate
    pub is_poll : IsPoll w at poll private
    pub is_cb : poll.cb ≡ vserial_poll_cb
    pub at_handle : poll.private ≡ handle
    pub context : VserialContext
    pub port : Vserial
    pub driver : Driver
    pub user : TestContext
    pub wired : IsWired w poll.context context port driver user
    pub at_radio : user.rig ≡ radio
    pub synced : InStep w.ext radio (rts context.modem_bits)

  abbrev pub AreFollowed : World X → Wire → List Wire → Type 0
  AreFollowed w a [] = IsFollowed w a.0 a.1
  AreFollowed w a (b ∷ wires) = IsFollowed w a.0 a.1 × AreFollowed w b wires

  -- What an event of this wire brings: the wire is followed, and so is each of another radio that was.
  pub record Advances (w w' : World X) (handle radio : Ptr) : Type 0 where
    pub keeps : Keeps w w'
    pub this : IsFollowed w' handle radio
    pub others : (g r : Ptr) → r ≢ radio → IsFollowed w g r → IsFollowed w' g r

  abbrev pub AdvancesOrDies : World X → Wire → Outcome X (Unit {0}) → Type 0
  AdvancesOrDies w a (ok _ w') = Advances w w' a.0 a.1
  AdvancesOrDies w a (stop s w') = (m : Text) × (s ≡ fatal m)

  -- All radios are followed and all blocks kept but the contexts of ports, or the process ended.
  abbrev pub FollowedOrDies : World X → Wire → List Wire → Outcome X (Unit {0}) → Type 0
  FollowedOrDies w a wires (ok _ w') = AreFollowed w' a wires × Keeps w w'
  FollowedOrDies w a wires (stop s w') = (m : Text) × (s ≡ fatal m)

  -- A context of a port belongs to one radio.
  one_radio :
      (w : World X) (p : Ptr) {c c' : VserialContext} {v v' : Vserial} {d d' : Driver}
      {u u' : TestContext}
      → IsWired w p c v d u
      → IsWired w p c' v' d' u'
      → u.rig ≡ u'.rig
  one_radio w p {c} {c'} {d} {d'} {u} {u'} h h' =
      let same_context : c ≡ c' = cc (h.attached.holds_context, h'.attached.holds_context) in
      let same_driver : d ≡ d' =
        cc (same_context, h.attached.holds_driver, h'.attached.holds_driver) in
      let same_user : u ≡ u' = cc (same_driver, h.holds_user, h'.holds_user) in
      ap (λ t. t.rig) same_user

  all_others :
      (w w' : World X) (handle radio : Ptr) (a : Wire) (wires : List Wire)
      → Advances w w' handle radio
      → IsFree radio (a ∷ wires)
      → AreFollowed w a wires
      → AreFollowed w' a wires
  all_others w w' handle radio a [] adv free f = adv.others a.0 a.1 free.0 f
  all_others w w' handle radio a (b ∷ wires) adv free f =
      (adv.others a.0 a.1 free.0 f.0, all_others w w' handle radio b wires adv free.1 f.1)

  pub pick-IsFollowed :
      (w : World X) (a : Wire) (wires : List Wire) (k : ℕ)
      → AreFollowed w a wires
      → IsFollowed w (pick a wires k).0 (pick a wires k).1
  pick-IsFollowed w a [] k f = f
  pick-IsFollowed w a (b ∷ wires) zero f = f.0
  pick-IsFollowed w a (b ∷ wires) (suc k) f = pick-IsFollowed w b wires k f.1

  all_advance :
      (w w' : World X) (a : Wire) (wires : List Wire) (k : ℕ)
      → AreApart (a ∷ wires)
      → Advances w w' (pick a wires k).0 (pick a wires k).1
      → AreFollowed w a wires
      → AreFollowed w' a wires
  all_advance w w' a [] k apart adv f = adv.this
  all_advance w w' a (b ∷ wires) zero apart adv f =
      (adv.this, all_others w w' a.0 a.1 b wires adv apart.0 f.1)
  all_advance w w' a (b ∷ wires) (suc k) apart adv f = (
    adv.others a.0 a.1 (pick-IsFree a.1 b wires k apart.0) f.0,
    all_advance w w' b wires k apart.1 adv f.1,
  )

  -- Another wire is followed as before, when the one at the context `p` of this radio changes.
  pub IsFollowed-SameBut :
      (w w' : World X) (p : Ptr) (radio : Ptr) {c : VserialContext} {v : Vserial} {d : Driver}
      {u : TestContext}
      → IsWired w p c v d u
      → u.rig ≡ radio
      → Keeps w w'
      → SameBut p w w'
      → ((r : Ptr) (b : Bool) → r ≢ radio → InStep w.ext r b → InStep w'.ext r b)
      → (g r : Ptr) → r ≢ radio
      → IsFollowed w g r
      → IsFollowed w' g r
  IsFollowed-SameBut w w' p radio {u} this eq keeps same step g r ne f =
      let other : f.poll.context ≢ p = λ e. ne (
        sym f.at_radio
        ∙ one_radio w p (subst (λ q. IsWired w q f.context f.port f.driver f.user) e f.wired) this
        ∙ eq) in
      record {
        at = f.at;
        poll = f.poll;
        private = f.private;
        is_poll = IsPoll-Keeps f.is_poll keeps;
        is_cb = f.is_cb;
        at_handle = f.at_handle;
        context = f.context;
        port = f.port;
        driver = f.driver;
        user = f.user;
        wired = record {
          attached = record {
            holds_context = same f.poll.context other ∙ f.wired.attached.holds_context;
            holds_port = keeps.blocks f.context.vserial _ f.wired.attached.holds_port refl;
            holds_driver = keeps.blocks f.context.driver _ f.wired.attached.holds_driver refl;
            cb = f.wired.attached.cb;
            holds_cb = keeps.blocks f.driver.cb _ f.wired.attached.holds_cb refl;
            calls = f.wired.attached.calls;
          };
          holds_user = keeps.blocks f.driver.user _ f.wired.holds_user refl;
        };
        at_radio = f.at_radio;
        synced = step r (rts f.context.modem_bits) ne f.synced;
      }

  from_lem :
      (w w1 : World X) (a : Wire) (wires : List Wire) (o : Outcome X (Unit {0}))
      → Keeps w w1
      → FollowedOrDies w1 a wires o
      → FollowedOrDies w a wires o
  from_lem w w1 a wires (ok t w') keeps f = (f.0, Keeps-trans keeps f.1)
  from_lem w w1 a wires (stop s w') keeps f = f

  pub then_all :
      (w : World X) (a : Wire) (wires : List Wire) (k : ℕ) (o : Outcome X (Unit {0}))
      (rest : World X → Outcome X (Unit {0}))
      → AreApart (a ∷ wires)
      → AreFollowed w a wires
      → AdvancesOrDies w (pick a wires k) o
      → ((w1 : World X) → AreFollowed w1 a wires → FollowedOrDies w1 a wires (rest w1))
      → FollowedOrDies w a wires (and_then o (λ _. rest))
  then_all w a wires k (ok t w1) rest apart f adv on =
      from_lem w w1 a wires (rest w1) adv.keeps (on w1 (all_advance w w1 a wires k apart adv f))
  then_all w a wires k (stop s w1) rest apart f adv on = adv
