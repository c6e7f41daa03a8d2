-- ===== src/Main/Awaited.antt =====
-- src/runloop.c with src/drivers/vserial.c and src/modules/test.c: ports whose first delivery waits, and
-- what the deliveries bring.
use righack.Base.{◌≡◌, refl, subst, sym, Bool, false, List, [], ◌∷◌, Text}
use righack.External.{Uv, Os, Rig}
use righack.Machine.{World, Outcome, ok, stop, fatal}
use righack.Machine.Extends.{KeepsIf, is_lasting}
use righack.Machine.Objects.{
  null, Ptr, Module, TestContext, VserialContext, vserial_deliver_fc_changed_cb,
}
use righack.Main.Launched.{IsSetUp, IsSetUp-KeepsIf}
use righack.Main.Followed.{Wire, IsFree, IsFollowed, AreFollowed, FollowedOrDies}
use righack.Main.Wired.{IsWired, rts}
use righack.Runloop.Later.{job}
use righack.Runloop.Later.Chain.{Slot, Slots}

module _ {X : Type 0} where
  -- A job that delivers the lines of the port of this wire.
  pub record IsAwaited (w : World X) (s : Slot) (a : Wire) : Type 0 where
    pub at_module : Ptr
    pub module_is : Module
    pub user : TestContext
    pub port : Ptr
    pub context : VserialContext
    pub set_up : IsSetUp w at_module module_is user port context a.0
    pub at_radio : user.rig ≡ a.1
    pub is_delivery : s.job ≡ job vserial_deliver_fc_changed_cb port

  abbrev pub AreAwaited : World X → Slots → List Wire → Type 0
  AreAwaited w [] [] = Unit
  AreAwaited w [] (a ∷ wires) = ⊥
  AreAwaited w (s ∷ ss) [] = ⊥
  AreAwaited w (s ∷ ss) (a ∷ wires) = IsAwaited w s a × AreAwaited w ss wires

  pub AreAwaited-KeepsIf :
      (w w' : World X) (ss : Slots) (wires : List Wire)
      → AreAwaited w ss wires
      → KeepsIf is_lasting w.cell w'.cell
      → AreAwaited w' ss wires
  AreAwaited-KeepsIf w w' [] [] a kept = tt
  AreAwaited-KeepsIf w w' [] (b ∷ wires) a kept = absurd a
  AreAwaited-KeepsIf w w' (s ∷ ss) [] a kept = absurd a
  AreAwaited-KeepsIf w w' (s ∷ ss) (b ∷ wires) a kept = (
    record {
      at_module = a.0.at_module;
      module_is = a.0.module_is;
      user = a.0.user;
      port = a.0.port;
      context = a.0.context;
      set_up = IsSetUp-KeepsIf {w' = w'} a.0.set_up kept;
      at_radio = a.0.at_radio;
      is_delivery = a.0.is_delivery;
    },
    AreAwaited-KeepsIf w w' ss wires a.1 kept,
  )

module _ {X : Type 0} ⦃os : Os X⦄ ⦃rig : Rig X⦄ (InStep : X → Ptr → Bool → Type 0) where
  pub IsFollowed-KeepsIf :
      (w w' : World X) (g r : Ptr)
      → KeepsIf is_lasting w.cell w'.cell
      → ((b : Bool) → InStep w.ext r b → InStep w'.ext r b)
      → IsFollowed InStep w g r
      → IsFollowed InStep w' g r
  IsFollowed-KeepsIf w w' g r kept step f = record {
    at = f.at;
    poll = f.poll;
    private = f.private;
    is_poll = record {
      holds_poll = kept f.at _ f.is_poll.holds_poll refl;
      holds_private = kept f.poll.private _ f.is_poll.holds_private refl;
      points_back = f.is_poll.points_back;
    };
    is_cb = f.is_cb;
    at_handle = f.at_handle;
    context = f.context;
    port = f.port;
    driver = f.driver;
    user = f.user;
    wired = record {
      attached = record {
        holds_context = kept f.poll.context _ f.wired.attached.holds_context refl;
        holds_port = kept f.context.vserial _ f.wired.attached.holds_port refl;
        holds_driver = kept f.context.driver _ f.wired.attached.holds_driver refl;
        cb = f.wired.attached.cb;
        holds_cb = kept f.driver.cb _ f.wired.attached.holds_cb refl;
        calls = f.wired.attached.calls;
      };
      holds_user = kept f.driver.user _ f.wired.holds_user refl;
    };
    at_radio = f.at_radio;
    synced = step (rts f.context.modem_bits) f.synced;
  }

  -- A module that is set up, once its radio is in step.
  pub IsSetUp-IsFollowed :
      (w : World X) (p port handle radio : Ptr) (m : Module) (u : TestContext) (c : VserialContext)
      → IsSetUp w p m u port c handle
      → u.rig ≡ radio
      → InStep w.ext radio (rts c.modem_bits)
      → IsFollowed InStep w handle radio
  IsSetUp-IsFollowed w p port handle radio m u c s at_radio synced =
      let (is_cb, at_port, at_handle) = s.is_polled in
      record {
        at = c.poll;
        poll = s.poll;
        private = s.private;
        is_poll = s.is_poll;
        is_cb = is_cb;
        at_handle = at_handle;
        context = c;
        port = s.vserial;
        driver = s.driver;
        user = u;
        wired = subst (λ q. IsWired w q c s.vserial s.driver u) (sym at_port) s.wired;
        at_radio = at_radio;
        synced = synced;
      }

  abbrev pub AllFollowed : World X → List Wire → Type 0
  AllFollowed w [] = Unit
  AllFollowed w (a ∷ wires) = IsFollowed InStep w a.0 a.1 × AllFollowed w wires

  pub all_lem :
      (w : World X) (a : Wire) (wires : List Wire)
      → AllFollowed w (a ∷ wires)
      → AreFollowed InStep w a wires
  all_lem w a [] f = f.0
  all_lem w a (b ∷ wires) f = (f.0, all_lem w b wires f.1)

  -- All wires are followed, or the process ended by `util_fatal`.
  abbrev pub SyncedOrDies : Wire → List Wire → Outcome X (Unit {0}) → Type 0
  SyncedOrDies a wires (ok _ w) = AreFollowed InStep w a wires
  SyncedOrDies a wires (stop s w) = (m : Text) × (s ≡ fatal m)

  pub synced_lem :
      (w : World X) (a : Wire) (wires : List Wire) (o : Outcome X (Unit {0}))
      → FollowedOrDies InStep w a wires o
      → SyncedOrDies a wires o
  synced_lem w a wires (ok t w') f = f.0
  synced_lem w a wires (stop s w') f = f

  -- What deliveries to these wires bring: they are followed, and so is each of another radio that was.
  pub record Brings (w w' : World X) (wires : List Wire) : Type 0 where
    pub kept : KeepsIf is_lasting w.cell w'.cell
    pub all : AllFollowed w' wires
    pub others : (g r : Ptr) → IsFree r wires → IsFollowed InStep w g r → IsFollowed InStep w' g r

  pub Brings-trans :
      {w1 w2 w3 : World X} (a : Wire) (wires : List Wire)
      → IsFree a.1 wires
      → Brings w1 w2 (a ∷ [])
      → Brings w2 w3 wires
      → Brings w1 w3 (a ∷ wires)
  Brings-trans a wires free one more = record {
    kept = λ q o held e. more.kept q o (one.kept q o held e) e;
    all = (more.others a.0 a.1 free one.all.0, more.all);
    others = λ g r apart f. more.others g r apart.1 (one.others g r (apart.0, tt) f);
  }

  module _ ⦃uv : Uv X⦄ (prepare : Ptr)
      (stop_law : (prepare : Ptr) (x : X) (h : Ptr) (b : Bool)
        → InStep x h b
        → InStep (uv.prepare_stop prepare x) h b) where
    -- They are followed still at the end of the pass.
    pub stopped_all :
        (w : World X) (wires : List Wire)
        → AllFollowed w wires
        → AllFollowed
            (record w {
              run_once_queue = null;
              ext = uv.prepare_stop prepare w.ext;
              run_once_prepare_started = false;
            })
            wires
    stopped_all w [] f = tt
    stopped_all w (a ∷ wires) f = (
      IsFollowed-KeepsIf w _ a.0 a.1 (λ q o held e. held)
          (λ b was. stop_law prepare w.ext a.1 b was) f.0,
      stopped_all w wires f.1,
    )
