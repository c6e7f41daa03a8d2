-- ===== src/Main/Ports.antt =====
-- src/modules/test.c with src/drivers/vserial.c: several modules whose ports are polled.
use righack.Base.{◌≡◌, ◌∙◌, List, [], ◌∷◌}
use righack.External.{Uv, Os, Rig}
use righack.Machine.{World}
use righack.Machine.Extends.{KeepsIf, is_lasting}
use righack.Machine.Objects.{
  Ptr, Module, TestContext, VserialContext, vserial_deliver_fc_changed_cb,
}
use righack.Main.Calls.{RadioCalls, RadioCalls-trans}
use righack.Main.Launched.{IsSetUp, IsSetUp-KeepsIf}
use righack.Module.{test_module_info}
use righack.Runloop.Later.{job}
use righack.Runloop.Later.Chain.{Slot, Slots}
use righack.Runloop.Poll.{uv_of_events}
use righack.Vserial.{poll_mask}

module _ {X : Type 0} where
  -- A module that is set up with this handle.
  pub record IsUp (w : World X) (handle : Ptr) : Type 0 where
    pub at_module : Ptr
    pub module_is : Module
    pub user : TestContext
    pub port : Ptr
    pub context : VserialContext
    pub set_up : IsSetUp w at_module module_is user port context handle

  abbrev pub AreUp : World X → List Ptr → Type 0
  AreUp w [] = Unit
  AreUp w (h ∷ hs) = IsUp w h × AreUp w hs

  pub IsUp-KeepsIf :
      {w w' : World X} {h : Ptr} → IsUp w h → KeepsIf is_lasting w.cell w'.cell → IsUp w' h
  IsUp-KeepsIf {w'} u kept = record {
    at_module = u.at_module;
    module_is = u.module_is;
    user = u.user;
    port = u.port;
    context = u.context;
    set_up = IsSetUp-KeepsIf {w' = w'} u.set_up kept;
  }

  pub AreUp-KeepsIf :
      (w w' : World X) (hs : List Ptr)
      → AreUp w hs
      → KeepsIf is_lasting w.cell w'.cell
      → AreUp w' hs
  AreUp-KeepsIf w w' [] a kept = tt
  AreUp-KeepsIf w w' (h ∷ hs) a kept = (IsUp-KeepsIf a.0 kept, AreUp-KeepsIf w w' hs a.1 kept)

  -- A job that delivers the lines of a port of such a module.
  pub record Delivering (w : World X) (s : Slot) : Type 0 where
    pub at_module : Ptr
    pub module_is : Module
    pub user : TestContext
    pub port : Ptr
    pub context : VserialContext
    pub handle : Ptr
    pub set_up : IsSetUp w at_module module_is user port context handle
    pub is_delivery : s.job ≡ job vserial_deliver_fc_changed_cb port

  abbrev pub AreDelivering : World X → Slots → Type 0
  AreDelivering w [] = Unit
  AreDelivering w (s ∷ ss) = Delivering w s × AreDelivering w ss

  pub AreDelivering-KeepsIf :
      (w w' : World X) (ss : Slots)
      → AreDelivering w ss
      → KeepsIf is_lasting w.cell w'.cell
      → AreDelivering w' ss
  AreDelivering-KeepsIf w w' [] a kept = tt
  AreDelivering-KeepsIf w w' (s ∷ ss) a kept = (
    record {
      at_module = a.0.at_module;
      module_is = a.0.module_is;
      user = a.0.user;
      port = a.0.port;
      context = a.0.context;
      handle = a.0.handle;
      set_up = IsSetUp-KeepsIf {w' = w'} a.0.set_up kept;
      is_delivery = a.0.is_delivery;
    },
    AreDelivering-KeepsIf w w' ss a.1 kept,
  )

module _ {X : Type 0} ⦃uv : Uv X⦄ ⦃os : Os X⦄ ⦃rig : Rig X⦄ where
  -- The module that was started last: it is the first of the running ones, and since its handle was
  -- started there were calls of the radio alone.
  pub record IsTop (w : World X) : Type 0 where
    pub at_module : Ptr
    pub module_is : Module
    pub user : TestContext
    pub port : Ptr
    pub context : VserialContext
    pub handle : Ptr
    pub set_up : IsSetUp w at_module module_is user port context handle
    pub is_test : module_is.info ≡ test_module_info
    pub before : X
    pub calls : RadioCalls os rig (uv.poll_start handle (uv_of_events poll_mask) before) w.ext
    pub others : List Ptr
    pub running : w.running_modules ≡ at_module ∷ others

  pub IsTop-KeepsIf :
      {w w' : World X}
      → IsTop w
      → KeepsIf is_lasting w.cell w'.cell
      → RadioCalls os rig w.ext w'.ext
      → w'.running_modules ≡ w.running_modules
      → IsTop w'
  IsTop-KeepsIf {w'} t kept calls running = record {
    at_module = t.at_module;
    module_is = t.module_is;
    user = t.user;
    port = t.port;
    context = t.context;
    handle = t.handle;
    set_up = IsSetUp-KeepsIf {w' = w'} t.set_up kept;
    is_test = t.is_test;
    before = t.before;
    calls = RadioCalls-trans t.calls calls;
    others = t.others;
    running = running ∙ t.running;
  }
