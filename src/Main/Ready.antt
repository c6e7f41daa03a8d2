-- ===== src/Main/Ready.antt =====
-- src/runloop.c with src/modules/test.c: what the pass over the queue leaves once the module is started.
use righack.Base.{arith, ℕ, ◌≡◌, Bool, false, List, Text, arith}
use righack.External.{Uv, Os, Toml, Rig, UvEvents}
use righack.Machine.{World}
use righack.Machine.Extends.{is_lasting, KeepsIf}
use righack.Machine.Objects.{VserialContext, TestContext, Module, Ptr}
use righack.Main.{call_event}
use righack.Main.Events.{poll_events}
use righack.Main.Launch.{Works}
use righack.Main.Launched.{IsSetUp}
use righack.Main.Ptt.{IsKeyed, KeysOrDies}
use righack.Main.Section.{Adds}
use righack.Main.Wired.{rts}
use righack.Module.{test_module_info}
use righack.Runloop.Later.Chain.{Slot, Holds}
use righack.Runloop.Later.Drain.{released}
use righack.Runloop.Loop.{uv_run}
use righack.Vserial.{poll_mask}
use righack.Main.Calls.{RadioCalls}
use righack.Runloop.Poll.{uv_of_events}

-- Freeing a job that has run changes none of the lasting blocks.
pub released-KeepsIf :
    {X : Type 0} (w : World X) (s : Slot) (next : Ptr)
    → Holds w.cell s next
    → KeepsIf is_lasting w.cell (released w s).cell
released-KeepsIf w s next h q o held lasts = ground (arith, h, held, lasts)

-- Setting push-to-talk always succeeds.
pub record Keying {X : Type 0} (rig : Rig X) : Type 0 where
  pub takes : (h : Ptr) (b : Bool) (x : X) → (rig.set_ptt h b x).0 ≡ false

-- All calls of the start succeed.
pub record Runs {X : Type 0} (os : Os X) (rig : Rig X) (name : Text) (rigid : ℕ) : Type 0 where
  pub works : Works os rig name rigid
  pub keying : Keying rig

module _ {X : Type 0} ⦃uv : Uv X⦄ ⦃os : Os X⦄ ⦃toml : Toml X⦄ ⦃rig : Rig X⦄ where
  -- A port whose radio is in step with its lines, and stays so through the events `es`.
  pub record IsFollowing (InStep : X → Ptr → Bool → Type 0) (fuel : ℕ) (es : List (Bool × UvEvents))
      (w : World X) : Type 0 where
    pub handle : Ptr
    pub port : Ptr
    pub keyed : IsKeyed InStep w port
    pub keeps_on : KeysOrDies InStep w port (uv_run (call_event fuel) (poll_events handle es) w)

  -- A running module whose port is polled, and whose radio is in step with the port's lines: what
  -- the pass over the queue leaves of `w` in `w'`. Since the handle was started there were calls of
  -- the radio alone, and the stop of the prepare handle.
  pub record IsReady (InStep : X → Ptr → Bool → Type 0) (prepare : Ptr) (w w' : World X)
      : Type 0 where
    pub at_module : Ptr
    pub module_is : Module
    pub is_test : module_is.info ≡ test_module_info
    pub user : TestContext
    pub port : Ptr
    pub context : VserialContext
    pub handle : Ptr
    pub set_up : IsSetUp w' at_module module_is user port context handle
    pub synced : InStep w'.ext user.rig (rts context.modem_bits)
    pub before : X
    pub after : X
    pub calls : RadioCalls os rig (uv.poll_start handle (uv_of_events poll_mask) before) after
    pub stopped : w'.ext ≡ uv.prepare_stop prepare after
    pub adds : Adds w w' at_module

  pub IsReady-IsKeyed :
      (InStep : X → Ptr → Bool → Type 0) {prepare : Ptr} {w w' : World X}
      → (r : IsReady InStep prepare w w') → IsKeyed InStep w' r.port
  IsReady-IsKeyed InStep r = record {
    context = r.context;
    port = r.set_up.vserial;
    driver = r.set_up.driver;
    user = r.user;
    wired = r.set_up.wired;
    synced = r.synced;
  }
