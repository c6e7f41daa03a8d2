-- ===== src/Main/Pass.antt =====
-- src/main.c with all of the parts: the schedule of the sections, and the pass over the queue behind it.
use mathlib.Core.List.{append-nil}
use righack.Base.{
  ℕ, zero, suc, ◌+◌, ◌<◌, ◌≡◌, refl, subst, Bool, false, List, [], ◌∷◌, ◌++◌, arith, length, inl,
  inr, ◌⊎◌,
}
use righack.External.{Uv, Os, Toml, Rig}
use righack.Machine.{World, ok}
use righack.Machine.Ends.{IsFatal}
use righack.Machine.Objects.{Ptr, null, DriverInfo, ModuleInfo}
use righack.Main.{call_event, call_job}
use righack.Main.Ports.{AreUp, AreUp-KeepsIf}
use righack.Main.Ready.{IsReady}
use righack.Main.Launched.{IsSetUp-KeepsIf}
use righack.Main.Sections.{AreStarting}
use righack.Main.Starts.{IsPassed, starts_lem}
use righack.Module.{test_module_info}
use righack.Configfile.Keys.{HasText}
use righack.Runloop.Later.Chain.{Slot, Slots, Waiting, first}
use righack.Runloop.Later.Drain.{Waiting-Draining, Draining}
use righack.Runloop.Later.Stops.{prepare_outcome}
use righack.Runloop.Loop.{prepare_event}
use righack.Vserial.{vserial_driver_info}

-- Nothing is said of the radio.
abbrev pub Anyhow : {X : Type 0} → X → Ptr → Bool → Type 0
Anyhow x h b = Unit

module _ {X : Type 0} ⦃uv : Uv X⦄ ⦃os : Os X⦄ ⦃toml : Toml X⦄ ⦃rig : Rig X⦄ where
  -- What the pass leaves: the module started last is ready, and `n` further ports are polled.
  pub record AreReady (prepare : Ptr) (w w' : World X) (n : ℕ) : Type 0 where
    pub handle : Ptr
    pub handles : List Ptr
    pub are_up : AreUp w' (handle ∷ handles)
    pub count : length handles ≡ n
    pub ready : IsReady Anyhow prepare w w'

  -- The state at the end of a pass, whose loop has left `w`.
  abbrev passed : Ptr → World X → World X
  passed prepare w = record w {
    run_once_queue = null;
    ext = uv.prepare_stop prepare w.ext;
    run_once_prepare_started = false;
  }

  passed-IsReady :
      (prepare : Ptr) (w w1 : World X) {n : ℕ}
      → IsPassed w w1 n
      → IsReady Anyhow prepare w (passed prepare w1)
  passed-IsReady prepare w w1 p =
      let t = p.top in
      record {
        at_module = t.at_module;
        module_is = t.module_is;
        is_test = t.is_test;
        user = t.user;
        port = t.port;
        context = t.context;
        handle = t.handle;
        set_up = IsSetUp-KeepsIf {w' = passed prepare w1} t.set_up (λ q o held lasts. held);
        synced = tt;
        before = t.before;
        after = w1.ext;
        calls = t.calls;
        stopped = refl;
        adds = record {
          same_loop = p.same_loop;
          same_signal = p.same_signal;
          same_root = p.same_root;
          same_drivers = p.same_drivers;
          same_modules = p.same_modules;
          others = t.others;
          running = t.running;
          kept = p.kept;
        };
      }

  passed-AreReady :
      (prepare : Ptr) (w w1 : World X) (n : ℕ)
      → IsPassed w w1 (suc n)
      → AreReady prepare w (passed prepare w1) n
  passed-AreReady prepare w w1 n p = go p.handles p.are_up p.count
    where
      go :
          (hs : List Ptr)
          → AreUp w1 hs
          → length hs ≡ suc n
          → AreReady prepare w (passed prepare w1) n
      go [] up e = absurd (omega (arith, e))
      go (h ∷ hs) up e = record {
        handle = h;
        handles = hs;
        are_up = AreUp-KeepsIf w1 (passed prepare w1) (h ∷ hs) up (λ q o held lasts. held);
        count = omega (arith, e);
        ready = passed-IsReady prepare w w1 p;
      }

  pub pass_lem :
      (fuel : ℕ) (prepare : Ptr) (s : Slot) (ss : Slots) (drs : List DriverInfo)
      (ms : List ModuleInfo) (w : World X)
      → length ss + length ss + 2 < fuel
      → Waiting w (s ∷ ss)
      → w.run_once_queue ≡ s.at
      → AreStarting w (s ∷ ss)
      → HasText w
      → w.loaded_drivers ≡ vserial_driver_info ∷ drs
      → w.loaded_modules ≡ test_module_info ∷ ms
      → ((w' : World X) × (call_event fuel (prepare_event prepare) w ≡ ok tt w')
          × AreReady prepare w w' (length ss))
        ⊎ IsFatal (call_event fuel (prepare_event prepare) w)
  unfolding call_event
  pass_lem zero prepare s ss drs ms w lt wt start a has drivers modules = absurd (omega (arith, lt))
  pass_lem (suc f) prepare s ss drs ms w lt wt start a has drivers modules =
      let d : Draining w ((s ∷ ss) ++ []) = rw append-nil (Waiting-Draining w (s ∷ ss) wt) in
      let start' : w.run_once_queue ≡ first ((s ∷ ss) ++ []) = start in
      elim (starts_lem f drs ms (suc f) (s ∷ ss) [] [] w (omega (arith, lt)) d a tt tt tt has
        drivers modules) [
          | inr (m, v, dies) ↦ inr (
            m,
            v,
            prepare_outcome (call_job (suc f)) (suc f) prepare ((s ∷ ss) ++ []) w _ start' dies,
          )
          | inl (w1, ran, _, p) ↦ inl (
            passed prepare w1,
            prepare_outcome (call_job (suc f)) (suc f) prepare ((s ∷ ss) ++ []) w _ start' ran,
            passed-AreReady prepare w w1 (length ss) (subst (λ n. IsPassed w w1 n) (omega arith) p),
          )
        ]
