-- ===== src/Main/Wired.antt =====
-- src/drivers/vserial.c with src/modules/test.c: a port that is wired to the radio of the test module,
-- and what a change of RTS does there.
use righack.Base.{
  ◌≢◌, ◌∙◌, inr, inl, ◌==◌, Bool-cases, none, ℕ, ◌≡◌, refl, Bool, true, false, some, bytes, arith,
  test_bit,
}
use righack.External.{Uv, Os, Toml, Rig}
use righack.Machine.{World, ok, stop, fatal}
use righack.Machine.Access.{load_held}
use righack.Machine.Objects.{
  struct_vserial_context, as_vserial_context, Object, Ptr, TestContext, Driver, Vserial,
  VserialContext, update_flow_control, struct_test_context, as_driver, as_test_context,
}
use righack.Main.{call_fc}
use righack.Vserial.Packet.{lines_of}
use righack.Vserial.Packet.Events.{IsAttached, with_bits, IsAttached-with_bits}
use righack.Main.Calls.{RadioCalls-trans, no_call, RadioCalls}

-- TIOCM_RTS
abbrev pub rts : ℕ → Bool
rts modem_bits = test_bit modem_bits 2

module _ {X : Type 0} where
  -- A port whose `fc_changed` is the test module's, with the context `u` of that module.
  pub record IsWired (w : World X) (p : Ptr) (c : VserialContext) (v : Vserial) (d : Driver)
      (u : TestContext) : Type 0 where
    pub attached : IsAttached w p update_flow_control c v d
    pub holds_user : w.cell d.user ≡ some (struct_test_context u)

-- No block changes but the one at `p`.
abbrev pub SameBut : {X : Type 0} → Ptr → World X → World X → Type 0
SameBut p w w' = (q : Ptr) → q ≢ p → w'.cell q ≡ w.cell q

module _ {X : Type 0} ⦃os : Os X⦄ ⦃rig : Rig X⦄ where
  -- All blocks are kept, of the contexts of ports all but the modem bits, and the variables that the
  -- end of the program reads; outside there were calls of the radio and of `read` alone.
  pub record Keeps (w w' : World X) : Type 0 where
    pub blocks :
        (q : Ptr) (o : Object)
        → w.cell q ≡ some o
        → as_vserial_context o ≡ none
        → w'.cell q ≡ some o
    pub contexts :
        (q : Ptr) (c : VserialContext)
        → w.cell q ≡ some (struct_vserial_context c)
        → (bits : ℕ) × (w'.cell q ≡ some (struct_vserial_context (record c { modem_bits = bits })))
    pub calls : RadioCalls os rig w.ext w'.ext
    pub same_loop : w'.thread_loop ≡ w.thread_loop
    pub same_signal : w'.int_signal ≡ w.int_signal
    pub same_running : w'.running_modules ≡ w.running_modules

  pub Keeps-calls :
      (w : World X) (x : X) → RadioCalls os rig w.ext x → Keeps w (record w { ext = x })
  Keeps-calls w x calls = record {
    blocks = λ q o held other. held;
    contexts = λ q c held. (c.modem_bits, held);
    calls = calls;
    same_loop = refl;
    same_signal = refl;
    same_running = refl;
  }

  pub Keeps-refl : (w : World X) → Keeps w w
  Keeps-refl w = Keeps-calls w w.ext no_call

  pub Keeps-trans : {w1 w2 w3 : World X} → Keeps w1 w2 → Keeps w2 w3 → Keeps w1 w3
  Keeps-trans a b = record {
    blocks = λ q o held other. b.blocks q o (a.blocks q o held other) other;
    contexts = λ q c held. let (bits, held') = a.contexts q c held in b.contexts q _ held';
    calls = RadioCalls-trans a.calls b.calls;
    same_loop = b.same_loop ∙ a.same_loop;
    same_signal = b.same_signal ∙ a.same_signal;
    same_running = b.same_running ∙ a.same_running;
  }

module _ {X : Type 0} ⦃uv : Uv X⦄ ⦃os : Os X⦄ ⦃toml : Toml X⦄ ⦃rig : Rig X⦄ where
  module _ (w : World X) (p : Ptr) (bits : ℕ) {c : VserialContext} {v : Vserial} {d : Driver}
      {u : TestContext} (h : IsWired w p c v d u) where
    -- The state once the radio has been told the RTS line of `bits`.
    abbrev pub told : World X
    told = record w { ext = (rig.set_ptt u.rig (rts bits) w.ext).1 }

    pub update_wired :
        (rig.set_ptt u.rig (rts bits) w.ext).0 ≡ false
        → call_fc update_flow_control c.driver (lines_of bits) w ≡ ok tt told
    unfolding call_fc lines_of
    update_wired success = rw (
      load_held w c.driver _ h.attached.holds_driver as_driver d refl,
      load_held w d.user _ h.holds_user as_test_context u refl,
      success,
    )

    pub update_refused :
        (rig.set_ptt u.rig (rts bits) w.ext).0 ≡ true
        → call_fc update_flow_control c.driver (lines_of bits) w
          ≡ stop (fatal (bytes "Could not set transmit: %s")) told
    unfolding call_fc lines_of
    update_refused failure = rw (
      load_held w c.driver _ h.attached.holds_driver as_driver d refl,
      load_held w d.user _ h.holds_user as_test_context u refl,
      failure,
    )

    -- Nothing in `IsWired` speaks of what lies outside.
    pub IsWired-ext : (x : X) → IsWired (record w { ext = x }) p c v d u
    IsWired-ext x = record {
      attached = record {
        holds_context = h.attached.holds_context;
        holds_port = h.attached.holds_port;
        holds_driver = h.attached.holds_driver;
        cb = h.attached.cb;
        holds_cb = h.attached.holds_cb;
        calls = h.attached.calls;
      };
      holds_user = h.holds_user;
    }

    pub IsWired-with_bits : IsWired (with_bits w p c bits) p (record c { modem_bits = bits }) v d u
    IsWired-with_bits = record {
      attached = IsAttached-with_bits call_fc w p update_flow_control bits h.attached;
      holds_user = ground (arith, h.attached.holds_context, h.holds_user);
    }

    with_bits_at :
        (q : Ptr) (d : VserialContext)
        → w.cell q ≡ some (struct_vserial_context d)
        → (q == p) ≡ true
        → (with_bits w p c bits).cell q
          ≡ some (struct_vserial_context (record d { modem_bits = bits }))
    with_bits_at q d held t = ground (arith, h.attached.holds_context, held, t)

    pub with_bits-Keeps : Keeps w (with_bits w p c bits)
    with_bits-Keeps = record {
      blocks = λ q o held other. ground (arith, h.attached.holds_context);
      contexts = λ q d held. elim (Bool-cases (q == p)) [
        | inl t ↦ (bits, with_bits_at q d held t)
        | inr t ↦ (d.modem_bits, ground (arith, held, t))
      ];
      calls = no_call;
      same_loop = refl;
      same_signal = refl;
      same_running = refl;
    }
