-- ===== src/Main/Ptt.antt =====
-- src/drivers/vserial.c with src/modules/test.c: the radio's push-to-talk follows the RTS line.
use righack.Base.{
  subst, ℕ, ◌≡◌, refl, ◌∙◌, ap, sym, inl, inr, Bool, true, false, some, Text, arith, ==_iff,
  Bool-cases, Option-cases, ◌==◌, ◌&&◌, not, test_bit,
}
use righack.External.{Uv, Os, Toml, Rig, Read, read_failed, read_eof, read_bytes}
use righack.Machine.{World, Outcome, ok, stop, fatal}
use righack.Machine.Access.{load_held}
use righack.Machine.Objects.{
  Ptr, Poll, TestContext, Driver, Vserial, VserialContext, update_flow_control, struct_poll,
  struct_vserial_context, as_poll, as_vserial_context, as_vserial,
}
use righack.Main.{call_fc}
use righack.Runloop.Poll.{pevent_read, pevent_prio}
use righack.Vserial.Packet.{
  lines_of, tiocpkt_mset, vserial_deliver_fc_changed, vserial_handle_mset, vserial_handle_packet,
  handle_bytes, vserial_handle_read, vserial_poll_cb_run,
}
use righack.Vserial.Packet.Events.{
  with_bits, deliver_attached, mset_failed, mset_same, mset_changed,
}
use righack.Main.Wired.{
  SameBut, Keeps-refl, Keeps-trans, Keeps-calls, rts, Keeps, with_bits-Keeps, IsWired, told,
  update_wired, update_refused, IsWired-ext, IsWired-with_bits,
}
use righack.Main.Calls.{no_call, reads, keys}

module _ {X : Type 0} ⦃os : Os X⦄ ⦃rig : Rig X⦄ (InStep : X → Ptr → Bool → Type 0) where
  -- The radio transmits exactly if RTS was set when the lines were last read.
  pub record IsKeyed (w : World X) (p : Ptr) : Type 0 where
    pub context : VserialContext
    pub port : Vserial
    pub driver : Driver
    pub user : TestContext
    pub wired : IsWired w p context port driver user
    pub synced : InStep w.ext user.rig (rts context.modem_bits)

  -- What may come of an event in the state `w`: the invariant, with all blocks kept but the context
  -- of the port, or an end by `util_fatal`, never a fault.
  abbrev pub KeysOrDies : World X → Ptr → Outcome X (Unit {0}) → Type 0
  KeysOrDies w p (ok _ w') = IsKeyed w' p × Keeps w w' × SameBut p w w'
  KeysOrDies w p (stop s w') = (m : Text) × (s ≡ fatal m)

  pub KeysOrDies-Keeps :
      (w w1 : World X) (p : Ptr) (o : Outcome X (Unit {0}))
      → Keeps w w1
      → SameBut p w w1
      → KeysOrDies w1 p o
      → KeysOrDies w p o
  KeysOrDies-Keeps w w1 p (ok a w') keeps same k =
      (k.0, Keeps-trans keeps k.1, λ q ne. k.2 q ne ∙ same q ne)
  KeysOrDies-Keeps w w1 p (stop s w') keeps same k = k

  -- The outcome of an event that keys the radio as the kernel's lines say.
  abbrev pub Follows : Ptr → Ptr → ℕ → Outcome X (Unit {0}) → Type 0
  Follows p radio bits (ok _ w) =
      (InStep w.ext radio (rts bits))
      × (c : VserialContext) × (w.cell p ≡ some (struct_vserial_context c))
      × (c.modem_bits ≡ bits)
  Follows p radio bits (stop s w) = ⊥

module _ {X : Type 0} ⦃uv : Uv X⦄ ⦃os : Os X⦄ ⦃toml : Toml X⦄ ⦃rig : Rig X⦄
    (InStep : X → Ptr → Bool → Type 0) where
  -- Telling the radio the line of the bits that are kept brings it in step.
  told-IsKeyed :
      (w : World X) (p : Ptr) {c : VserialContext} {v : Vserial} {d : Driver} {u : TestContext}
      → IsWired w p c v d u
      → ((rig.set_ptt u.rig (rts c.modem_bits) w.ext).0 ≡ false
          → InStep (rig.set_ptt u.rig (rts c.modem_bits) w.ext).1 u.rig (rts c.modem_bits))
      → KeysOrDies InStep w p (call_fc update_flow_control c.driver (lines_of c.modem_bits) w)
  told-IsKeyed w p {c} {v} {d} {u} h law =
      elim (Bool-cases (rig.set_ptt u.rig (rts c.modem_bits) w.ext).0) [
        | inl failure ↦ rw (update_refused w p c.modem_bits h failure) (_, refl)
        | inr success ↦ rw (update_wired w p c.modem_bits h success) (
            (
              record {
                context = c;
                port = v;
                driver = d;
                user = u;
                wired = IsWired-ext w p c.modem_bits h _;
                synced = law success;
              },
              Keeps-calls w _ (keys no_call u.rig (rts c.modem_bits)),
              λ q ne. refl,
            ))
      ]

  -- The delivery that the port schedules when it is opened brings the radio in step and leaves all
  -- blocks as they are but contexts of ports, or ends the process by `util_fatal`; no memory fault
  -- is possible.
  pub vserial_deliver_fc_changed-keys :
      (set_law : (h : Ptr) (b : Bool) (x : X)
        → (rig.set_ptt h b x).0 ≡ false
        → InStep (rig.set_ptt h b x).1 h b)
      (w : World X) (p : Ptr) {c : VserialContext} {v : Vserial} {d : Driver} {u : TestContext}
      → IsWired w p c v d u
      → KeysOrDies InStep w p (vserial_deliver_fc_changed call_fc p w)
  vserial_deliver_fc_changed-keys set_law w p {c} {u} h =
      rw (deliver_attached call_fc w p update_flow_control h.attached)
        (told-IsKeyed w p h (set_law u.rig (rts c.modem_bits) w.ext))

  module _
      (set_law : (h : Ptr) (b old : Bool) (x : X)
        → InStep x h old
        → (rig.set_ptt h b x).0 ≡ false
        → InStep (rig.set_ptt h b x).1 h b) where
    mset_keys :
        (w : World X) (p : Ptr)
        → IsKeyed InStep w p
        → KeysOrDies InStep w p (vserial_handle_mset call_fc p w)
    mset_keys w p k = elim (Option-cases (os.ioctl_tiocmget w.ext k.port.pty_slave.fd)) [
      | inl e ↦ rw (mset_failed call_fc w p update_flow_control k.wired.attached e) (_, refl)
      | inr (bits, e) ↦ elim (Bool-cases (k.context.modem_bits == bits)) [
        | inl same ↦
            rw
              (mset_same call_fc w p update_flow_control k.wired.attached
                (e ∙ ap some (sym ((==_iff _ _).0 same))))
              (k, Keeps-refl w, λ q ne. refl)
        | inr other ↦
            rw
              (mset_changed call_fc w p update_flow_control k.wired.attached bits e
                (λ q. cc ((==_iff _ _).1 q)))
              (KeysOrDies-Keeps InStep w (with_bits w p k.context bits) p _
                (with_bits-Keeps w p bits k.wired) (λ q ne. ground (arith, ne))
                (told-IsKeyed (with_bits w p k.context bits) p (IsWired-with_bits w p bits k.wired)
                  (set_law k.user.rig (rts bits) (rts k.context.modem_bits) w.ext k.synced)))
      ]
    ]

    module _
        (read_law : (fd : ℕ) (x : X) (h : Ptr) (b : Bool)
          → InStep x h b
          → InStep (os.read fd x).1 h b) where
      IsKeyed-read :
          (w : World X) (p : Ptr) (fd : ℕ)
          → IsKeyed InStep w p
          → IsKeyed InStep (record w { ext = (os.read fd w.ext).1 }) p
      IsKeyed-read w p fd k = record {
        context = k.context;
        port = k.port;
        driver = k.driver;
        user = k.user;
        wired = IsWired-ext w p 0 k.wired _;
        synced = read_law fd w.ext k.user.rig _ k.synced;
      }

      bytes_key :
          (w : World X) (p : Ptr) (got : Read)
          → IsKeyed InStep w p
          → KeysOrDies InStep w p (handle_bytes call_fc got p w)
      unfolding handle_bytes vserial_handle_packet
      bytes_key w p read_failed k = (_, refl)
      bytes_key w p read_eof k = (_, refl)
      bytes_key w p (read_bytes b rest) k = elim (Bool-cases (b == 0)) [
        | inl t ↦ rw t (_, refl)
        | inr t ↦ elim (Bool-cases (test_bit b tiocpkt_mset)) [
          | inl on ↦ rw (t, on) (mset_keys w p k)
          | inr off ↦ rw (t, off) (k, Keeps-refl w, λ q ne. refl)
        ]
      ]

      read_keys :
          (w : World X) (p : Ptr)
          → IsKeyed InStep w p
          → KeysOrDies InStep w p (vserial_handle_read call_fc p w)
      unfolding vserial_handle_read
      read_keys w p k =
          rw
            (
              load_held w p _ k.wired.attached.holds_context as_vserial_context k.context refl,
              load_held w k.context.vserial _ k.wired.attached.holds_port as_vserial k.port refl,
            )
            (KeysOrDies-Keeps InStep w (record w { ext = (os.read k.port.pty_master.fd w.ext).1 }) p
              _ (Keeps-calls w _ (reads no_call k.port.pty_master.fd)) (λ q ne. refl)
              (bytes_key _ p (os.read k.port.pty_master.fd w.ext).0
                (IsKeyed-read w p k.port.pty_master.fd k)))

      -- Every poll event on the master side, whatever it reports and whatever is read, leaves the
      -- radio transmitting exactly if RTS is set in the lines that the driver keeps, or ends the
      -- process by `util_fatal`; no memory fault is possible, and no block but a port's context
      -- changes.
      pub vserial_poll_cb-keys :
          (w : World X) (q : Ptr) (poll : Poll) (events : ℕ)
          → w.cell q ≡ some (struct_poll poll)
          → IsKeyed InStep w poll.context
          → KeysOrDies InStep w poll.context (vserial_poll_cb_run call_fc q events w)
      unfolding vserial_poll_cb_run
      vserial_poll_cb-keys w q poll events held k =
          elim (Bool-cases (test_bit events pevent_read)) [
            | inl on ↦ elim (Bool-cases (test_bit events pevent_prio)) [
              | inl prio ↦
                  rw (on, prio, load_held w q _ held as_poll poll refl) (read_keys w poll.context k)
              | inr none_ ↦
                  rw (on, none_, load_held w q _ held as_poll poll refl)
                    (read_keys w poll.context k)
            ]
            | inr off ↦ elim (Bool-cases (test_bit events pevent_prio)) [
              | inl prio ↦ rw (off, prio) (_, refl)
              | inr none_ ↦ rw (off, none_) (k, Keeps-refl w, λ q ne. refl)
            ]
          ]

      mset-Follows :
          (w : World X) (p : Ptr) (bits : ℕ) {c : VserialContext} {v : Vserial} {d : Driver}
          {u : TestContext}
          → IsWired w p c v d u
          → InStep w.ext u.rig (rts c.modem_bits)
          → os.ioctl_tiocmget w.ext v.pty_slave.fd ≡ some bits
          → (rig.set_ptt u.rig (rts bits) w.ext).0 ≡ false
          → Follows InStep p u.rig bits (vserial_handle_mset call_fc p w)
      mset-Follows w p bits {c} {v} {d} {u} h synced e success =
          elim (Bool-cases (c.modem_bits == bits)) [
            | inl same ↦
                let eq = (==_iff _ _).0 same in
                rw (mset_same call_fc w p update_flow_control h.attached (e ∙ ap some (sym eq))) (
                  subst (λ b. InStep w.ext u.rig (rts b)) eq synced,
                  c,
                  h.attached.holds_context,
                  eq,
                )
            | inr other ↦
                rw
                  (
                    mset_changed call_fc w p update_flow_control h.attached bits e
                        (λ q. cc ((==_iff _ _).1 q)),
                    update_wired (with_bits w p c bits) p bits (IsWired-with_bits w p bits h)
                        success,
                  )
                  (
                    set_law u.rig (rts bits) (rts c.modem_bits) w.ext synced success,
                    record c { modem_bits = bits },
                    ground arith,
                    refl,
                  )
          ]

      -- When the radio is in step, a status packet reports a change of the lines, the kernel tells them
      -- and the radio takes the order, the call returns with the radio transmitting exactly if RTS is set in those
      -- lines, and the driver keeps them.
      pub vserial_poll_cb-Follows :
          (w : World X) (q : Ptr) (poll : Poll) (events b bits : ℕ) (rest : Text)
          (k : IsKeyed InStep w poll.context)
          → w.cell q ≡ some (struct_poll poll)
          → test_bit events pevent_read ≡ true
          → (os.read k.port.pty_master.fd w.ext).0 ≡ read_bytes b rest
          → test_bit b tiocpkt_mset ≡ true
          → os.ioctl_tiocmget (os.read k.port.pty_master.fd w.ext).1 k.port.pty_slave.fd ≡ some bits
          → (rig.set_ptt k.user.rig (rts bits) (os.read k.port.pty_master.fd w.ext).1).0 ≡ false
          → Follows InStep poll.context k.user.rig bits (vserial_poll_cb_run call_fc q events w)
      unfolding vserial_poll_cb_run
      vserial_poll_cb-Follows w q poll events b bits rest k held on got mset told success =
          let nonzero : (b == 0) ≡ false = ground arith in
          let guard : (test_bit events pevent_prio && not (test_bit events pevent_read)) ≡ false =
            ground arith in
          rw
            (
              guard,
              on,
              load_held w q _ held as_poll poll refl,
              load_held w poll.context _ k.wired.attached.holds_context as_vserial_context k.context
                  refl,
              load_held w k.context.vserial _ k.wired.attached.holds_port as_vserial k.port refl,
              got,
              nonzero,
              mset,
            )
            (mset-Follows (record w { ext = (os.read k.port.pty_master.fd w.ext).1 }) poll.context
              bits (IsWired-ext w poll.context 0 k.wired _)
              (read_law k.port.pty_master.fd w.ext k.user.rig _ k.synced) told success)
