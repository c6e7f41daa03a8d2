-- ===== src/Vserial/Init.antt =====
-- src/drivers/vserial.c: what `vserial_lifecycle_init` sets up.
use righack.Base.{◌⊎◌, Option-cases, ℕ, ◌+◌, ◌≡◌, refl, ◌≢◌, inl, inr, some, Text, bytes, arith}
use righack.Configfile.Keys.{HasText, HasKey}
use righack.External.{Uv, Os, Toml}
use righack.Machine.{World, ok}
use righack.Machine.Access.{load_held, store_held}
use righack.Machine.Memory.{alloc}
use righack.Machine.Objects.{
  Ptr, null, Driver, Vserial, VserialContext, struct_driver, struct_poll, struct_vserial_context,
  as_driver, as_poll, as_vserial,
}
use righack.Runloop.Later.Chain.{Slots, Waiting}
use righack.Runloop.Poll.{uv_of_events, runloop_poll_start}
use righack.Vserial.{poll_mask, vserial_lifecycle_init}
use righack.Vserial.Port.Create.{Succeeds}
use righack.Machine.Ends.{Dies}
use righack.Vserial.Port.Named.{port_at}
use righack.Vserial.Built.{IsBuilt, build}
use righack.Vserial.Tied.{
  IsOpen, built_poll, tied_poll, poll_tied, driver_tied, kept_context, tied_driver, tied_context,
  finish,
}

-- The calls that open a port succeed, and so does reading its lines.
pub record IsWorking {X : Type 0} (os : Os X) (name : Text) : Type 0 where
  pub port : Succeeds os name
  pub lines : (x : X) (fd : ℕ) → (bits : ℕ) × (os.ioctl_tiocmget x fd ≡ some bits)

module _ {X : Type 0} ⦃os : Os X⦄ ⦃toml : Toml X⦄ ⦃uv : Uv X⦄ (section name : Text) where
  -- `vserial_lifecycle_init` on a port that is built.
  built_init :
      (w : World X) (p : Ptr) (d : Driver) (ss : Slots)
      → (held : w.cell p ≡ some (struct_driver d)) → (b : IsBuilt section name w ss)
      → ((w' : World X) × (vserial_lifecycle_init p section w ≡ ok tt w')
          × (c : VserialContext) × (v : Vserial) × IsOpen w w' p d ss c v)
        ⊎ Dies (IsWorking os name) (vserial_lifecycle_init p section w)
  unfolding vserial_lifecycle_init alloc runloop_poll_start
  built_init w p d ss held b = elim (Option-cases (os.ioctl_tiocmget b.built.ext b.slave)) [
    | inl none_ ↦ inr (
      bytes "Could not ioctl(TIOCMGET): %m",
      driver_tied section name w p d ss held b,
      rw
          (
            b.lookup,
            b.creation,
            load_held b.created b.looked_up.next _ b.made.holds_port as_vserial
                (port_at b.master b.slave b.slave_path b.looked_up.next b.lflag) refl,
            b.polling,
            load_held b.built b.created.next _ b.is_poll.holds_poll as_poll
                (built_poll section name w p d ss held b) refl,
            store_held b.built b.created.next _ b.is_poll.holds_poll
                (struct_poll (tied_poll section name w p d ss held b)),
            load_held (poll_tied section name w p d ss held b) p _
                (tied_driver section name w p d ss held b) as_driver d refl,
            store_held (poll_tied section name w p d ss held b) p _
                (tied_driver section name w p d ss held b)
                (struct_driver (record d { private = w.next })),
            none_,
          )
          refl,
      λ s. let (bits, told) = s.lines b.built.ext b.slave in ground (arith, told, none_),
    )
    | inr (bits, told) ↦
        let (w', later, polled, open_) = finish section name w p d ss held b bits in
        inl (
          record w' { ext = uv.poll_start (b.created.next + 1) (uv_of_events poll_mask) w'.ext },
          rw (
            b.lookup,
            b.creation,
            load_held b.created b.looked_up.next _ b.made.holds_port as_vserial
                (port_at b.master b.slave b.slave_path b.looked_up.next b.lflag) refl,
            b.polling,
            load_held b.built b.created.next _ b.is_poll.holds_poll as_poll
                (built_poll section name w p d ss held b) refl,
            store_held b.built b.created.next _ b.is_poll.holds_poll
                (struct_poll (tied_poll section name w p d ss held b)),
            load_held (poll_tied section name w p d ss held b) p _
                (tied_driver section name w p d ss held b) as_driver d refl,
            store_held (poll_tied section name w p d ss held b) p _
                (tied_driver section name w p d ss held b)
                (struct_driver (record d { private = w.next })),
            told,
            store_held (driver_tied section name w p d ss held b) w.next _
                (tied_context section name w p d ss held b)
                (struct_vserial_context (kept_context section name w p d ss held b bits)),
            later,
            load_held w' b.created.next _ polled as_poll (tied_poll section name w p d ss held b)
                refl,
          ),
          _,
          _,
          open_ w'.ext,
        )
  ]

  -- Where the configuration has the section's `vserial.port`, `vserial_lifecycle_init` either
  -- returns, and then the driver holds a context with an open port and a poll handle, tied to each
  -- other, the delivery of the lines waits behind all jobs, and all blocks but texts, entries of the
  -- queue and drivers stay; or the process ends by `util_fatal`, and then not all calls outside
  -- succeed with a port whose name and path fit.
  pub vserial_lifecycle_init-IsOpen :
      (w : World X) (p : Ptr) (d : Driver) (ss : Slots)
      → Waiting w ss
      → HasText w
      → w.toml_root ≢ null
      → HasKey toml w.toml_root section (bytes "vserial.port") name
      → w.cell p ≡ some (struct_driver d)
      → ((w' : World X) × (vserial_lifecycle_init p section w ≡ ok tt w')
          × (c : VserialContext) × (v : Vserial) × IsOpen w w' p d ss c v)
        ⊎ Dies (IsWorking os name) (vserial_lifecycle_init p section w)
  unfolding vserial_lifecycle_init alloc
  vserial_lifecycle_init-IsOpen w p d ss wt has root key held =
      elim (build section name w ss wt has root key) [
        | inl b ↦ built_init w p d ss held b
        | inr (looked_up, lookup, (m, v, dies, why)) ↦
            inr (m, v, rw (lookup, dies) refl, λ s. why s.port)
      ]
