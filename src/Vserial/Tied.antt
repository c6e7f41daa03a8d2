-- ===== src/Vserial/Tied.antt =====
-- src/drivers/vserial.c: the structures that `vserial_lifecycle_init` ties to each other.
use righack.Base.{ℕ, ◌+◌, ◌<◌, ◌≡◌, refl, ◌∙◌, inl, inr, some, [], ◌∷◌, ◌++◌, Text, arith}
use righack.Configfile.Keys.{HasText}
use righack.External.{Uv, Os, Toml}
use righack.Machine.{World, ok}
use righack.Machine.Access.{held_lt_next}
use righack.Machine.Others.{KeepsBut, is_lasting-is_fixed}
use righack.Machine.Extends.{
  is_lasting-not_text, KeepsTexts, KeepsTexts-trans, is_settled-not_text, KeepsIf, Extends,
  Extends-trans, Extends-weaken, Extends-write, not_text, is_queue, is_fixed, is_settled,
  is_settled-is_fixed,
}
use righack.Machine.Memory.{write}
use righack.Machine.Objects.{
  struct_poll_private, Object, Ptr, null, Driver, Poll, PollPrivate, Vserial, VserialContext,
  vserial_poll_cb, vserial_deliver_fc_changed_cb, struct_driver, struct_poll, struct_vserial,
  struct_vserial_context, struct_text,
}
use righack.Runloop.Later.{job, runloop_run_later}
use righack.Runloop.Later.Chain.{Slot, Slots, Waiting, Waiting-Extends}
use righack.Runloop.Later.Schedule.{new_slot, runloop_run_later-Waiting}
use righack.Runloop.Poll.{uv_of_events}
use righack.Runloop.Poll.Life.{IsPoll}
use righack.Vserial.{poll_mask}
use righack.Vserial.Port.Named.{port_at}
use righack.Vserial.Built.{fresh_context, IsBuilt, HasText-Extends}

module _ {X : Type 0} ⦃uv : Uv X⦄ where
  -- A driver instance whose port is open: what `vserial_lifecycle_init` leaves of `w` in `w'`, with
  -- the delivery scheduled behind the jobs `ss`.
  pub record IsOpen (w w' : World X) (p : Ptr) (d : Driver) (ss : Slots) (context : VserialContext)
      (port : Vserial) : Type 0 where
    pub holds_driver : w'.cell p ≡ some (struct_driver (record d { private = w.next }))
    pub holds_context : w'.cell w.next ≡ some (struct_vserial_context context)
    pub is_driver : context.driver ≡ p
    pub holds_port : w'.cell context.vserial ≡ some (struct_vserial port)
    pub poll : Poll
    pub private : PollPrivate
    pub is_poll : IsPoll w' context.poll poll private
    pub is_polled : (poll.cb ≡ vserial_poll_cb) × (poll.context ≡ w.next)
    pub slot : Slot
    pub is_delivery : slot.job ≡ job vserial_deliver_fc_changed_cb w.next
    pub waiting : Waiting w' (ss ++ slot ∷ [])
    pub has_text : HasText w'
    pub extends : Extends is_settled w w'
    pub others : KeepsBut p w.cell w'.cell
    pub keeps_texts : KeepsTexts w w'
    pub before : X
    pub called : w'.ext ≡ uv.poll_start poll.private (uv_of_events poll_mask) before

module _ {X : Type 0} ⦃os : Os X⦄ ⦃toml : Toml X⦄ ⦃uv : Uv X⦄ (section name : Text) where
  -- The stores between the poll handle and the scheduling of the delivery.
  module _ (w : World X) (p : Ptr) (d : Driver) (ss : Slots)
      (held : w.cell p ≡ some (struct_driver d)) (b : IsBuilt section name w ss) where
    abbrev pub built_poll : Poll
    built_poll = record { cb = vserial_poll_cb; context = null; private = b.created.next + 1 }

    abbrev pub tied_poll : Poll
    tied_poll = record built_poll { context = w.next }

    abbrev pub poll_tied : World X
    poll_tied = record (b.built) {
      cell = write b.built.cell b.created.next (some (struct_poll tied_poll));
    }

    abbrev pub driver_tied : World X
    driver_tied = record poll_tied {
      cell = write poll_tied.cell p (some (struct_driver (record d { private = w.next })));
    }

    abbrev pub kept_context : ℕ → VserialContext
    kept_context bits = record {
      driver = p;
      poll = b.created.next;
      vserial = b.looked_up.next;
      modem_bits = bits;
    }

    abbrev all_tied : ℕ → World X
    all_tied bits = record driver_tied {
      cell = write driver_tied.cell w.next (some (struct_vserial_context (kept_context bits)));
    }

    since : Extends not_text w b.built
    since =
        Extends-trans b.since_start
          (Extends-weaken (λ o e. refl) (Extends-trans b.since_lookup b.since_port))

    built_driver : b.built.cell p ≡ some (struct_driver d)
    built_driver = since.kept p (struct_driver d) held refl

    built_context : b.built.cell w.next ≡ some (struct_vserial_context fresh_context)
    built_context = (Extends-trans b.since_lookup b.since_port).kept w.next _ b.holds_context refl

    built_port :
        b.built.cell b.looked_up.next
        ≡ some (struct_vserial (port_at b.master b.slave b.slave_path b.looked_up.next b.lflag))
    built_port = b.since_port.kept b.looked_up.next _ b.made.holds_port refl

    pub tied_driver : poll_tied.cell p ≡ some (struct_driver d)
    tied_driver = ground (arith, built_driver, b.is_poll.holds_poll)

    pub tied_context : driver_tied.cell w.next ≡ some (struct_vserial_context fresh_context)
    tied_context = ground (arith, built_context, built_driver, b.is_poll.holds_poll)

    tied_Extends : (bits : ℕ) → Extends is_queue b.built (all_tied bits)
    tied_Extends bits =
        let ext1 =
          Extends-write is_queue b.built b.created.next _ (struct_poll tied_poll) b.built.ext
            b.waiting.formed b.is_poll.holds_poll refl in
        let ext2 =
          Extends-write is_queue poll_tied p _ (struct_driver (record d { private = w.next }))
            b.built.ext ext1.formed tied_driver refl in
        let ext3 =
          Extends-write is_queue driver_tied w.next _ (struct_vserial_context (kept_context bits))
            b.built.ext ext2.formed tied_context refl in
        Extends-trans ext1 (Extends-trans ext2 ext3)

    start_lt : (q : Ptr) (o : Object) → w.cell q ≡ some o → q < w.next
    start_lt q o old = held_lt_next w q o old b.start

    tied_kept : (bits : ℕ) → KeepsIf is_settled w.cell (all_tied bits).cell
    tied_kept bits q o old settled =
        let early : b.created.cell q ≡ some o =
          (Extends-trans b.since_start (Extends-weaken (λ k e. refl) b.since_lookup)).kept q o old
            (is_settled-not_text o settled) in
        let before : q < b.created.next = held_lt_next b.created q o early b.made.extends.formed in
        let now : b.built.cell q ≡ some o = since.kept q o old (is_settled-not_text o settled) in
        ground (arith, held, old, settled, now, before, start_lt q o old)

    tied_others : (bits : ℕ) → KeepsBut p w.cell (all_tied bits).cell
    tied_others bits q o apart old lasts =
        let early : b.created.cell q ≡ some o =
          (Extends-trans b.since_start (Extends-weaken (λ k e. refl) b.since_lookup)).kept q o old
            (is_lasting-not_text o lasts) in
        let before : q < b.created.next = held_lt_next b.created q o early b.made.extends.formed in
        let now : b.built.cell q ≡ some o = since.kept q o old (is_lasting-not_text o lasts) in
        ground (arith, apart, now, before, start_lt q o old)

    tied_holds_driver :
        (bits : ℕ) → (all_tied bits).cell p ≡ some (struct_driver (record d { private = w.next }))
    tied_holds_driver bits = ground (arith, tied_driver, tied_context)

    tied_holds_port :
        (bits : ℕ)
        → (all_tied bits).cell b.looked_up.next
          ≡ some (struct_vserial (port_at b.master b.slave b.slave_path b.looked_up.next b.lflag))
    tied_holds_port bits =
        ground (arith, built_port, built_driver, built_context, b.is_poll.holds_poll)

    tied_holds_poll :
        (bits : ℕ) → (all_tied bits).cell b.created.next ≡ some (struct_poll tied_poll)
    tied_holds_poll bits = ground (arith, built_driver, built_context, b.is_poll.holds_poll)

    tied_holds_private :
        (bits : ℕ)
        → (all_tied bits).cell (b.created.next + 1)
          ≡ some (struct_poll_private (record { uv_data = b.created.next; fd = b.master }))
    tied_holds_private bits = ground (arith, built_driver, built_context, b.is_poll.holds_private)

    tied_HasText : (bits : ℕ) → HasText (all_tied bits)
    tied_HasText bits = elim b.has_text [
      | inl e ↦ inl e
      | inr (t, text) ↦
          inr (t, ground (arith, text, built_driver, built_context, b.is_poll.holds_poll))
    ]

    tied-KeepsTexts :
        (bits : ℕ) (w' : World X)
        → Extends is_fixed (all_tied bits) w'
        → w'.config_buf ≡ b.built.config_buf
        → KeepsTexts b.built w'
    tied-KeepsTexts bits w' ext buf = record {
      texts = λ q t old ne.
          let now : (all_tied bits).cell q ≡ some (struct_text t) =
            ground (arith, old, built_driver, built_context, b.is_poll.holds_poll) in
          (ext.kept q _ now refl, λ e. ne (e ∙ buf));
    }

    pub finish :
        (bits : ℕ)
        → (w' : World X) × (runloop_run_later vserial_deliver_fc_changed_cb w.next (all_tied bits)
            ≡ ok
                (record {
                  cb = vserial_deliver_fc_changed_cb;
                  context = w.next;
                  private = b.built.next;
                })
                w')
          × (w'.cell b.created.next ≡ some (struct_poll tied_poll))
          × ((x : X)
              → IsOpen w
                  (record w' {
                    ext = uv.poll_start (b.created.next + 1) (uv_of_events poll_mask) x;
                  })
                  p
                  d
                  ss
                  (kept_context bits)
                  (port_at b.master b.slave b.slave_path b.looked_up.next b.lflag))
    finish bits =
        let ext = tied_Extends bits in
        let wt = Waiting-Extends b.waiting ext refl refl in
        let (w', later, wt', _, _, ext', buf) =
          runloop_run_later-Waiting vserial_deliver_fc_changed_cb w.next (all_tied bits) ss wt in
        let text = HasText-Extends is_fixed (λ t. refl) (tied_HasText bits) ext' buf in
        (
          w',
          later,
          ext'.kept b.created.next _ (tied_holds_poll bits) refl,
          λ x. record {
            before = x;
            called = refl;
            holds_driver = ext'.kept p _ (tied_holds_driver bits) refl;
            holds_context = ext'.kept w.next _ (ground arith) refl;
            is_driver = refl;
            holds_port = ext'.kept b.looked_up.next _ (tied_holds_port bits) refl;
            poll = tied_poll;
            private = record { uv_data = b.created.next; fd = b.master };
            is_poll = record {
              holds_poll = ext'.kept b.created.next _ (tied_holds_poll bits) refl;
              holds_private = ext'.kept (b.created.next + 1) _ (tied_holds_private bits) refl;
              points_back = refl;
            };
            is_polled = (refl, refl);
            slot = new_slot (all_tied bits) vserial_deliver_fc_changed_cb w.next;
            is_delivery = refl;
            waiting = record {
              formed = wt'.formed;
              chain = wt'.chain;
              distinct = wt'.distinct;
              tail = wt'.tail;
            };
            has_text = text;
            keeps_texts =
                let t = KeepsTexts-trans b.keeps_texts (tied-KeepsTexts bits w' ext' buf) in
                record { texts = t.texts };
            others = λ q o apart old lasts.
                ext'.kept q o (tied_others bits q o apart old lasts) (is_lasting-is_fixed o lasts);
            extends = record {
              formed = wt'.formed;
              kept = λ q o old settled.
                  ext'.kept q o (tied_kept bits q o old settled) (is_settled-is_fixed o settled);
              same_root = ext'.same_root ∙ since.same_root;
              same_drivers = ext'.same_drivers ∙ since.same_drivers;
              same_modules = ext'.same_modules ∙ since.same_modules;
              same_loop = ext'.same_loop ∙ since.same_loop;
              same_signal = ext'.same_signal ∙ since.same_signal;
              same_running = ext'.same_running ∙ since.same_running;
            };
          },
        )
