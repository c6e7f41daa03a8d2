-- ===== src/Main/Launched.antt =====
-- src/modules/test.c: an instance of the test module whose start has returned.
use righack.Base.{Text, ◌+◌, ◌≡◌, refl, ◌≢◌, ◌∙◌, subst, sym, ap, true, some, ◌∷◌, ◌++◌, [], arith}
use righack.External.{Uv, Os, Toml, Rig}
use righack.Machine.{World}
use righack.Machine.Extends.{is_lasting, KeepsIf, is_untied, is_started}
use righack.Machine.Memory.{write}
use righack.Machine.Objects.{
  unstarted, Object, Ptr, null, Driver, Module, TestContext, Poll, PollPrivate, Vserial,
  VserialContext, struct_driver_cb, struct_module, struct_test_context, no_cb_set, vserial_poll_cb,
  vserial_deliver_fc_changed_cb,
}
use righack.Main.Attach.{
  has_user, has_user-Extends, user_holds_driver, user_holds_cb, flow_cb, IsStarted,
}
use righack.Main.Opening.{new_driver, with_driver}
use righack.Main.Wired.{IsWired}
use righack.Runloop.Later.{job}
use righack.Runloop.Later.Chain.{Slot, Slots, Waiting}
use righack.Runloop.Poll.Life.{IsPoll}
use righack.Vserial.{poll_mask, vserial_driver_info}
use righack.Vserial.Tied.{IsOpen}
use righack.Main.Calls.{RadioCalls}
use righack.Runloop.Poll.{uv_of_events}

-- A module at `p` that keys the radio: its context is wired to the port's context at `port`, whose poll handle calls
-- `vserial_poll_cb` for it.
pub record IsSetUp {X : Type 0} (w : World X) (p : Ptr) (m : Module) (user : TestContext)
    (port : Ptr) (context : VserialContext) (handle : Ptr) : Type 0 where
  pub test : Ptr
  pub radio : user.rig ≢ null
  pub vserial : Vserial
  pub driver : Driver
  pub holds_module : w.cell p ≡ some (struct_module (record m { private = test }))
  pub holds_test : w.cell test ≡ some (struct_test_context user)
  pub wired : IsWired w port context vserial driver user
  pub tied : (user.vserial ≡ context.driver) × (driver.user ≡ test) × (driver.private ≡ port)
  pub poll : Poll
  pub private : PollPrivate
  pub is_poll : IsPoll w context.poll poll private
  pub is_polled : (poll.cb ≡ vserial_poll_cb) × (poll.context ≡ port) × (poll.private ≡ handle)
  pub driver_is : (driver.info ≡ vserial_driver_info) × (driver.status ≡ unstarted)
  pub there : (port ≢ null) × (user.vserial ≢ null)

-- The first delivery of the port's lines waits behind the jobs `ss`, and since the handle was started
-- there were calls of the radio alone.
pub record IsLaunched {X : Type 0} ⦃uv : Uv X⦄ ⦃os : Os X⦄ ⦃rig : Rig X⦄ (w : World X) (p : Ptr)
    (m : Module) (ss : Slots) : Type 0 where
  pub user : TestContext
  pub port : Ptr
  pub context : VserialContext
  pub handle : Ptr
  pub set_up : IsSetUp w p m user port context handle
  pub before : X
  pub calls : RadioCalls os rig (uv.poll_start handle (uv_of_events poll_mask) before) w.ext
  pub slot : Slot
  pub is_delivery : slot.job ≡ job vserial_deliver_fc_changed_cb port
  pub waiting : Waiting w (ss ++ slot ∷ [])

abbrev pub no_test : TestContext
no_test = record { vserial = null; rig = null }

-- The state with the block of the module's context.
abbrev pub with_test : {X : Type 0} → World X → World X
with_test w = record w {
  cell = write w.cell w.next (some (struct_test_context no_test));
  next = w.next + 1;
}

-- What is set up lasts while no block of it changes.
pub IsSetUp-KeepsIf :
    {X : Type 0} {w w' : World X} {p : Ptr} {m : Module} {user : TestContext} {port : Ptr}
    {context : VserialContext} {handle : Ptr}
    → IsSetUp w p m user port context handle
    → KeepsIf is_lasting w.cell w'.cell
    → IsSetUp w' p m user port context handle
IsSetUp-KeepsIf {w} {w'} {p} {m} {user} {port} {context} {handle} s kept = record {
  test = s.test;
  radio = s.radio;
  vserial = s.vserial;
  driver = s.driver;
  holds_module = kept p _ s.holds_module refl;
  holds_test = kept s.test _ s.holds_test refl;
  wired = record {
    attached = record {
      holds_context = kept port _ s.wired.attached.holds_context refl;
      holds_port = kept context.vserial _ s.wired.attached.holds_port refl;
      holds_driver = kept context.driver _ s.wired.attached.holds_driver refl;
      cb = s.wired.attached.cb;
      holds_cb = kept s.driver.cb _ s.wired.attached.holds_cb refl;
      calls = s.wired.attached.calls;
    };
    holds_user = kept s.driver.user _ s.wired.holds_user refl;
  };
  tied = s.tied;
  poll = s.poll;
  private = s.private;
  is_poll = record {
    holds_poll = kept context.poll _ s.is_poll.holds_poll refl;
    holds_private = kept s.poll.private _ s.is_poll.holds_private refl;
    points_back = s.is_poll.points_back;
  };
  is_polled = s.is_polled;
  driver_is = s.driver_is;
  there = s.there;
}

module _ {X : Type 0} ⦃uv : Uv X⦄ ⦃os : Os X⦄ ⦃toml : Toml X⦄ ⦃rig : Rig X⦄ (label : Text) where
  -- What the three steps leave, from the module's own block on.
  pub launched :
      (w : World X) (p : Ptr) (m : Module) (ss : Slots)
      → w.cell p ≡ some (struct_module m)
      → Waiting w ss
      → (w2 : World X) (c : VserialContext) (v : Vserial) (w4 : World X)
      → (is : IsOpen (with_driver (with_test w)) w2 (w.next + 1) (new_driver (w.next + 1)) ss c v)
      → (holds_test : w2.cell w.next ≡ some (struct_test_context no_test))
      → (holds_cb : w2.cell (w.next + 1 + 1) ≡ some (struct_driver_cb no_cb_set))
      → IsStarted label
          (has_user w2 w.next
            (w.next + 1)
            (record (new_driver (w.next + 1)) { private = (with_driver (with_test w)).next })
            holds_test
            is.holds_driver
            holds_cb)
          w4
          p
          w.next
          (w.next + 1)
          m
          (ss ++ is.slot ∷ [])
      → IsLaunched w4 p m ss
  launched w p m ss held wt w2 c v w4 is holds_test holds_cb st =
      let dn = w.next + 1 in
      let d : Driver = record (new_driver dn) { private = dn + 1 + 1 } in
      let attach =
        has_user-Extends w2 w.next dn d holds_test is.holds_driver holds_cb is.extends.formed in
      let stay : (q : Ptr) (o : Object)
          → w2.cell q ≡ some o
          → is_untied o ≡ true
          → is_started o ≡ true
          → w4.cell q ≡ some o =
        λ q o old untied started. st.extends.kept q o (attach.kept q o old untied) started in
      let user_driver =
        st.extends.kept dn _ (user_holds_driver w2 w.next dn d holds_test is.holds_driver holds_cb)
          refl in
      record {
        user = record { vserial = dn; rig = st.handle };
        port = dn + 1 + 1;
        context = c;
        handle = is.poll.private;
        before = is.before;
        calls = subst (λ x. RadioCalls os rig x w4.ext) is.called st.calls;
        set_up = record {
          driver_is = (refl, refl);
          there = ((λ e. omega (arith, e)), λ e. omega (arith, e));
          test = w.next;
          radio = st.live;
          vserial = v;
          driver = record d { user = w.next };
          holds_module = st.holds_module;
          holds_test = st.holds_test;
          wired = record {
            attached = record {
              holds_context = stay (dn + 1 + 1) _ is.holds_context refl refl;
              holds_port = stay c.vserial _ is.holds_port refl refl;
              holds_driver = ap w4.cell is.is_driver ∙ user_driver;
              cb = flow_cb;
              holds_cb =
                  st.extends.kept (dn + 1) _
                    (user_holds_cb w2 w.next dn d holds_test is.holds_driver holds_cb) refl;
              calls = refl;
            };
            holds_user = st.holds_test;
          };
          tied = (sym is.is_driver, refl, refl);
          poll = is.poll;
          private = is.private;
          is_poll = record {
            holds_poll = stay c.poll _ is.is_poll.holds_poll refl refl;
            holds_private = stay is.poll.private _ is.is_poll.holds_private refl refl;
            points_back = is.is_poll.points_back;
          };
          is_polled = (is.is_polled.0, is.is_polled.1, refl);
        };
        slot = is.slot;
        is_delivery = is.is_delivery;
        waiting = st.waiting;
      }
