-- ===== src/Vserial/Built.antt =====
-- src/drivers/vserial.c: `vserial_lifecycle_init` up to the poll handle.
use righack.Base.{
  ◌⊎◌, Bool, ℕ, ◌+◌, ◌≡◌, refl, ◌≢◌, ◌∙◌, ap, inl, inr, true, some, Text, bytes, arith,
}
use righack.Configfile.{configfile_rgets_section_key}
use righack.Configfile.Keys.{HasText, HasKey, rgets_found}
use righack.External.{Uv, Os, Toml}
use righack.Machine.{World, ok}
use righack.Machine.Access.{IsHeap}
use righack.Machine.Extends.{
  Extends-KeepsTexts, KeepsTexts, KeepsTexts-trans, any_kind, Extends, Extends-trans,
  Extends-weaken, Extends-alloc, not_text,
}
use righack.Machine.Memory.{write}
use righack.Machine.Objects.{
  Object, null, VserialContext, vserial_poll_cb, struct_vserial_context, struct_text,
}
use righack.Runloop.Later.Chain.{Slots, Waiting, Waiting-Extends}
use righack.Runloop.Poll.{runloop_poll_create}
use righack.Runloop.Poll.Life.{IsPoll, runloop_poll_create-IsPoll}
use righack.Vserial.Port.{vserial_create}
use righack.Vserial.Port.Create.{Succeeds, vserial_create-IsMade}
use righack.Machine.Ends.{Dies}
use righack.Vserial.Port.Named.{IsCreated}

abbrev pub fresh_context : VserialContext
fresh_context = record { driver = null; poll = null; vserial = null; modem_bits = 0 }

pub HasText-Extends :
    {X : Type 0} {w w' : World X} (stays : Object → Bool)
    → ((t : Text) → stays (struct_text t) ≡ true)
    → HasText w
    → Extends stays w w'
    → w'.config_buf ≡ w.config_buf
    → HasText w'
HasText-Extends stays texts (inl e) ext buf = inl (buf ∙ e)
HasText-Extends {w} {w'} stays texts (inr (t, held)) ext buf =
    inr (t, ap w'.cell buf ∙ ext.kept w.config_buf (struct_text t) held (texts t))

-- The state with the block of the context.
abbrev pub with_context : {X : Type 0} → World X → World X
with_context w = record w {
  cell = write w.cell w.next (some (struct_vserial_context fresh_context));
  next = w.next + 1;
}

module _ {X : Type 0} ⦃os : Os X⦄ ⦃toml : Toml X⦄ ⦃uv : Uv X⦄ (section name : Text) where
  -- The first calls of `vserial_lifecycle_init`, up to the poll handle, and what they leave.
  pub record IsBuilt (w : World X) (ss : Slots) : Type 0 where
    pub looked_up : World X
    pub created : World X
    pub built : World X
    pub master : ℕ
    pub slave : ℕ
    pub slave_path : Text
    pub lflag : ℕ
    pub lookup :
        configfile_rgets_section_key section (bytes "vserial.port") (with_context w)
        ≡ ok (w.next + 1) looked_up
    pub creation : vserial_create (w.next + 1) looked_up ≡ ok looked_up.next created
    pub polling : runloop_poll_create master vserial_poll_cb created ≡ ok created.next built
    pub made : IsCreated master slave slave_path looked_up created name lflag
    pub is_poll :
        IsPoll built created.next
          (record { cb = vserial_poll_cb; context = null; private = created.next + 1 })
          (record { uv_data = created.next; fd = master })
    pub since_start : Extends not_text w looked_up
    pub since_lookup : Extends any_kind looked_up created
    pub since_port : Extends any_kind created built
    pub start : IsHeap w.cell w.next
    pub holds_context : looked_up.cell w.next ≡ some (struct_vserial_context fresh_context)
    pub has_text : HasText built
    pub keeps_texts : KeepsTexts w built
    pub waiting : Waiting built ss

  -- What the first calls do, where the configuration has the path: the port is built, or opening
  -- it ends the process.
  pub build :
      (w : World X) (ss : Slots)
      → Waiting w ss
      → HasText w
      → w.toml_root ≢ null
      → HasKey toml w.toml_root section (bytes "vserial.port") name
      → IsBuilt w ss
        ⊎ ((looked_up : World X) × (configfile_rgets_section_key section
                (bytes "vserial.port")
                (with_context w)
              ≡ ok (w.next + 1) looked_up)
            × Dies (Succeeds os name) (vserial_create (w.next + 1) looked_up))
  build w ss wt has root key =
      let ext1 : Extends any_kind w (with_context w) =
        Extends-alloc any_kind w (struct_vserial_context fresh_context) w.ext wt.formed in
      let wt1 = Waiting-Extends wt (Extends-weaken (λ o e. refl) ext1) refl refl in
      let (w2, e2, text, has2, ext2, wt2, _, texts) =
        rgets_found section (bytes "vserial.port") (with_context w) ss wt1
          (HasText-Extends any_kind (λ t. refl) has ext1 refl) root name key in
      elim (vserial_create-IsMade w2 (w.next + 1) name wt2.formed text) [
        | inr dies ↦ inr (w2, e2, dies)
        | inl (w3, e3, port) ↦
            let made = port.created in
            let (w4, e4, poll, _, ext4, vars) =
              runloop_poll_create-IsPoll port.master vserial_poll_cb w3 made.extends.formed in
            inl (record {
              master = port.master;
              slave = port.slave;
              slave_path = port.slave_path;
              looked_up = w2;
              created = w3;
              built = w4;
              lflag = port.lflag;
              lookup = e2;
              creation = e3;
              polling = e4;
              made = made;
              is_poll = poll;
              since_start = Extends-trans (Extends-weaken (λ o e. refl) ext1) ext2;
              since_lookup = made.extends;
              since_port = ext4;
              start = wt.formed;
              holds_context =
                  ext2.kept w.next (struct_vserial_context fresh_context) (ground arith) refl;
              keeps_texts = KeepsTexts-trans (Extends-KeepsTexts (λ t. refl) ext1 refl) (
                  KeepsTexts-trans texts (
                    Extends-KeepsTexts (λ t. refl) (Extends-trans made.extends ext4)
                      (vars.same_buf ∙ made.same_vars.same_buf)));
              has_text =
                  HasText-Extends any_kind (λ t. refl) has2 (Extends-trans made.extends ext4)
                    (vars.same_buf ∙ made.same_vars.same_buf);
              waiting =
                  Waiting-Extends wt2
                    (Extends-weaken (λ o e. refl) (Extends-trans made.extends ext4))
                    (vars.same_queue ∙ made.same_vars.same_queue)
                    (vars.same_last ∙ made.same_vars.same_last);
            })
      ]
