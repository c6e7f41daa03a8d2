-- ===== src/Main/Sections.antt =====
-- src/main.c: the schedule of several sections, with what the start of each needs from the state.
use mathlib.Core.List.{append_assoc, append-nil}
use mathlib.Core.Path.{subst}
use righack.Base.{
  ℕ, ◌+◌, ◌≤◌, ◌<◌, ◌≡◌, refl, ◌≢◌, ◌∙◌, ap, sym, Bool, true, false, some, List, [], ◌∷◌, ◌++◌,
  Text, bytes, arith, length, if◌then◌else◌,
}
use righack.Configfile.Keys.{HasText, HasKey}
use righack.External.{Uv, Os, Toml, Rig}
use righack.Machine.{World, ok}
use righack.Machine.Access.{held_lt_next}
use righack.Machine.Extends.{KeepsIf, Extends-ext, is_fixed, Extends, Extends-trans}
use righack.Machine.Objects.{Ptr, null, struct_text, start_module_handler}
use righack.Main.{schedule_sections}
use righack.Main.Run.{named, scheduled_lem}
use righack.Main.Section.{IsConfigured, KeepsOtherTexts}
use righack.Runloop.Later.{job}
use righack.Runloop.Later.Chain.{Slot, Slots, Waiting, first}
use righack.Runloop.Later.Schedule.{new_slot}

-- A section, and what the test module reads from it: the port's path and the radio's model.
pub record Setting : Type 0 where
  pub section : Text
  pub name : Text
  pub rigid : ℕ

-- A section names the radio's line, if there are sections behind it.
abbrev pub NamesLine : {X A : Type 0} → Toml X → Ptr → Text → List A → Type 0
NamesLine toml root section [] = Unit
NamesLine {X} toml root section (c ∷ cs) =
    (line : Text) × HasKey toml root section (bytes "hamlib.serial.port") line

NamesLine-length :
    {X A B : Type 0} (toml : Toml X) (root : Ptr) (section : Text) (xs : List A) (ys : List B)
    → length xs ≡ length ys
    → NamesLine toml root section ys
    → NamesLine toml root section xs
NamesLine-length toml root section [] ys e line = tt
NamesLine-length toml root section (x ∷ xs) [] e line = absurd (omega (arith, e))
NamesLine-length toml root section (x ∷ xs) (y ∷ ys) e line = line

-- No job of these has the argument `p`.
abbrev pub Apart : Ptr → Slots → Type 0
Apart p [] = Unit
Apart p (s ∷ ss) = (s.job.context ≢ p) × Apart p ss

-- All arguments are at `b` or above.
abbrev Above : ℕ → Slots → Type 0
Above b [] = Unit
Above b (s ∷ ss) = (b ≤ s.job.context) × Above b ss

Above-le : (a b : ℕ) (ss : Slots) → a ≤ b → Above b ss → Above a ss
Above-le a b [] le above = tt
Above-le a b (s ∷ ss) le (here, above) = (omega (arith, le, here), Above-le a b ss le above)

Above-Apart : (p : Ptr) (ss : Slots) → Above (p + 1) ss → Apart p ss
Above-Apart p [] above = tt
Above-Apart p (s ∷ ss) (here, above) = ((λ e. omega (arith, e, here)), Above-Apart p ss above)

module _ {X : Type 0} ⦃toml : Toml X⦄ where
  -- The configuration lists the sections from `i` on, each has what the module reads, and each but
  -- the last names the radio's line.
  abbrev pub AreConfigured : X → Ptr → ℕ → List Setting → Type 0
  AreConfigured x root i [] = Unit
  AreConfigured x root i (c ∷ cs) =
      (toml.key_in x root i ≡ some c.section)
      × IsConfigured toml root c.section c.name c.rigid
      × NamesLine toml root c.section cs
      × AreConfigured x root (i + 1) cs

  -- A job that starts the module of a section, whose name is apart from `config_buf`.
  pub record Starting (w : World X) (s : Slot) (setting : Setting) : Type 0 where
    pub is_start : s.job ≡ job start_module_handler s.job.context
    pub holds_name : w.cell s.job.context ≡ some (struct_text setting.section)
    pub apart : s.job.context ≢ w.config_buf
    pub configured : IsConfigured toml w.toml_root setting.section setting.name setting.rigid

  abbrev pub AreStarting : World X → Slots → Type 0
  AreStarting w [] = Unit
  AreStarting w (s ∷ ss) =
      (c : Setting) × Starting w s c
      × Apart s.job.context ss
      × NamesLine toml w.toml_root c.section ss
      × AreStarting w ss

  Starting-KeepsIf :
      {w w' : World X} (s : Slot) {c : Setting}
      → Starting w s c
      → KeepsIf is_fixed w.cell w'.cell
      → w'.toml_root ≡ w.toml_root
      → w'.config_buf ≡ w.config_buf
      → Starting w' s c
  Starting-KeepsIf {w'} s {c} st kept root buf = record {
    is_start = st.is_start;
    holds_name = kept s.job.context _ st.holds_name refl;
    apart = λ e. st.apart (e ∙ buf);
    configured = subst (λ r. IsConfigured toml r c.section c.name c.rigid) (sym root) st.configured;
  }

  pub AreStarting-KeepsIf :
      (w w' : World X) (ss : Slots)
      → AreStarting w ss
      → KeepsIf is_fixed w.cell w'.cell
      → w'.toml_root ≡ w.toml_root
      → w'.config_buf ≡ w.config_buf
      → AreStarting w' ss
  AreStarting-KeepsIf w w' [] a kept root buf = tt
  AreStarting-KeepsIf w w' (s ∷ ss) (c, st, apart, line, rest) kept root buf = (
    c,
    Starting-KeepsIf s st kept root buf,
    apart,
    subst (λ r. NamesLine toml r c.section ss) (sym root) line,
    AreStarting-KeepsIf w w' ss rest kept root buf,
  )

  -- They stay where only texts that are none of their arguments, and blocks of other kinds, change.
  pub AreStarting-KeepsOtherTexts :
      {w w' : World X} (p : Ptr) (ss : Slots)
      → AreStarting w ss
      → Apart p ss
      → KeepsOtherTexts w w' p
      → w'.toml_root ≡ w.toml_root
      → AreStarting w' ss
  AreStarting-KeepsOtherTexts p [] a apart kept root = tt
  AreStarting-KeepsOtherTexts p (s ∷ ss) (c, st, away, line, rest) (ne, apart) kept root =
      let (held, free_) = kept.texts s.job.context c.section ne st.holds_name st.apart in
      (
        c,
        record {
          is_start = st.is_start;
          holds_name = held;
          apart = free_;
          configured =
              subst (λ r. IsConfigured toml r c.section c.name c.rigid) (sym root) st.configured;
        },
        away,
        subst (λ r. NamesLine toml r c.section ss) (sym root) line,
        AreStarting-KeepsOtherTexts p ss rest apart kept root,
      )

  -- What the schedule of the sections `cs` leaves of `w`.
  pub record AreScheduled (w w' : World X) (ss : Slots) (cs : List Setting) : Type 0 where
    pub new : Slots
    pub waiting : Waiting w' (ss ++ new)
    pub queue : w'.run_once_queue ≡ first (ss ++ new)
    pub starting : AreStarting w' new
    pub above : Above w.next new
    pub count : length new ≡ length cs
    pub extends : Extends is_fixed w w'
    pub same_buf : w'.config_buf ≡ w.config_buf
    pub has_text : HasText w'

module _ {X : Type 0} ⦃uv : Uv X⦄ ⦃os : Os X⦄ ⦃toml : Toml X⦄ ⦃rig : Rig X⦄
    (start_law : (h : Ptr) (x : X) (root : Ptr) (i : ℕ)
      → toml.key_in (uv.prepare_start h x) root i ≡ toml.key_in x root i) where
  AreConfigured-later :
      (b : Bool) (h : Ptr) (x : X) (root : Ptr) (i : ℕ) (cs : List Setting)
      → AreConfigured x root i cs
      → AreConfigured (if b then x else uv.prepare_start h x) root i cs
  AreConfigured-later b h x root i [] a = tt
  AreConfigured-later true h x root i (c ∷ cs) a = a
  AreConfigured-later false h x root i (c ∷ cs) (listed, conf, line, rest) = (
    start_law h x root i ∙ listed,
    conf,
    line,
    AreConfigured-later false h x root (i + 1) cs rest,
  )

  pub sections_lem :
      (cs : List Setting) (i : ℕ) (w : World X) (ss : Slots)
      → Waiting w ss
      → w.run_once_queue ≡ first ss
      → HasText w
      → w.toml_root ≢ null
      → AreConfigured w.ext w.toml_root i cs
      → (w' : World X) × (schedule_sections (length cs) i w ≡ ok tt w') × AreScheduled w w' ss cs
  unfolding schedule_sections
  sections_lem [] i w ss wt start has root conf = (
    w,
    refl,
    record {
      new = [];
      waiting = rw append-nil wt;
      queue = rw append-nil start;
      starting = tt;
      above = tt;
      count = refl;
      extends = Extends-ext is_fixed w w.ext wt.formed;
      same_buf = refl;
      has_text = has;
    },
  )
  sections_lem (c ∷ cs) i w ss wt start has root (listed, conf, line, rest) =
      let (w1, scheduled, wt1, queue1, ext1, has1, held, apart, buf1, outside) =
        scheduled_lem w i c.section ss wt start has root listed in
      let s = new_slot (named w c.section) start_module_handler w.next in
      let later : AreConfigured w1.ext w1.toml_root (i + 1) cs =
        rw (outside, ext1.same_root)
          (AreConfigured-later w.run_once_prepare_started w.run_once_prepare w.ext w.toml_root
            (i + 1) cs rest) in
      let (w2, ran, sch) =
        sections_lem cs (i + 1) w1 (ss ++ s ∷ []) wt1 queue1 has1
          (λ e. root (sym ext1.same_root ∙ e)) later in
      let lt : w.next < w1.next = held_lt_next w1 w.next _ held wt1.formed in
      let st : Starting w1 s c = record {
        is_start = refl;
        holds_name = held;
        apart = apart;
        configured =
            subst (λ r. IsConfigured toml r c.section c.name c.rigid) (sym ext1.same_root) conf;
      } in
      let named_line = NamesLine-length toml w.toml_root c.section sch.new cs sch.count line in
      (
        w2,
        rw scheduled ran,
        record {
          new = s ∷ sch.new;
          waiting = subst (λ l. Waiting w2 l) (append_assoc ss (s ∷ []) sch.new) sch.waiting;
          queue = sch.queue ∙ ap first (append_assoc ss (s ∷ []) sch.new);
          starting = (
            c,
            Starting-KeepsIf s st sch.extends.kept sch.extends.same_root sch.same_buf,
            Above-Apart w.next sch.new
                (Above-le (w.next + 1) w1.next sch.new (omega (arith, lt)) sch.above),
            subst (λ r. NamesLine toml r c.section sch.new)
                (sym (sch.extends.same_root ∙ ext1.same_root)) named_line,
            sch.starting,
          );
          above = (omega arith, Above-le w.next w1.next sch.new (omega (arith, lt)) sch.above);
          count = omega (arith, sch.count);
          extends = Extends-trans ext1 sch.extends;
          same_buf = sch.same_buf ∙ buf1;
          has_text = sch.has_text;
        },
      )
