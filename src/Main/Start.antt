-- ===== src/Main/Start.antt =====
-- src/main.c: the jobs that `main` schedules for the sections of the configuration.
use righack.Base.{
  Text, Option, ℕ, zero, suc, ◌+◌, ◌<◌, ◌≡◌, refl, ◌≢◌, ap, ◌∙◌, sym, Bool, true, false, none, some,
  [], ◌∷◌, ◌++◌, arith, inl, inr, Option-cases, length, if◌then◌else◌,
}
use mathlib.Core.List.{append_assoc, append-nil}
use mathlib.Core.Path.{subst}
use righack.Configfile.{configfile_get_section_name}
use righack.Configfile.Buffer.{guard_loaded}
use righack.External.{Uv, Toml, Os, Rig}
use righack.Machine.{World, ok}
use righack.Machine.Access.{alloc-IsHeap}
use righack.Machine.Memory.{write, alloc}
use righack.Machine.Objects.{Ptr, start_module_handler, Object, struct_text}
use righack.Main.{schedule_section, schedule_sections}
use righack.Runloop.Later.Chain.{Slot, Slots, Waiting, Chain-write, gone-Avoids}
use righack.Runloop.Later.Schedule.{new_slot, runloop_run_later-Waiting}
use righack.Machine.Extends.{Extends-alloc, Extends, is_fixed, KeepsIf}

-- Each job is to be run and to start a module, and its argument is a copy of the name of a section,
-- of the `i`th for the first job, and so on.
abbrev pub AreStarts : {X : Type 0} → Toml X → X → Ptr → (Ptr → Option Object) → ℕ → Slots → Type 0
AreStarts toml x root h i [] = Unit
AreStarts toml x root h i (s ∷ ss) =
    (s.job.cb ≡ start_module_handler)
    × (s.job.should_run ≡ true)
    × ((n : Text) × (toml.key_in x root i ≡ some n) × (h s.job.context ≡ some (struct_text n)))
    × AreStarts toml x root h (i + 1) ss

AreStarts-same :
    {X : Type 0} (toml : Toml X) (x x' : X) (root root' : Ptr) (h : Ptr → Option Object) (i : ℕ)
    (ss : Slots)
    → ((k : ℕ) → toml.key_in x' root' k ≡ toml.key_in x root k)
    → AreStarts toml x' root' h i ss
    → AreStarts toml x root h i ss
AreStarts-same toml x x' root root' h i [] same a = tt
AreStarts-same toml x x' root root' h i (s ∷ ss) same (cb, run, (n, e, held), rest) = (
  cb,
  run,
  (n, sym (same i) ∙ e, held),
  AreStarts-same toml x x' root root' h (i + 1) ss same rest,
)

plus_zero : (i : ℕ) → i + 0 ≡ i
plus_zero i = omega arith

plus_suc : (i k : ℕ) → i + suc k ≡ i + 1 + k
plus_suc i k = omega arith

module _ {X : Type 0} where
  -- The state with a copy of a text in a fresh block.
  abbrev copied : World X → Object → World X
  copied w o = record w { cell = write w.cell w.next (some o); next = w.next + 1 }

  copied-Waiting : (w : World X) (ss : Slots) (o : Object) → Waiting w ss → Waiting (copied w o) ss
  copied-Waiting w ss o wt = record {
    formed = alloc-IsHeap w.cell w.next o wt.formed;
    chain =
        Chain-write w.cell w.next (some o) ss wt.chain
          (gone-Avoids w.cell w.next ss wt.chain (wt.formed.rest_empty w.next (omega arith)));
    distinct = wt.distinct;
    tail = wt.tail;
  }

module _ {X : Type 0} ⦃uv : Uv X⦄ ⦃os : Os X⦄ ⦃toml : Toml X⦄ ⦃rig : Rig X⦄
    (start_law : (h : Ptr) (x : X) (root : Ptr) (i : ℕ)
      → toml.key_in (uv.prepare_start h x) root i ≡ toml.key_in x root i) where
  kept :
      (b : Bool) (h : Ptr) (x : X) (root : Ptr) (i : ℕ)
      → toml.key_in (if b then x else uv.prepare_start h x) root i ≡ toml.key_in x root i
  kept true h x root i = refl
  kept false h x root i = start_law h x root i

  section_Waiting :
      (i : ℕ) (w : World X) (ss : Slots)
      → Waiting w ss
      → w.toml_root ≢ 0
      → toml.key_in w.ext w.toml_root i ≢ none
      → (w' : World X) × (s : Slot) × (schedule_section i w ≡ ok tt w')
        × Waiting w' (ss ++ s ∷ [])
        × (s.job.cb ≡ start_module_handler)
        × (s.job.should_run ≡ true)
        × ((n : Text) × (toml.key_in w.ext w.toml_root i ≡ some n)
            × (w'.cell s.job.context ≡ some (struct_text n)))
        × KeepsIf is_fixed w.cell w'.cell
        × (w'.toml_root ≡ w.toml_root)
        × ((k : ℕ) → toml.key_in w'.ext w.toml_root k ≡ toml.key_in w.ext w.toml_root k)
  unfolding schedule_section configfile_get_section_name alloc
  section_Waiting i w ss wt root listed = elim (Option-cases (toml.key_in w.ext w.toml_root i)) [
    | inl e ↦ absurd (listed e)
    | inr (n, e) ↦
        let w1 : World X = copied w (struct_text n) in
        let old : Extends is_fixed w w1 =
          Extends-alloc is_fixed w (struct_text n) w.ext wt.formed in
        let (w', later, wt', x, _, ext, _) =
          runloop_run_later-Waiting start_module_handler w.next w1 ss
            (copied-Waiting w ss (struct_text n) wt) in
        (
          w',
          new_slot w1 start_module_handler w.next,
          rw (guard_loaded w root, e, later),
          wt',
          refl,
          refl,
          (n, e, ext.kept w.next (struct_text n) (ground arith) refl),
          (λ q o held fixed. ext.kept q o (old.kept q o held fixed) fixed),
          ext.same_root,
          λ k.
              ap (λ y. toml.key_in y w.toml_root k) x
              ∙ kept w.run_once_prepare_started w.run_once_prepare w.ext w.toml_root k,
        )
  ]

  -- For `n` sections from `i` on, which the configuration lists, `main` schedules `n` jobs behind
  -- those that wait, each to be run and to start a module, with a copy of the name of its own section
  -- as the argument, in the order of the configuration; all blocks but entries of the queue stay.
  -- Libuv's start of the prepare handle is taken to leave the configuration alone.
  pub schedule_sections-Waiting :
      (n i : ℕ) (w : World X) (ss : Slots)
      → Waiting w ss
      → w.toml_root ≢ 0
      → ((k : ℕ) → k < n → toml.key_in w.ext w.toml_root (i + k) ≢ none)
      → (w' : World X) × (new : Slots) × (schedule_sections n i w ≡ ok tt w')
        × Waiting w' (ss ++ new)
        × AreStarts toml w.ext w.toml_root w'.cell i new
        × (length new ≡ n)
        × KeepsIf is_fixed w.cell w'.cell
  unfolding schedule_sections
  schedule_sections-Waiting zero i w ss wt root listed =
      (w, [], refl, rw append-nil wt, tt, refl, λ q o held fixed. held)
  schedule_sections-Waiting (suc n) i w ss wt root listed =
      let now : toml.key_in w.ext w.toml_root i ≢ none =
        subst (λ j. toml.key_in w.ext w.toml_root j ≢ none) (plus_zero i)
          (listed 0 (omega arith)) in
      let (w1, s, ran, wt1, starts, run, (name, e, held), kept1, r, same) =
        section_Waiting i w ss wt root now in
      let later : (k : ℕ) → k < n → toml.key_in w1.ext w1.toml_root (i + 1 + k) ≢ none = λ k lt e.
        listed (suc k) (omega (arith, lt)) (
          ap (λ j. toml.key_in w.ext w.toml_root j) (plus_suc i k)
          ∙ sym (same (i + 1 + k))
          ∙ ap (λ q. toml.key_in w1.ext q (i + 1 + k)) (sym r)
          ∙ e) in
      let (w2, new, rest, wt2, all, len, kept2) =
        schedule_sections-Waiting n (i + 1) w1 (ss ++ s ∷ []) wt1 (λ e. root (sym r ∙ e)) later in
      (
        w2,
        s ∷ new,
        rw ran rest,
        subst (λ l. Waiting w2 l) (append_assoc ss (s ∷ []) new) wt2,
        (
          starts,
          run,
          (name, e, kept2 s.job.context (struct_text name) held refl),
          AreStarts-same toml w.ext w1.ext w.toml_root w1.toml_root w2.cell (i + 1) new
              (λ k. ap (λ q. toml.key_in w1.ext q k) r ∙ same k) all,
        ),
        omega (arith, len),
        λ q o held fixed. kept2 q o (kept1 q o held fixed) fixed,
      )
