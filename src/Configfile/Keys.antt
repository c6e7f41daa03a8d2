-- ===== src/Configfile/Keys.antt =====
-- src/configfile.c: lookups as the modules and drivers make them, while jobs wait.
use righack.Base.{ℕ, ◌+◌, ◌≡◌, refl, ◌≢◌, ◌∙◌, ◌⊎◌, inl, inr, false, none, some, Text, arith, ◌==◌}
use righack.Configfile.{
  configfile_geti_section_key, configfile_rgeti_section_key, configfile_gets_section_key,
  configfile_rgets_section_key,
}
use righack.Configfile.Buffer.{
  table_found, HasBuffer, freed_cell, guard_loaded, free_buf_lem, gets_after_free, convert_ok,
  convert_none,
}
use righack.External.{Toml}
use righack.Machine.{World, ok}
use righack.Machine.Access.{IsHeap, alloc-IsHeap, held_lt_next}
use righack.Machine.Extends.{
  KeepsTexts, is_queue-not_text, Extends-weaken, Extends, not_text, KeepsIf,
}
use righack.Machine.Memory.{write}
use righack.Machine.Objects.{Ptr, null, struct_text}
use righack.Runloop.Later.Chain.{Slots, Waiting, Waiting-Extends}

-- `buf` is NULL or holds the value of an earlier lookup.
abbrev pub HasText : {X : Type 0} → World X → Type 0
HasText w = (w.config_buf ≡ null) ⊎ ((t : Text) × (w.cell w.config_buf ≡ some (struct_text t)))

HasText-HasBuffer : {X : Type 0} (w : World X) → HasText w → HasBuffer w
HasText-HasBuffer w (inl e) = inl e
HasText-HasBuffer w (inr (t, held)) = inr (struct_text t, held)

freed-KeepsIf : {X : Type 0} (w : World X) → HasText w → KeepsIf not_text w.cell (freed_cell w)
freed-KeepsIf w (inl e) q o held other = ground (arith, held)
freed-KeepsIf w (inr (t, text)) q o held other = ground (arith, held, other, text)

freed_gone :
    {X : Type 0} (w : World X) → IsHeap w.cell w.next → HasText w → freed_cell w w.config_buf ≡ none
freed_gone w hp (inl e) = ground (arith, e, hp.null_empty)
freed_gone w hp (inr (t, text)) = ground (arith, text)

freed_text :
    {X : Type 0} (w : World X)
    → HasText w
    → (q : Ptr) (t : Text) → w.cell q ≡ some (struct_text t)
    → q ≢ w.config_buf
    → freed_cell w q ≡ some (struct_text t)
freed_text w (inl e) q t held ne = ground (arith, held)
freed_text w (inr (s, text)) q t held ne = ground (arith, held, text)

-- In the configuration `root`, the section has the key, with a value that the library can read;
-- nothing outside changes that.
pub record HasKey {X : Type 0} (toml : Toml X) (root : Ptr) (section key value : Text)
    : Type 0 where
  pub table_there : (x : X) → toml.table_in x root section ≢ null
  pub raw_there :
      (x : X)
      → (r : Text) × (toml.raw_in x (toml.table_in x root section) key ≡ some r)
        × (toml.rtos r ≡ some value)

-- The key may be missing; if it is there the library can read its value.
pub record MayHaveKey {X : Type 0} (toml : Toml X) (root : Ptr) (section key : Text) : Type 0 where
  pub table_there : (x : X) → toml.table_in x root section ≢ null
  pub raw_maybe :
      (x : X)
      → (toml.raw_in x (toml.table_in x root section) key ≡ none)
        ⊎ ((r : Text) × (value : Text) × (toml.raw_in x (toml.table_in x root section) key ≡ some r)
            × (toml.rtos r ≡ some value))

-- The key has a number as its value.
pub record HasInt {X : Type 0} (toml : Toml X) (root : Ptr) (section key : Text) (n : ℕ)
    : Type 0 where
  pub table_there : (x : X) → toml.table_in x root section ≢ null
  pub raw_there :
      (x : X)
      → (r : Text) × (toml.raw_in x (toml.table_in x root section) key ≡ some r)
        × (toml.rtoi r ≡ some n)

-- What a lookup of a key that may be missing leaves in `buf`: NULL, or the value; or the key is
-- missing, and the value of an earlier lookup is freed.
abbrev pub LeavesText : {X : Type 0} → Toml X → (root : Ptr) (section key : Text) → World X → Type 0
LeavesText {X} toml root section key w =
    HasText w
    ⊎ ((x : X) × (toml.raw_in x (toml.table_in x root section) key ≡ none)
        × (w.cell w.config_buf ≡ none))

pub LeavesText-HasKey :
    {X : Type 0} {toml : Toml X} {root : Ptr} {section key value : Text} (w : World X)
    → LeavesText toml root section key w
    → HasKey toml root section key value
    → HasText w
LeavesText-HasKey w (inl has) k = has
LeavesText-HasKey w (inr (x, missing, _)) k =
    let (r, raw, _) = k.raw_there x in absurd (ground (arith, missing, raw))

module _ {X : Type 0} ⦃toml : Toml X⦄ where
  module _ (section key : Text) (n : ℕ) (w : World X) (root : w.toml_root ≢ null)
      (k : HasInt toml w.toml_root section key n) where
    geti_found : configfile_geti_section_key section key w ≡ ok (some n) w
    unfolding configfile_geti_section_key
    geti_found =
        let (r, raw, read) = k.raw_there w.ext in
        rw (guard_loaded w root, table_found section w (k.table_there w.ext), raw, read)

    -- A number is looked up without a change of the state.
    pub rgeti_found : configfile_rgeti_section_key section key w ≡ ok n w
    unfolding configfile_rgeti_section_key
    rgeti_found = rw (guard_loaded w root, geti_found)

  module _ (section key : Text) (w : World X) (ss : Slots) (wt : Waiting w ss) (has : HasText w)
      (root : w.toml_root ≢ null) where
    -- The state behind a lookup that finds `value`.
    abbrev found_world : Text → World X
    found_world value = record w {
      cell = write (freed_cell w) w.next (some (struct_text value));
      next = w.next + 1;
      config_buf = w.next;
    }

    freed_formed : IsHeap (freed_cell w) w.next
    freed_formed = (free_buf_lem w wt.formed (HasText-HasBuffer w has)).1

    found-Extends : (value : Text) → Extends not_text w (found_world value)
    found-Extends value = record {
      formed = alloc-IsHeap (freed_cell w) w.next (struct_text value) freed_formed;
      kept = λ q o held other.
          ground (arith, held_lt_next w q o held wt.formed, freed-KeepsIf w has q o held other);
      same_root = refl;
      same_drivers = refl;
      same_modules = refl;
      same_loop = refl;
      same_signal = refl;
      same_running = refl;
    }

    freed-KeepsTexts : KeepsTexts w (record w { cell = freed_cell w })
    freed-KeepsTexts = record { texts = λ q t held ne. (freed_text w has q t held ne, ne) }

    found-KeepsTexts : (value : Text) → KeepsTexts w (found_world value)
    found-KeepsTexts value = record {
      texts = λ q t held ne.
          let fresh = held_lt_next w q (struct_text t) held wt.formed in
          (ground (arith, fresh, freed_text w has q t held ne), ground (arith, fresh));
    }

    found_raw :
        (r value : Text)
        → toml.table_in w.ext w.toml_root section ≢ null
        → toml.raw_in w.ext (toml.table_in w.ext w.toml_root section) key ≡ some r
        → toml.rtos r ≡ some value
        → configfile_gets_section_key section key w ≡ ok w.next (found_world value)
    found_raw r value tab raw read =
        gets_after_free section key w (freed_cell w) root
          (free_buf_lem w wt.formed (HasText-HasBuffer w has)).0 tab
        ∙ rw (raw, convert_ok r value (record w { cell = freed_cell w }) read)

    gets_found :
        (value : Text)
        → HasKey toml w.toml_root section key value
        → (w' : World X) × (configfile_gets_section_key section key w ≡ ok w.next w')
          × (w'.cell w.next ≡ some (struct_text value))
          × HasText w'
          × Extends not_text w w'
          × Waiting w' ss
          × (w'.ext ≡ w.ext)
          × KeepsTexts w w'
    gets_found value k =
        let (r, raw, read) = k.raw_there w.ext in
        let ext = found-Extends value in
        (
          found_world value,
          found_raw r value (k.table_there w.ext) raw read,
          ground arith,
          inr (value, ground arith),
          ext,
          Waiting-Extends wt (Extends-weaken is_queue-not_text ext) refl refl,
          refl,
          found-KeepsTexts value,
        )

    pub rgets_found :
        (value : Text)
        → HasKey toml w.toml_root section key value
        → (w' : World X) × (configfile_rgets_section_key section key w ≡ ok w.next w')
          × (w'.cell w.next ≡ some (struct_text value))
          × HasText w'
          × Extends not_text w w'
          × Waiting w' ss
          × (w'.ext ≡ w.ext)
          × KeepsTexts w w'
    unfolding configfile_rgets_section_key
    rgets_found value k =
        let (w', e, text, has', ext, wt', same, texts) = gets_found value k in
        let live : (w.next == null) ≡ false = ground (arith, wt.formed.next_pos) in
        (w', rw (guard_loaded w root, e, live), text, has', ext, wt', same, texts)

    -- A lookup of a key that may be missing: NULL, or a text.
    pub gets_maybe :
        MayHaveKey toml w.toml_root section key
        → (w' : World X) × (value : Ptr) × (configfile_gets_section_key section key w ≡ ok value w')
          × ((value ≡ null) ⊎ ((t : Text) × (w'.cell value ≡ some (struct_text t))))
          × Extends not_text w w'
          × Waiting w' ss
          × KeepsTexts w w'
          × (w'.ext ≡ w.ext)
          × LeavesText toml w.toml_root section key w'
    gets_maybe k = elim (k.raw_maybe w.ext) [
      | inr (r, value, raw, read) ↦
          let ext = found-Extends value in
          (
            found_world value,
            w.next,
            found_raw r value (k.table_there w.ext) raw read,
            inr (value, ground arith),
            ext,
            Waiting-Extends wt (Extends-weaken is_queue-not_text ext) refl refl,
            found-KeepsTexts value,
            refl,
            inl (inr (value, ground arith)),
          )
      | inl raw ↦
          let w1 : World X = record w { cell = freed_cell w } in
          let ext : Extends not_text w w1 = record {
            formed = freed_formed;
            kept = freed-KeepsIf w has;
            same_root = refl;
            same_drivers = refl;
            same_modules = refl;
            same_loop = refl;
            same_signal = refl;
            same_running = refl;
          } in
          (
            w1,
            null,
            gets_after_free section key w (freed_cell w) root
                  (free_buf_lem w wt.formed (HasText-HasBuffer w has)).0 (k.table_there w.ext)
                ∙ rw (raw, convert_none w1),
            inl refl,
            ext,
            Waiting-Extends wt (Extends-weaken is_queue-not_text ext) refl refl,
            freed-KeepsTexts,
            refl,
            inr (w.ext, raw, freed_gone w wt.formed has),
          )
    ]
