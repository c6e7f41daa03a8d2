-- ===== src/Configfile/Buffer.antt =====
-- src/configfile.c: the static buffer `buf` of `configfile_gets_section_key`.
use righack.Base.{
  ◌+◌, ◌≡◌, refl, ◌∙◌, ◌≢◌, ◌⊎◌, inl, inr, true, false, Option, none, some, Text, arith, ◌==◌,
  if◌then◌else◌,
}
use righack.Configfile.{
  configfile_guard, free_buf, section_table, convert_raw, configfile_gets_section_key,
}
use righack.External.{Toml}
use righack.Machine.{World, ok, stop, fault, double_free, ◌>>◌}
use righack.Machine.Access.{
  IsHeap, free_held, free_gone, write-IsHeap, alloc-IsHeap, held_lt_next, held_ne_null,
}
use righack.Machine.Memory.{write}
use righack.Machine.Objects.{Ptr, null, Object, struct_text}

module _ {X : Type 0} where
  pub guard_loaded : (w : World X) → w.toml_root ≢ null → configfile_guard w ≡ ok w.toml_root w
  unfolding configfile_guard
  guard_loaded w ne = ground arith

  free_buf_held :
      (w : World X) {o : Object}
      → w.cell w.config_buf ≡ some o
      → w.config_buf ≢ null
      → free_buf w ≡ ok tt (record w { cell = write w.cell w.config_buf none })
  unfolding free_buf
  free_buf_held w {o} held ne = ground (arith, free_held w w.config_buf o held ne)

  free_buf-null : (w : World X) → w.config_buf ≡ null → free_buf w ≡ ok tt w
  unfolding free_buf
  free_buf-null w e = ground arith

  free_buf_gone :
      (w : World X)
      → w.cell w.config_buf ≡ none
      → w.config_buf ≢ null
      → free_buf w ≡ stop (fault double_free) w
  unfolding free_buf
  free_buf_gone w gone ne = ground (arith, free_gone w w.config_buf gone ne)

-- `buf` is NULL or a block that is there: what a call needs of the buffer.
abbrev pub HasBuffer : {X : Type 0} → World X → Type 0
HasBuffer w = (w.config_buf ≡ null) ⊎ ((o : Object) × (w.cell w.config_buf ≡ some o))

-- The memory behind `free(buf)`.
abbrev pub freed_cell : {X : Type 0} → World X → Ptr → Option Object
freed_cell w = if w.config_buf == null then w.cell else write w.cell w.config_buf none

module _ {X : Type 0} where
  pub free_buf_lem :
      (w : World X)
      → IsHeap w.cell w.next
      → HasBuffer w
      → (free_buf w ≡ ok tt (record w { cell = freed_cell w })) × IsHeap (freed_cell w) w.next
  free_buf_lem w hp (inl e) =
      let t : (w.config_buf == null) ≡ true = ground arith in (rw t (free_buf-null w e), rw t hp)
  free_buf_lem w hp (inr (o, held)) =
      let ne = held_ne_null w w.config_buf o held hp in
      let t : (w.config_buf == null) ≡ false = ground arith in
      (rw t (free_buf_held w held ne), rw t (write-IsHeap w.cell w.next w.config_buf none hp held))

  old_gone :
      (w : World X) (n : Object)
      → IsHeap w.cell w.next
      → HasBuffer w
      → write (freed_cell w) w.next (some n) w.config_buf ≡ none
  old_gone w n hp (inl e) = ground (arith, hp.null_empty, hp.next_pos)
  old_gone w n hp (inr (o, held)) =
      ground (arith, held_lt_next w w.config_buf o held hp, held_ne_null w w.config_buf o held hp)

module _ {X : Type 0} ⦃toml : Toml X⦄ where
  pub table_found :
      (section : Text) (w : World X)
      → toml.table_in w.ext w.toml_root section ≢ null
      → section_table section w ≡ ok (toml.table_in w.ext w.toml_root section) w
  unfolding section_table
  table_found section w ne = ground arith

  -- What a call does once the buffer is freed.
  pub gets_after_free :
      (section key : Text) (w : World X) (h : Ptr → Option Object)
      → w.toml_root ≢ null
      → free_buf w ≡ ok tt (record w { cell = h })
      → toml.table_in w.ext w.toml_root section ≢ null
      → configfile_gets_section_key section key w
        ≡ convert_raw
            (toml.raw_in w.ext (toml.table_in w.ext w.toml_root section) key)
            (record w { cell = h })
  unfolding configfile_gets_section_key
  gets_after_free section key w h root freed table =
      rw (guard_loaded w root, freed, table_found section (record w { cell = h }) table)

  -- `convert_raw` of a string that the library can read.
  pub convert_ok :
      (raw value : Text) (w : World X)
      → toml.rtos raw ≡ some value
      → convert_raw (some raw) w
        ≡ ok w.next (record w {
          cell = write w.cell w.next (some (struct_text value));
          next = w.next + 1;
          config_buf = w.next;
        })
  unfolding convert_raw
  convert_ok raw value w e = ground arith

  pub convert_none : (w : World X) → convert_raw none w ≡ ok null w
  unfolding convert_raw
  convert_none w = refl

  -- The table of a section, and the raw value of a key in it.
  abbrev pub table : World X → Text → Ptr
  table w section = toml.table_in w.ext w.toml_root section

  abbrev pub raw : World X → Text → Text → Option Text
  raw w section key = toml.raw_in w.ext (table w section) key

  -- A key that is there and can be read: the call frees the old buffer and returns a new one with
  -- the value, which the next call can free in turn.
  pub gets-value :
      (section key : Text) (w : World X) (r value : Text)
      → IsHeap w.cell w.next
      → HasBuffer w
      → w.toml_root ≢ null
      → table w section ≢ null
      → raw w section key ≡ some r
      → toml.rtos r ≡ some value
      → (w' : World X) × (configfile_gets_section_key section key w ≡ ok w.next w')
        × (w'.cell w.next ≡ some (struct_text value))
        × (w'.config_buf ≡ w.next)
        × IsHeap w'.cell w'.next
        × (w'.cell w.config_buf ≡ none)
        × (w'.ext ≡ w.ext)
        × (w'.toml_root ≡ w.toml_root)
  gets-value section key w r value hp has root tab e read =
      let (freed, hp1) = free_buf_lem w hp has in
      (
        record w {
          cell = write (freed_cell w) w.next (some (struct_text value));
          next = w.next + 1;
          config_buf = w.next;
        },
        gets_after_free section key w (freed_cell w) root freed tab
            ∙ rw (e, convert_ok r value (record w { cell = freed_cell w }) read),
        ground arith,
        refl,
        alloc-IsHeap (freed_cell w) w.next (struct_text value) hp1,
        old_gone w (struct_text value) hp has,
        refl,
        refl,
      )

  -- A key that is not there: the call frees the buffer and keeps its address.
  gets_missing :
      (section key : Text) (w : World X) {o : Object}
      → w.toml_root ≢ null
      → w.config_buf ≢ null
      → w.cell w.config_buf ≡ some o
      → table w section ≢ null
      → raw w section key ≡ none
      → configfile_gets_section_key section key w
        ≡ ok null (record w { cell = write w.cell w.config_buf none })
  gets_missing section key w root buf held tab e =
      gets_after_free section key w _ root (free_buf_held w held buf) tab
      ∙ rw (e, convert_none (record w { cell = write w.cell w.config_buf none }))

  -- With a freed buffer every further call is a double free.
  gets_gone :
      (section key : Text) (w : World X)
      → w.toml_root ≢ null
      → w.config_buf ≢ null
      → w.cell w.config_buf ≡ none
      → configfile_gets_section_key section key w ≡ stop (fault double_free) w
  unfolding configfile_gets_section_key
  gets_gone section key w root buf gone = rw (guard_loaded w root, free_buf_gone w gone buf)

  -- After a lookup of a key that the section does not have, made while an earlier value is held,
  -- the next lookup of any key in any section frees that value a second time.
  pub gets-double_free :
      (section key section' key' : Text) (w : World X) {o : Object}
      → w.toml_root ≢ null
      → w.config_buf ≢ null
      → w.cell w.config_buf ≡ some o
      → table w section ≢ null
      → raw w section key ≡ none
      → (configfile_gets_section_key section key >> configfile_gets_section_key section' key') w
        ≡ stop (fault double_free) (record w { cell = write w.cell w.config_buf none })
  gets-double_free section key section' key' w root buf held tab e =
      rw (gets_missing section key w root buf held tab e) (
        gets_gone section' key' (record w { cell = write w.cell w.config_buf none }) root buf
          (ground arith))
