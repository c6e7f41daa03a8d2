-- ===== src/Configfile.antt =====
-- src/configfile.c: the configuration, behind tomlc99.
pub mod Buffer
pub mod Count
pub mod Keys
use righack.Base.{
  ℕ, zero, suc, ◌+◌, Bool, Option, none, some, Text, bytes, ◌==◌, not, if◌then◌else◌,
}
use righack.External.{Os, Toml}
use righack.Machine.{
  Prog, fatal, out_of_fuel, pure, halt, skip, ◌>>=◌, ◌>>◌, gets, modify, ask, call, fatal_if, when,
}
use righack.Machine.Memory.{alloc, free}
use righack.Machine.Objects.{Ptr, null, struct_text}

module _ {X : Type 0} where
  unfoldable pub configfile_load : ⦃os : Os X⦄ ⦃toml : Toml X⦄ → Text → Prog X (Unit {0})
  configfile_load ⦃os⦄ ⦃toml⦄ path = do
    loaded ← gets (λ w. w.toml_root)
    fatal_if (not (loaded == null))
        (bytes "attempt to load config file when a config is already loaded")
    fh ← call (os.fopen path)
    fatal_if (fh == null) (bytes "could not fopen(%s): %m")
    root ← call (toml.parse_file fh)
    modify (λ w. record w { toml_root = root })
    failed ← call (os.fclose fh)
    fatal_if failed (bytes "could not fclose(%s): %m")
    fatal_if (root == null) (bytes "Could not load %s:\n%s\n\n")

  -- The root of the configuration, once there is one.
  unfoldable pub configfile_guard : Prog X Ptr
  configfile_guard = do
    root ← gets (λ w. w.toml_root)
    fatal_if (root == null) (bytes "toml_root is NULL\n")
    pure root

  -- `free(buf)` at the start of `configfile_gets_section_key`; `buf` keeps its value.
  unfoldable pub free_buf : Prog X (Unit {0})
  unfolding free
  free_buf = do buf ← gets (λ w. w.config_buf); when (not (buf == null)) (free buf)

module _ {X : Type 0} ⦃toml : Toml X⦄ where
  unfoldable pub configfile_get_section_name : ℕ → Prog X (Option Text)
  unfolding configfile_guard
  configfile_get_section_name num = do root ← configfile_guard; ask (λ x. toml.key_in x root num)

  -- The `while` loop of `configfile_get_section_count`, from `i`.
  unfoldable pub count_sections : ℕ → ℕ → Prog X ℕ
  count_sections zero i = halt out_of_fuel
  count_sections (suc fuel) i = do
    p ← configfile_get_section_name i
    elim p [ none ↦ pure i | some _ ↦ count_sections fuel (i + 1) ]

  unfoldable pub configfile_get_section_count : ℕ → Prog X ℕ
  unfolding count_sections configfile_guard
  configfile_get_section_count fuel = do configfile_guard; count_sections fuel 0

  unfoldable pub section_table : Text → Prog X Ptr
  unfolding configfile_guard
  section_table section = do
    root ← gets (λ w. w.toml_root)
    table ← ask (λ x. toml.table_in x root section)
    fatal_if (table == null) (bytes "could not find config entry for '%s'\n")
    pure table

  -- The call of `toml_rtos` and what follows.
  unfoldable pub convert_raw : Option Text → Prog X Ptr
  unfolding alloc
  convert_raw none = pure null
  convert_raw (some raw) = elim (toml.rtos raw) [
    | none ↦ halt (fatal (bytes "configfile_get_section_key(): toml_rtos() failed\n"))
    | some value ↦ (do
      buf ← alloc (struct_text value)
      modify (λ w. record w { config_buf = buf })
      pure buf)
  ]

  unfoldable pub configfile_gets_section_key : Text → Text → Prog X Ptr
  unfolding configfile_guard free_buf section_table convert_raw
  configfile_gets_section_key section key = do
    configfile_guard
    free_buf
    table ← section_table section
    raw ← ask (λ x. toml.raw_in x table key)
    convert_raw raw

  unfoldable pub configfile_rgets_section_key : Text → Text → Prog X Ptr
  unfolding configfile_guard configfile_gets_section_key
  configfile_rgets_section_key section key = do
    configfile_guard
    value ← configfile_gets_section_key section key
    fatal_if (value == null) (bytes "Could not get required key: '%s' from '%s'\n")
    pure value

  -- The result of the function and `*dest` in one.
  unfoldable pub configfile_geti_section_key : Text → Text → Prog X (Option ℕ)
  unfolding configfile_guard section_table
  configfile_geti_section_key section key = do
    configfile_guard
    table ← section_table section
    raw ← ask (λ x. toml.raw_in x table key)
    elim raw [
      | none ↦ pure none
      | some r ↦ elim (toml.rtoi r) [
        | none ↦ halt (fatal (bytes "could not toml_rtoi()\n"))
        | some n ↦ pure (some n)
      ]
    ]

  unfoldable pub configfile_rgeti_section_key : Text → Text → Prog X ℕ
  unfolding configfile_guard configfile_geti_section_key
  configfile_rgeti_section_key section key = do
    configfile_guard
    result ← configfile_geti_section_key section key
    elim result [ none ↦ halt (fatal (bytes "could not find '%s' in '%s'\n")) | some n ↦ pure n ]
