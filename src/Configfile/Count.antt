-- ===== src/Configfile/Count.antt =====
-- src/configfile.c: `configfile_get_section_count` ends, and counts the names that the library lists.
use righack.Base.{
  ℕ, zero, suc, ◌+◌, ◌-◌, ◌≤◌, ◌<◌, ◌≡◌, ap, ◌≢◌, none, arith, Option-cases, inl, inr,
}
use righack.Configfile.{configfile_get_section_name, count_sections, configfile_get_section_count}
use righack.Configfile.Buffer.{guard_loaded}
use righack.External.{Toml}
use righack.Machine.{World, ok}
use righack.Machine.Objects.{null}

module _ {X : Type 0} ⦃toml : Toml X⦄ where
  name_at :
      (i : ℕ) (w : World X)
      → w.toml_root ≢ null
      → configfile_get_section_name i w ≡ ok (toml.key_in w.ext w.toml_root i) w
  unfolding configfile_get_section_name
  name_at i w root = rw (guard_loaded w root)

  -- The library lists exactly `n` keys at the root.
  pub record HasSections (w : World X) (n : ℕ) : Type 0 where
    pub listed : (i : ℕ) → i < n → toml.key_in w.ext w.toml_root i ≢ none
    pub ends : toml.key_in w.ext w.toml_root n ≡ none

  count_from :
      (fuel i n : ℕ) (w : World X)
      → w.toml_root ≢ null
      → HasSections w n
      → i ≤ n
      → n - i < fuel
      → count_sections fuel i w ≡ ok n w
  unfolding count_sections
  count_from zero i n w root hs le lt = absurd (omega arith)
  count_from (suc fuel) i n w root hs le lt =
      elim (Option-cases (toml.key_in w.ext w.toml_root i)) [
        | inl e ↦
            let end : i ≡ n = ground (arith, hs.listed i) in
            rw (name_at i w root, e) (ap (λ k. ok k w) end)
        | inr (t, e) ↦
            let more : i < n = ground (arith, hs.ends) in
            rw (name_at i w root, e)
              (count_from fuel (i + 1) n w root hs (omega arith) (omega arith))
      ]

  -- With a configuration that lists `n` keys and more than `n` rounds of fuel, the count is `n` and
  -- nothing changes.
  pub configfile_get_section_count-total :
      (fuel n : ℕ) (w : World X)
      → w.toml_root ≢ null
      → HasSections w n
      → n < fuel
      → configfile_get_section_count fuel w ≡ ok n w
  unfolding configfile_get_section_count
  configfile_get_section_count-total fuel n w root hs lt =
      rw (guard_loaded w root) (count_from fuel 0 n w root hs (omega arith) (omega arith))
