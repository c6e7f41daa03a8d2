-- ===== src/Module/Registry.antt =====
-- src/module.c: what the loop of `module_get_info`, which never advances, makes of a lookup.
use righack.Base.{
  ℕ, zero, suc, ◌≡◌, refl, ◌≢◌, ap, ◌∙◌, some, List, ◌∷◌, Text, text_eq_iff, text_ne,
}
use righack.Machine.{World, Prog, ok, stop, out_of_fuel}
use righack.Machine.Objects.{Ptr, ModuleInfo, ModuleLifecycle}
use righack.Module.{find_module, module_get_info, module_start}

module _ {X : Type 0} where
  find_hangs :
      (fuel : ℕ) (name : Text) (m : ModuleInfo) (ms : List ModuleInfo) (w : World X)
      → name ≢ m.name
      → find_module name fuel (m ∷ ms) w ≡ stop out_of_fuel w
  unfolding find_module
  find_hangs zero name m ms w ne = refl
  find_hangs (suc fuel) name m ms w ne =
      rw (text_ne name m.name ne) (find_hangs fuel name m ms w ne)

  find_same :
      (fuel : ℕ) (m : ModuleInfo) (ms : List ModuleInfo) (w : World X)
      → find_module m.name (suc fuel) (m ∷ ms) w ≡ ok (some m) w
  unfolding find_module
  find_same fuel m ms w = rw ((text_eq_iff m.name m.name).1 refl)

  get_info_of :
      (fuel : ℕ) (name : Text) (l : List ModuleInfo) (w : World X)
      → w.loaded_modules ≡ l
      → module_get_info fuel name w ≡ find_module name fuel l w
  unfolding module_get_info
  get_info_of fuel name l w e = ap (λ k. find_module name fuel k w) e

  -- Starting a module under a name that is not that of the module registered last runs out of every
  -- amount of fuel: the loop does not end, and the message about an unknown module never comes.
  pub module_start-hangs :
      (start : ModuleLifecycle → Ptr → Prog X (Unit {0})) (fuel : ℕ) (name section : Text)
      (m : ModuleInfo) (ms : List ModuleInfo) (w : World X)
      → w.loaded_modules ≡ m ∷ ms
      → name ≢ m.name
      → module_start start fuel name section w ≡ stop out_of_fuel w
  unfolding module_start
  module_start-hangs start fuel name section m ms w e ne =
      rw (get_info_of fuel name (m ∷ ms) w e ∙ find_hangs fuel name m ms w ne)

  pub module_get_info-first :
      (fuel : ℕ) (m : ModuleInfo) (ms : List ModuleInfo) (w : World X)
      → w.loaded_modules ≡ m ∷ ms
      → module_get_info (suc fuel) m.name w ≡ ok (some m) w
  module_get_info-first fuel m ms w e =
      get_info_of (suc fuel) m.name (m ∷ ms) w e ∙ find_same fuel m ms w
