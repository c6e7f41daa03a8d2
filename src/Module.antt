-- ===== src/Module.antt =====
-- src/module.c and src/module.h: the registered modules and the running ones.
pub mod Registry
pub mod Instances
use righack.Base.{
  ℕ, zero, suc, Bool, Option, none, some, List, [], ◌∷◌, Text, bytes, text_eq, ◌==◌, if◌then◌else◌,
}
use righack.Machine.{
  Prog, fatal, out_of_fuel, pure, halt, skip, ◌>>=◌, ◌>>◌, gets, modify, fatal_if,
}
use righack.Machine.Memory.{alloc, load, store, free}
use righack.Machine.Objects.{
  struct_running_module_list, struct_loaded_module_list, Ptr, null, ModuleInfo, ModuleLifecycle,
  test_lifecycle, Module, struct_module, struct_text, as_module,
}

-- test_module_info
unfoldable pub test_module_info : ModuleInfo
test_module_info = record { name = bytes "test"; lifecycle = test_lifecycle }

module _ {X : Type 0} where
  -- The `while` loop of `module_get_info`: a round that does not break leaves `p` where it was.
  unfoldable pub find_module : Text → ℕ → List ModuleInfo → Prog X (Option ModuleInfo)
  find_module name zero p = halt out_of_fuel
  find_module name (suc fuel) [] = pure none
  find_module name (suc fuel) (m ∷ ms) =
      let again = find_module name fuel (m ∷ ms) in
      if text_eq name m.name then pure (some m) else again

  unfoldable pub module_get_info : ℕ → Text → Prog X (Option ModuleInfo)
  unfolding find_module
  module_get_info fuel name = do p ← gets (λ w. w.loaded_modules); find_module name fuel p

  unfoldable pub module_register : ℕ → ModuleInfo → Prog X (Unit {0})
  unfolding module_get_info alloc
  module_register fuel info = do
    alloc (struct_loaded_module_list info)
    known ← module_get_info fuel info.name
    elim known [
      | some _ ↦ halt (fatal (bytes "attempt to add a module with a name that is a duplicate: %s"))
      | none ↦ modify (λ w. record w { loaded_modules = info ∷ w.loaded_modules })
    ]

  unfoldable pub module_bootstrap : ℕ → Prog X (Unit {0})
  unfolding module_register test_module_info
  module_bootstrap fuel = module_register fuel test_module_info

  unfoldable pub module_create : ModuleInfo → Text → Prog X Ptr
  unfolding alloc
  module_create info config_section = do
    label ← alloc (struct_text config_section)
    new_module ← alloc (struct_module (record { label = label; private = null; info = info }))
    alloc (struct_running_module_list new_module)
    modify (λ w. record w { running_modules = new_module ∷ w.running_modules })
    pure new_module

  -- `start` and `stop` are the calls through `module->info->lifecycle`.
  unfoldable pub module_start :
      (start : ModuleLifecycle → Ptr → Prog X (Unit {0})) → ℕ → Text → Text → Prog X Ptr
  unfolding module_get_info module_create load
  module_start start fuel name config_section = do
    found ← module_get_info fuel name
    elim found [
      | none ↦ halt (fatal (bytes "could not find module implementation for '%s'"))
      | some info ↦ (do
        p ← module_create info config_section
        fatal_if (p == null) (bytes "Could not create module '%s'")
        m ← load as_module p
        start m.info.lifecycle p
        pure p)
    ]

  module _ (stop : ModuleLifecycle → Ptr → Prog X (Unit {0})) where
    unfoldable pub module_stop : Ptr → Prog X (Unit {0})
    unfolding load
    module_stop p = do m ← load as_module p; stop m.info.lifecycle p

    -- The `while` loop of `module_stop_all`.
    unfoldable pub stop_each : List Ptr → Prog X (Unit {0})
    unfolding module_stop
    stop_each [] = skip
    stop_each (p ∷ ps) = module_stop p >> stop_each ps

    unfoldable pub module_stop_all : Prog X (Unit {0})
    unfolding stop_each
    module_stop_all = do running ← gets (λ w. w.running_modules); stop_each running

  unfoldable pub module_destroy : Ptr → Prog X (Unit {0})
  unfolding load free
  module_destroy p = do m ← load as_module p; free m.label; free p
