-- ===== src/Module/Instances.antt =====
-- src/module.c: creating instances.
use righack.Base.{ℕ, suc, ◌+◌, ◌≡◌, refl, false, some, List, ◌∷◌, Text, arith, ◌==◌, ◌∙◌}
use mathlib.Core.Path.{ap}
use righack.Machine.{and_then, pure, World, Prog, ok}
use righack.Machine.Access.{IsHeap, load_held, alloc-IsHeap}
use righack.Machine.Memory.{write}
use righack.Machine.Objects.{
  struct_running_module_list, Ptr, null, ModuleInfo, ModuleLifecycle, Module, struct_module,
  struct_text, as_module,
}
use righack.Module.{module_start}
use righack.Module.Registry.{module_get_info-first}

module _ {X : Type 0} where
  -- The new instance.
  abbrev pub instance_of : World X → ModuleInfo → Module
  instance_of w info = record { label = w.next; private = null; info = info }

  -- The state once `module_create` has returned.
  abbrev pub created : World X → ModuleInfo → Text → World X
  created w info section = record w {
    cell =
        write
          (write (write w.cell w.next (some (struct_text section))) (w.next + 1)
            (some (struct_module (instance_of w info))))
          (w.next + 1 + 1) (some (struct_running_module_list (w.next + 1)));
    next = w.next + 1 + 1 + 1;
    running_modules = (w.next + 1) ∷ w.running_modules;
  }

  pub created-IsHeap :
      (info : ModuleInfo) (section : Text) (w : World X)
      → IsHeap w.cell w.next
      → IsHeap (created w info section).cell (created w info section).next
  created-IsHeap info section w hp =
      alloc-IsHeap _ (w.next + 1 + 1) (struct_running_module_list (w.next + 1)) (
        alloc-IsHeap _ (w.next + 1) (struct_module (instance_of w info))
          (alloc-IsHeap w.cell w.next (struct_text section) hp))

  -- The call of `start` that is left of starting the module registered last.
  pub module_start-called :
      (start : ModuleLifecycle → Ptr → Prog X (Unit {0})) (fuel : ℕ) (section : Text)
      (m : ModuleInfo) (ms : List ModuleInfo) (w : World X)
      → w.loaded_modules ≡ m ∷ ms
      → module_start start (suc fuel) m.name section w
        ≡ and_then (start m.lifecycle (w.next + 1) (created w m section)) (λ _. pure (w.next + 1))
  unfolding module_start
  module_start-called start fuel section m ms w e =
      let held : (created w m section).cell (w.next + 1) ≡ some (struct_module (instance_of w m)) =
        ground arith in
      let live : (w.next + 1 == null) ≡ false = ground arith in
      rw (
        module_get_info-first fuel m ms w e,
        live,
        load_held (created w m section) (w.next + 1) _ held as_module (instance_of w m) refl,
      )

  -- Starting the module registered last makes an instance that holds a copy of the section's name
  -- and no private data, puts it in front of the running ones, and calls the module's `start` on it;
  -- the instance is the result if that returns.
  pub module_start-first :
      (start : ModuleLifecycle → Ptr → Prog X (Unit {0})) (fuel : ℕ) (section : Text)
      (m : ModuleInfo) (ms : List ModuleInfo) (w w1 : World X)
      → w.loaded_modules ≡ m ∷ ms
      → IsHeap w.cell w.next
      → start m.lifecycle (w.next + 1) (created w m section) ≡ ok tt w1
      → (module_start start (suc fuel) m.name section w ≡ ok (w.next + 1) w1)
        × ((created w m section).cell (w.next + 1) ≡ some (struct_module (instance_of w m)))
        × ((created w m section).cell w.next ≡ some (struct_text section))
        × IsHeap (created w m section).cell (created w m section).next
  module_start-first start fuel section m ms w w1 e hp started = (
    module_start-called start fuel section m ms w e
        ∙ ap (λ o. and_then o (λ _. pure (w.next + 1))) started,
    ground arith,
    ground arith,
    created-IsHeap m section w hp,
  )
