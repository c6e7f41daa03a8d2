-- ===== src/Machine/Extends.antt =====
-- What a command leaves of the state before it: the blocks of the kinds that it never touches, and
-- the variables of the queue, the registries and the configuration.
use righack.Base.{◌≢◌, none, Text, ◌+◌, ◌≡◌, refl, ◌∙◌, Bool, true, false, Option, some, arith}
use righack.Machine.{World}
use righack.Machine.Access.{IsHeap, write-IsHeap, alloc-IsHeap, held_lt_next}
use righack.Machine.Memory.{write}
use righack.Machine.Objects.{
  uv_signal, uv_prepare, uv_loop, struct_module, struct_test_context, struct_driver_cb,
  struct_driver, struct_run_once, Ptr, Object, struct_text, struct_queue_entry,
}

-- The kinds of blocks that stay: all, all but texts, all but entries of the queue.
abbrev pub any_kind : Object → Bool
any_kind o = true

abbrev pub not_text : Object → Bool
not_text (struct_text t) = false
not_text o = true

abbrev pub is_fixed : Object → Bool
is_fixed (struct_queue_entry e) = false
is_fixed o = true

-- The kinds of the queue: entries and jobs.
abbrev pub is_queue : Object → Bool
is_queue (struct_queue_entry e) = true
is_queue (struct_run_once r) = true
is_queue o = false

-- All kinds but texts, entries of the queue, and drivers.
abbrev pub is_settled : Object → Bool
is_settled (struct_text t) = false
is_settled (struct_queue_entry e) = false
is_settled (struct_driver d) = false
is_settled o = true

-- All kinds but those that tie a driver to a module: its callbacks, itself, and the module's context.
abbrev pub is_untied : Object → Bool
is_untied (struct_driver_cb c) = false
is_untied (struct_driver d) = false
is_untied (struct_test_context c) = false
is_untied o = true

-- All kinds but those that starting the radio changes: texts, the module, and its context.
abbrev pub is_started : Object → Bool
is_started (struct_text t) = false
is_started (struct_module m) = false
is_started (struct_test_context c) = false
is_started o = true

-- All kinds but texts and those of the queue.
abbrev pub is_lasting : Object → Bool
is_lasting (struct_text t) = false
is_lasting (struct_queue_entry e) = false
is_lasting (struct_run_once r) = false
is_lasting o = true

pub is_lasting-not_text : (o : Object) → is_lasting o ≡ true → not_text o ≡ true
is_lasting-not_text o e = ground arith

-- The kinds of libuv's own blocks.
abbrev pub is_uv : Object → Bool
is_uv uv_loop = true
is_uv uv_prepare = true
is_uv uv_signal = true
is_uv o = false

pub is_uv-not_text : (o : Object) → is_uv o ≡ true → not_text o ≡ true
is_uv-not_text o e = ground arith

pub is_uv-is_settled : (o : Object) → is_uv o ≡ true → is_settled o ≡ true
is_uv-is_settled o e = ground arith

pub is_uv-is_untied : (o : Object) → is_uv o ≡ true → is_untied o ≡ true
is_uv-is_untied o e = ground arith

pub is_uv-is_started : (o : Object) → is_uv o ≡ true → is_started o ≡ true
is_uv-is_started o e = ground arith

pub is_queue-is_started : (o : Object) → is_queue o ≡ true → is_started o ≡ true
is_queue-is_started o e = ground arith

pub is_started-not_text : (o : Object) → is_started o ≡ true → not_text o ≡ true
is_started-not_text o e = ground arith

pub is_queue-is_untied : (o : Object) → is_queue o ≡ true → is_untied o ≡ true
is_queue-is_untied o e = ground arith

pub is_queue-not_text : (o : Object) → is_queue o ≡ true → not_text o ≡ true
is_queue-not_text o e = ground arith

pub is_settled-is_fixed : (o : Object) → is_settled o ≡ true → is_fixed o ≡ true
is_settled-is_fixed o e = ground arith

pub is_settled-not_text : (o : Object) → is_settled o ≡ true → not_text o ≡ true
is_settled-not_text o e = ground arith

-- Every block of a kind that stays holds what it held.
abbrev pub KeepsIf : (Object → Bool) → (Ptr → Option Object) → (Ptr → Option Object) → Type 0
KeepsIf stays h h' = (q : Ptr) (o : Object) → h q ≡ some o → stays o ≡ true → h' q ≡ some o

module _ {X : Type 0} where
  pub record Extends (stays : Object → Bool) (w w' : World X) : Type 0 where
    pub formed : IsHeap w'.cell w'.next
    pub kept : KeepsIf stays w.cell w'.cell
    pub same_root : w'.toml_root ≡ w.toml_root
    pub same_drivers : w'.loaded_drivers ≡ w.loaded_drivers
    pub same_modules : w'.loaded_modules ≡ w.loaded_modules
    pub same_loop : w'.thread_loop ≡ w.thread_loop
    pub same_signal : w'.int_signal ≡ w.int_signal
    pub same_running : w'.running_modules ≡ w.running_modules

  -- The variables of the queue and of the configuration's buffer.
  pub record SameVars (w w' : World X) : Type 0 where
    pub same_buf : w'.config_buf ≡ w.config_buf
    pub same_queue : w'.run_once_queue ≡ w.run_once_queue
    pub same_last : w'.run_once_last ≡ w.run_once_last

  pub SameVars-trans : {w1 w2 w3 : World X} → SameVars w1 w2 → SameVars w2 w3 → SameVars w1 w3
  SameVars-trans a b = record {
    same_buf = b.same_buf ∙ a.same_buf;
    same_queue = b.same_queue ∙ a.same_queue;
    same_last = b.same_last ∙ a.same_last;
  }

  pub Extends-trans :
      {stays : Object → Bool} {w1 w2 w3 : World X}
      → Extends stays w1 w2
      → Extends stays w2 w3
      → Extends stays w1 w3
  Extends-trans a b = record {
    formed = b.formed;
    kept = λ q o held e. b.kept q o (a.kept q o held e) e;
    same_root = b.same_root ∙ a.same_root;
    same_drivers = b.same_drivers ∙ a.same_drivers;
    same_modules = b.same_modules ∙ a.same_modules;
    same_loop = b.same_loop ∙ a.same_loop;
    same_signal = b.same_signal ∙ a.same_signal;
    same_running = b.same_running ∙ a.same_running;
  }

  pub Extends-weaken :
      {stays fewer : Object → Bool} {w w' : World X}
      → ((o : Object) → fewer o ≡ true → stays o ≡ true)
      → Extends stays w w'
      → Extends fewer w w'
  Extends-weaken sub a = record {
    formed = a.formed;
    kept = λ q o held e. a.kept q o held (sub o e);
    same_root = a.same_root;
    same_drivers = a.same_drivers;
    same_modules = a.same_modules;
    same_loop = a.same_loop;
    same_signal = a.same_signal;
    same_running = a.same_running;
  }

  -- A fresh block, with any change outside.
  pub Extends-alloc :
      (stays : Object → Bool) (w : World X) (o : Object) (x : X)
      → IsHeap w.cell w.next
      → Extends stays w
          (record w { cell = write w.cell w.next (some o); next = w.next + 1; ext = x })
  Extends-alloc stays w o x hp = record {
    formed = alloc-IsHeap w.cell w.next o hp;
    kept = λ q b held e. ground (arith, held_lt_next w q b held hp);
    same_root = refl;
    same_drivers = refl;
    same_modules = refl;
    same_loop = refl;
    same_signal = refl;
    same_running = refl;
  }

  -- A store to a block of a kind that need not stay.
  pub Extends-write :
      (stays : Object → Bool) (w : World X) (p : Ptr) (o n : Object) (x : X)
      → IsHeap w.cell w.next
      → w.cell p ≡ some o
      → stays o ≡ false
      → Extends stays w (record w { cell = write w.cell p (some n); ext = x })
  Extends-write stays w p o n x hp held off = record {
    formed = write-IsHeap w.cell w.next p (some n) hp held;
    kept = λ q b held' e. ground (arith, held', e);
    same_root = refl;
    same_drivers = refl;
    same_modules = refl;
    same_loop = refl;
    same_signal = refl;
    same_running = refl;
  }

  pub Extends-ext :
      (stays : Object → Bool) (w : World X) (x : X)
      → IsHeap w.cell w.next
      → Extends stays w (record w { ext = x })
  Extends-ext stays w x hp = record {
    formed = record {
      null_empty = hp.null_empty;
      next_pos = hp.next_pos;
      rest_empty = hp.rest_empty;
    };
    kept = λ q o held e. held;
    same_root = refl;
    same_drivers = refl;
    same_modules = refl;
    same_loop = refl;
    same_signal = refl;
    same_running = refl;
  }

  -- A freed block of a kind that need not stay.
  pub Extends-free :
      (stays : Object → Bool) (w : World X) (p : Ptr) (o : Object)
      → IsHeap w.cell w.next
      → w.cell p ≡ some o
      → stays o ≡ false
      → Extends stays w (record w { cell = write w.cell p none })
  Extends-free stays w p o hp held off = record {
    formed = write-IsHeap w.cell w.next p none hp held;
    kept = λ q b held' e. ground (arith, held', e);
    same_root = refl;
    same_drivers = refl;
    same_modules = refl;
    same_loop = refl;
    same_signal = refl;
    same_running = refl;
  }

  -- All texts stay, but the one in `config_buf`, and the new `config_buf` is none of them.
  pub record KeepsTexts (w w' : World X) : Type 0 where
    pub texts :
        (q : Ptr) (t : Text)
        → w.cell q ≡ some (struct_text t)
        → q ≢ w.config_buf
        → (w'.cell q ≡ some (struct_text t)) × (q ≢ w'.config_buf)

  pub KeepsTexts-trans :
      {w1 w2 w3 : World X} → KeepsTexts w1 w2 → KeepsTexts w2 w3 → KeepsTexts w1 w3
  KeepsTexts-trans a b = record {
    texts = λ q t held ne. let (held', ne') = a.texts q t held ne in b.texts q t held' ne';
  }

  pub Extends-KeepsTexts :
      {stays : Object → Bool} {w w' : World X}
      → ((t : Text) → stays (struct_text t) ≡ true)
      → Extends stays w w'
      → w'.config_buf ≡ w.config_buf
      → KeepsTexts w w'
  Extends-KeepsTexts texts ext buf = record {
    texts = λ q t held ne. (ext.kept q (struct_text t) held (texts t), λ e. ne (e ∙ buf));
  }
