-- ===== src/Machine.antt =====
-- The state of the process and the commands over it. A command either returns a value, or the
-- process stops: by `util_fatal`, by `exit`, by `abort`, by undefined behaviour, or because a loop
-- of the model ran out of fuel.
pub mod Objects
pub mod Others
pub mod Access
pub mod Ends
pub mod Extends
pub mod Memory
use righack.Base.{ℕ, Bool, true, false, Option, none, some, List, Text, ◌==◌, if◌then◌else◌}
use Objects.{Ptr, Object, DriverList, LoadedModuleList, RunningModuleList}

-- enum exit_value of guts.h; the last is the value kept by autodie.c
pub data ExitValue : Type 0 where
  exit_ok exit_fatal exit_args exit_nomem : ExitValue

pub data Fault : Type 0 where
  bad_access double_free bad_call : Fault

-- `fatal m` is `util_fatal(m, ...)`, which ends in `guts_exit(exit_fatal)`
pub data Stop : Type 0 where
  fatal : Text → Stop
  exit : ExitValue → Stop
  fault : Fault → Stop
  out_of_fuel : Stop

-- The value that the process hands to its parent, if it ends by `exit`.
abbrev pub exit_value : Stop → Option ExitValue
exit_value (fatal _) = some exit_fatal
exit_value (exit v) = some v
exit_value (fault _) = none
exit_value out_of_fuel = none

-- Memory, the static variables of the source files, and `ext`, the state of all that is not
-- source: the kernel, libuv, hamlib and the parsed configuration.
pub record World (X : Type 0) : Type 0 where
  pub cell : Ptr → Option Object
  pub next : Ptr
  pub thread_loop : Ptr
  pub in_runloop_context : Bool
  pub run_once_queue : Ptr
  pub run_once_last : Ptr
  pub run_once_prepare : Ptr
  pub run_once_prepare_started : Bool
  pub int_signal : Ptr
  pub toml_root : Ptr
  pub config_buf : Ptr
  pub loaded_drivers : DriverList
  pub loaded_modules : LoadedModuleList
  pub running_modules : RunningModuleList
  pub ext : X

pub data Outcome (X A : Type 0) : Type 0 where
  ok : A → World X → Outcome X A
  stop : Stop → World X → Outcome X A

abbrev pub Prog : Type 0 → Type 0 → Type 0
Prog X A = World X → Outcome X A

module _ {X : Type 0} where
  abbrev pub pure : {A : Type 0} → A → Prog X A
  pure = ok

  abbrev pub halt : {A : Type 0} → Stop → Prog X A
  halt = stop

  abbrev pub skip : Prog X (Unit {0})
  skip = ok tt

  abbrev pub and_then : {A B : Type 0} → Outcome X A → (A → Prog X B) → Outcome X B
  and_then (ok a w) k = k a w
  and_then (stop r w) k = stop r w

  infixl 5 ◌>>=◌ ◌>>◌
  abbrev pub ◌>>=◌ : {A B : Type 0} → Prog X A → (A → Prog X B) → Prog X B
  m >>= k = λ w. and_then (m w) k

  abbrev pub ◌>>◌ : {A B : Type 0} → Prog X A → Prog X B → Prog X B
  m >> n = m >>= λ _. n

  abbrev pub gets : {A : Type 0} → (World X → A) → Prog X A
  gets f w = ok (f w) w

  abbrev pub modify : (World X → World X) → Prog X (Unit {0})
  modify f w = ok tt (f w)

  -- `if (test) util_fatal(m)`
  abbrev pub fatal_if : Bool → Text → Prog X (Unit {0})
  fatal_if true m = stop (fatal m)
  fatal_if false m = ok tt

  -- A call that reads the state outside, and one that also changes it.
  abbrev pub ask : {A : Type 0} → (X → A) → Prog X A
  ask f w = ok (f w.ext) w

  abbrev pub tell : (X → X) → Prog X (Unit {0})
  tell f w = ok tt (record w { ext = f w.ext })

  abbrev pub call : {A : Type 0} → (X → A × X) → Prog X A
  call f w = let (a, x) = f w.ext in ok a (record w { ext = x })

  abbrev pub when : Bool → Prog X (Unit {0}) → Prog X (Unit {0})
  when true m = m
  when false m = skip
