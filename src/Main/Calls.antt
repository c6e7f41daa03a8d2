-- ===== src/Main/Calls.antt =====
-- The calls of hamlib and of `read` that the radio and the port need once the port is polled.
use righack.Base.{true, ◌≢◌, ℕ, Bool, Text, ◌≡◌, refl, ◌∙◌}
use righack.External.{CloseKeepsOthers, UvEvents, Uv, Os, Rig}
use righack.Machine.Objects.{Ptr}

-- From `x` on, the state outside has come to `y` by such calls alone.
pub data RadioCalls {X : Type 0} (os : Os X) (rig : Rig X) (x : X) : X → Type 0 where
  no_call : RadioCalls os rig x x
  reads : {y : X} → RadioCalls os rig x y → (fd : ℕ) → RadioCalls os rig x (os.read fd y).1
  keys :
      {y : X}
      → RadioCalls os rig x y
      → (h : Ptr) (b : Bool) → RadioCalls os rig x (rig.set_ptt h b y).1
  inits : {y : X} → RadioCalls os rig x y → (n : ℕ) → RadioCalls os rig x (rig.init n y).1
  names :
      {y : X}
      → RadioCalls os rig x y
      → (h : Ptr) (path : Text) → RadioCalls os rig x (rig.set_pathname h path y)
  opens : {y : X} → RadioCalls os rig x y → (h : Ptr) → RadioCalls os rig x (rig.open_rig h y).1

pub RadioCalls-trans :
    {X : Type 0} {os : Os X} {rig : Rig X} {x y z : X}
    → RadioCalls os rig x y
    → RadioCalls os rig y z
    → RadioCalls os rig x z
RadioCalls-trans a no_call = a
RadioCalls-trans a (reads b fd) = reads (RadioCalls-trans a b) fd
RadioCalls-trans a (keys b h on) = keys (RadioCalls-trans a b) h on
RadioCalls-trans a (inits b n) = inits (RadioCalls-trans a b) n
RadioCalls-trans a (names b h path) = names (RadioCalls-trans a b) h path
RadioCalls-trans a (opens b h) = opens (RadioCalls-trans a b) h

-- Neither hamlib nor `read` touches libuv's handles, and `uv_poll_start` activates its own.
pub record HandleLaws {X : Type 0} (uv : Uv X) (os : Os X) (rig : Rig X) : Type 0 where
  pub read_law : (fd : ℕ) (x : X) (q : Ptr) → uv.is_active (os.read fd x).1 q ≡ uv.is_active x q
  pub key_law :
      (h : Ptr) (b : Bool) (x : X) (q : Ptr)
      → uv.is_active (rig.set_ptt h b x).1 q ≡ uv.is_active x q
  pub init_law : (n : ℕ) (x : X) (q : Ptr) → uv.is_active (rig.init n x).1 q ≡ uv.is_active x q
  pub name_law :
      (h : Ptr) (path : Text) (x : X) (q : Ptr)
      → uv.is_active (rig.set_pathname h path x) q ≡ uv.is_active x q
  pub open_law :
      (h : Ptr) (x : X) (q : Ptr) → uv.is_active (rig.open_rig h x).1 q ≡ uv.is_active x q

pub RadioCalls-same_active :
    {X : Type 0} {uv : Uv X} {os : Os X} {rig : Rig X} {x y : X}
    → HandleLaws uv os rig
    → (q : Ptr) → RadioCalls os rig x y
    → uv.is_active y q ≡ uv.is_active x q
RadioCalls-same_active laws q no_call = refl
RadioCalls-same_active laws q (reads c fd) = laws.read_law fd _ q ∙ RadioCalls-same_active laws q c
RadioCalls-same_active laws q (keys c h b) = laws.key_law h b _ q ∙ RadioCalls-same_active laws q c
RadioCalls-same_active laws q (inits c n) = laws.init_law n _ q ∙ RadioCalls-same_active laws q c
RadioCalls-same_active laws q (names c h path) =
    laws.name_law h path _ q ∙ RadioCalls-same_active laws q c
RadioCalls-same_active laws q (opens c h) = laws.open_law h _ q ∙ RadioCalls-same_active laws q c

-- Documented behaviour of libuv: starting a poll handle for events that it can read activates it (with
-- no event at all it would stop it), and the calls that stop or
-- close a handle, and `uv_stop`, deactivate no other one.
pub record LoopLaws {X : Type 0} (uv : Uv X) : Type 0 where
  pub starts :
      (h : Ptr) (e : UvEvents) (x : X)
      → e.readable ≡ true
      → uv.is_active (uv.poll_start h e x) h ≡ true
  pub prepare_stops :
      (p : Ptr) (x : X) (q : Ptr) → p ≢ q → uv.is_active (uv.prepare_stop p x) q ≡ uv.is_active x q
  pub signal_stops :
      (p : Ptr) (x : X) (q : Ptr) → p ≢ q → uv.is_active (uv.signal_stop p x) q ≡ uv.is_active x q
  pub loop_stops :
      (l : Ptr) (x : X) (q : Ptr) → uv.is_active (uv.stop_loop l x) q ≡ uv.is_active x q
  pub closes : CloseKeepsOthers uv
