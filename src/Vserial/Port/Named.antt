-- ===== src/Vserial/Port/Named.antt =====
-- src/drivers/vserial.c: the end of `vserial_create`, from the choice of the name on.
use righack.Base.{
  ℕ, ◌+◌, ◌≡◌, refl, inl, inr, Bool, true, false, some, Text, bytes, arith, length, take, take_all,
  ltb, ◌&&◌, Bool-cases,
}
use righack.External.{Os}
use righack.Machine.{World, stop, fatal, and_then, pure}
use righack.Machine.Access.{IsHeap, alloc-IsHeap, write-IsHeap, held_lt_next, store_held}
use righack.Machine.Extends.{SameVars, Extends, any_kind}
use righack.Machine.Memory.{write, alloc}
use righack.Machine.Objects.{Ptr, null, Vserial, struct_vserial, struct_text}
use righack.Vserial.Port.{path_max, empty_pty, vserial_manage_symlink, name_port}

module _ (master slave : ℕ) (slave_path : Text) where
  -- Whether a name and the slave's path each fit into a path with its NUL.
  abbrev pub fits : Text → Bool
  fits name = ltb (length name) path_max && ltb (length slave_path) path_max

  -- The port that is made at `p`.
  abbrev pub port_at : Ptr → ℕ → Vserial
  port_at p lflag = record {
    name = p + 1;
    pty_master = record { path = null; fd = master; terminfo = lflag };
    pty_slave = record { path = p + 1 + 1; fd = slave; terminfo = 0 };
  }

  -- What `vserial_create` leaves of `w`, in the state `w'`.
  pub record IsCreated {X : Type 0} (w w' : World X) (name : Text) (lflag : ℕ) : Type 0 where
    pub holds_port : w'.cell w.next ≡ some (struct_vserial (port_at w.next lflag))
    pub holds_name : w'.cell (w.next + 1) ≡ some (struct_text name)
    pub holds_path : w'.cell (w.next + 1 + 1) ≡ some (struct_text slave_path)
    pub extends : Extends any_kind w w'
    pub same_vars : SameVars w w'

module _ {X : Type 0} where
  -- The state once the block of the port is allocated and the pseudoterminal is set up.
  abbrev pub opened : World X → X → World X
  opened w y = record w {
    cell = write w.cell w.next (
        some
          (struct_vserial (record { name = null; pty_master = empty_pty; pty_slave = empty_pty })));
    next = w.next + 1;
    ext = y;
  }

module _ {X : Type 0} ⦃os : Os X⦄ (master slave : ℕ) (slave_path : Text) where
  -- The port once its two texts are stored: what is left of `name_port` is the symlink, and that
  -- changes only the state outside.
  pub named_lem :
      (w : World X) (y : X) (name : Text) (lflag : ℕ)
      → IsHeap w.cell w.next
      → fits master slave slave_path name ≡ true
      → (v : World X) × (name_port w.next master slave lflag slave_path (some name) (opened w y)
          ≡ and_then (vserial_manage_symlink name slave_path v) (λ _. pure w.next))
        × ((z : X) → IsCreated master slave slave_path w (record v { ext = z }) name lflag)
  unfolding name_port alloc
  named_lem w y name lflag hp fit =
      let short : ltb (length name) path_max ≡ true = ground arith in
      let short_path : ltb (length slave_path) path_max ≡ true = ground arith in
      let whole : take path_max name ≡ name = take_all path_max name (ground arith) in
      let whole_path : take path_max slave_path ≡ slave_path =
        take_all path_max slave_path (ground arith) in
      let n : Ptr = w.next in
      let w1 : World X = opened w y in
      let w2 : World X = record w1 {
        cell =
            write (write w1.cell (n + 1) (some (struct_text name))) (n + 1 + 1)
              (some (struct_text slave_path));
        next = n + 1 + 1 + 1;
      } in
      let port = struct_vserial (port_at master slave slave_path n lflag) in
      let w3 : World X = record w2 { cell = write w2.cell n (some port) } in
      let held : w2.cell n
          ≡ some (
              struct_vserial
                (record { name = null; pty_master = empty_pty; pty_slave = empty_pty })) =
        ground arith in
      let hp2 = alloc-IsHeap _ (n + 1 + 1) (struct_text slave_path) (
        alloc-IsHeap _ (n + 1) (struct_text name) (
          alloc-IsHeap w.cell n
            (struct_vserial (record { name = null; pty_master = empty_pty; pty_slave = empty_pty }))
            hp)) in
      let hp3 = write-IsHeap w2.cell w2.next n (some port) hp2 held in
      (
        w3,
        rw (short, short_path, whole, whole_path, store_held w2 n _ held port),
        λ z. record {
          holds_port = ground arith;
          holds_name = ground arith;
          holds_path = ground arith;
          extends = record {
            formed = hp3;
            kept = λ q o old other. ground (arith, held_lt_next w q o old hp);
            same_root = refl;
            same_drivers = refl;
            same_modules = refl;
            same_loop = refl;
            same_signal = refl;
            same_running = refl;
          };
          same_vars = record { same_buf = refl; same_queue = refl; same_last = refl };
        },
      )

  pub name_too_long :
      (w : World X) (y : X) (name : Text) (lflag : ℕ)
      → fits master slave slave_path name ≡ false
      → (m : Text) × (name_port w.next master slave lflag slave_path (some name) (opened w y)
          ≡ stop (fatal m) (opened w y))
  unfolding name_port
  name_too_long w y name lflag unfit = elim (Bool-cases (ltb (length name) path_max)) [
    | inr long ↦ (bytes "length of name(%d) >= PATH_MAX(%d)\n", rw long)
    | inl short ↦
        let long : ltb (length slave_path) path_max ≡ false = ground arith in
        (bytes "length of slave_path(%d) >= PATH_MAX(%d)\n", rw (short, long))
  ]
