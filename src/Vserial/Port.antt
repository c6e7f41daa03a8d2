-- ===== src/Vserial/Port.antt =====
-- src/drivers/vserial.c: opening the pseudoterminal and managing the symlink to it.
pub mod Create
pub mod Named
pub mod Symlink
use mathlib.Core.Option.{get_or}
use righack.Base.{
  ℕ, ◌+◌, Bool, true, false, Option, none, some, List, Text, bytes, length, take, text_eq, ltb,
  ◌==◌, ◌||◌, not, if◌then◌else◌, test_bit, set_bit,
}
use righack.External.{Os, Lstat, lstat_enoent, lstat_failed, lstat_mode}
use righack.Machine.{Prog, fatal, pure, halt, skip, ◌>>=◌, ◌>>◌, ask, call, fatal_if, when}
use righack.Machine.Memory.{alloc, load, store, free}
use righack.Machine.Objects.{
  Ptr, null, VserialPty, Vserial, struct_vserial, struct_text, as_vserial, as_text,
}

-- PATH_MAX of linux/limits.h
abbrev pub path_max : ℕ
path_max = 4096

-- `st_mode & S_IFLNK` as a truth value: S_IFLNK is 0120000.
abbrev pub mode_has_lnk : ℕ → Bool
mode_has_lnk mode = test_bit mode 13 || test_bit mode 15

-- O_NONBLOCK is 04000 and EXTPROC is 0200000.
abbrev pub o_nonblock : ℕ
o_nonblock = 11

abbrev pub extproc : ℕ
extproc = 16

abbrev pub empty_pty : VserialPty
empty_pty = record { path = null; fd = 0; terminfo = 0 }

module _ {X : Type 0} ⦃os : Os X⦄ where
  -- util_set_nonblock of src/util.c
  unfoldable pub util_set_nonblock : ℕ → Prog X (Unit {0})
  util_set_nonblock fd = do
    flags ← ask (λ x. os.fcntl_getfl x fd)
    elim flags [
      | none ↦ halt (fatal (bytes "could not fcntl(%d, F_GETFL, 0): %m"))
      | some f ↦ (do
        failed ← call (os.fcntl_setfl fd (set_bit f o_nonblock))
        fatal_if failed (bytes "could not fcntl(%d, F_SETFL, O_NONBLOCK): %m"))
    ]

  -- util_get_link_target of src/util.c; the buffer has a byte more, for the NUL
  unfoldable pub util_get_link_target : Text → Prog X (Option Text)
  util_get_link_target path = ask (λ x. os.readlink x path path_max)

  unfoldable pub create_symlink : Text → Text → Prog X (Unit {0})
  create_symlink target pty_slave = do
    failed ← call (os.symlink pty_slave target)
    fatal_if failed (bytes "could not symlink(%s, %s): %m")

  -- The branch for a target that passes the test for a symlink; the result is `create_link`.
  unfoldable pub update_symlink : Text → Text → Prog X Bool
  unfolding util_get_link_target
  update_symlink target pty_slave = do
    links_to ← util_get_link_target target
    elim links_to [
      | none ↦ halt (fatal (bytes "could not get target of %s: %m"))
      | some l ↦ if text_eq pty_slave l then pure false else (do
        failed ← call (os.unlink target)
        fatal_if failed (bytes "could not unlink(%s): %m")
        pure true)
    ]

  -- The three branches on `lstat`.
  unfoldable pub check_target : Text → Text → Lstat → Prog X Bool
  unfolding update_symlink
  check_target target pty_slave lstat_enoent = pure true
  check_target target pty_slave lstat_failed = halt (fatal (bytes "could not lstat(%s): %m"))
  check_target target pty_slave (lstat_mode mode) =
      if mode_has_lnk mode
      then update_symlink target pty_slave
      else halt (fatal (bytes "will not overwrite %s with symlink\n"))

  unfoldable pub vserial_manage_symlink : Text → Text → Prog X (Unit {0})
  unfolding check_target create_symlink
  vserial_manage_symlink target pty_slave = do
    info ← ask (λ x. os.lstat x target)
    create_link ← check_target target pty_slave info
    when create_link (create_symlink target pty_slave)

  -- The calls on the master side of a new pseudoterminal; the result is the terminal's c_lflag.
  unfoldable pub setup_master : ℕ → Prog X ℕ
  unfolding util_set_nonblock
  setup_master master = do
    util_set_nonblock master
    failed ← call (os.ioctl_tiocpkt master)
    fatal_if failed (bytes "could not ioctl(): %m")
    attr ← ask (λ x. os.tcgetattr x master)
    elim attr [
      | none ↦ halt (fatal (bytes "could not tcgettr(): %m"))
      | some lflag ↦ (do
        unset ← call (os.tcsetattr master (set_bit lflag extproc))
        fatal_if unset (bytes "could not tcsetattr(): %m")
        pure (set_bit lflag extproc))
    ]

  -- From the choice of the name on; `name_arg` is the text of the argument, if it is not NULL.
  unfoldable pub name_port : Ptr → ℕ → ℕ → ℕ → Text → Option Text → Prog X Ptr
  unfolding alloc store vserial_manage_symlink
  name_port vserial master slave lflag slave_path name_arg = do
    let name = get_or name_arg slave_path
    fatal_if (not (ltb (length name) path_max)) (bytes "length of name(%d) >= PATH_MAX(%d)\n")
    fatal_if (not (ltb (length slave_path) path_max))
        (bytes "length of slave_path(%d) >= PATH_MAX(%d)\n")
    name_copy ← alloc (struct_text (take path_max name))
    path_copy ← alloc (struct_text (take path_max slave_path))
    store vserial (
        struct_vserial (record {
          name = name_copy;
          pty_master = record { path = null; fd = master; terminfo = lflag };
          pty_slave = record { path = path_copy; fd = slave; terminfo = 0 };
        }))
    elim name_arg [ none ↦ skip | some n ↦ vserial_manage_symlink n (take path_max slave_path) ]
    pure vserial

  unfoldable pub vserial_create : Ptr → Prog X Ptr
  unfolding alloc load setup_master name_port
  vserial_create name_arg = do
    vserial ←
        alloc
          (struct_vserial (record { name = null; pty_master = empty_pty; pty_slave = empty_pty }))
    opened ← call os.openpty
    elim opened [
      | none ↦ halt (fatal (bytes "could not openpty(): %m"))
      | some (master, slave, slave_path) ↦ (do
        lflag ← setup_master master
        if name_arg == null then name_port vserial master slave lflag slave_path none else (do
          arg ← load as_text name_arg
          name_port vserial master slave lflag slave_path (some arg)))
    ]

module _ {X : Type 0} where
  unfoldable pub vserial_destroy : Ptr → Prog X (Unit {0})
  unfolding load free
  vserial_destroy vserial = do
    v ← load as_vserial vserial
    free v.name
    free v.pty_slave.path
    free vserial
