-- ===== src/Vserial/Port/Create.antt =====
-- src/drivers/vserial.c: `vserial_create` with a name, whatever the calls outside return.
use righack.Base.{
  ◌≢◌, ◌==◌, bytes, ℕ, ◌≡◌, refl, ◌⊎◌, inl, inr, true, false, some, Text, Bool-cases, Option-cases,
  ◌∙◌, ap, arith, set_bit, text_eq,
}
use righack.External.{Os, Lstat, lstat_enoent, lstat_failed, lstat_mode}
use righack.Machine.{World, ok, and_then, pure}
use righack.Machine.Ends.{Dies, IsOutside, outside_cases, Dies-and_then}
use righack.Machine.Access.{IsHeap, held_ne_null, held_lt_next, load_held}
use righack.Machine.Objects.{Ptr, null, struct_text, as_text}
use righack.Vserial.Port.{
  name_port, alloc, path_max, o_nonblock, extproc, util_set_nonblock, setup_master, mode_has_lnk,
  create_symlink, check_target, vserial_manage_symlink, vserial_create,
}
use righack.Vserial.Port.Named.{fits, IsCreated, opened, named_lem, name_too_long}
use righack.Machine.Memory.{alloc}

-- The calls that open a port with this name succeed, whatever the state outside, and the name and the
-- slave's path fit. At the place of the symlink there is never anything but a symlink, which can be
-- read and removed and is gone then, and a symlink can be made where there is nothing.
pub record Succeeds {X : Type 0} (os : Os X) (name : Text) : Type 0 where
  pub opens :
      (x : X)
      → (master slave : ℕ) × (slave_path : Text) × (y : X) × (os.openpty x
          ≡ (some (master, slave, slave_path), y))
        × (fits master slave slave_path name ≡ true)
  pub gets_flags : (x : X) (fd : ℕ) → (f : ℕ) × (os.fcntl_getfl x fd ≡ some f)
  pub sets_flags : (fd f : ℕ) (x : X) → (os.fcntl_setfl fd f x).0 ≡ false
  pub sets_packet : (fd : ℕ) (x : X) → (os.ioctl_tiocpkt fd x).0 ≡ false
  pub gets_attr : (x : X) (fd : ℕ) → (f : ℕ) × (os.tcgetattr x fd ≡ some f)
  pub sets_attr : (fd f : ℕ) (x : X) → (os.tcsetattr fd f x).0 ≡ false
  pub looks : (x : X) → os.lstat x name ≢ lstat_failed
  pub is_link : (x : X) (mode : ℕ) → os.lstat x name ≡ lstat_mode mode → mode_has_lnk mode ≡ true
  pub reads_link :
      (x : X) (mode : ℕ)
      → os.lstat x name ≡ lstat_mode mode
      → (l : Text) × (os.readlink x name path_max ≡ some l)
  pub unlinks :
      (x : X) (mode : ℕ) → os.lstat x name ≡ lstat_mode mode → (os.unlink name x).0 ≡ false
  pub is_gone :
      (x : X) → (os.unlink name x).0 ≡ false → os.lstat (os.unlink name x).1 name ≡ lstat_enoent
  pub links :
      (source : Text) (x : X)
      → os.lstat x name ≡ lstat_enoent
      → (os.symlink source name x).0 ≡ false

module _ {X : Type 0} ⦃os : Os X⦄ (name : Text) where
  setup-IsOutside :
      (master : ℕ) (w : World X) → IsOutside (Succeeds os name) w (setup_master master w)
  unfolding setup_master util_set_nonblock
  setup-IsOutside master w = elim (Option-cases (os.fcntl_getfl w.ext master)) [
    | inl none_ ↦
        rw none_ (_, refl, λ s. let (f, e) = s.gets_flags w.ext master in ground (arith, e, none_))
    | inr (f, flags) ↦
        let x1 : X = (os.fcntl_setfl master (set_bit f o_nonblock) w.ext).1 in
        let x2 : X = (os.ioctl_tiocpkt master x1).1 in
        elim (Bool-cases (os.fcntl_setfl master (set_bit f o_nonblock) w.ext).0) [
          | inl failed ↦
              rw (flags, failed)
                (
                  _,
                  refl,
                  λ s. ground (arith, failed, s.sets_flags master (set_bit f o_nonblock) w.ext),
                )
          | inr set ↦ elim (Bool-cases (os.ioctl_tiocpkt master x1).0) [
            | inl failed ↦
                rw (flags, set, failed)
                  (_, refl, λ s. ground (arith, failed, s.sets_packet master x1))
            | inr packet ↦ elim (Option-cases (os.tcgetattr x2 master)) [
              | inl none_ ↦
                  rw (flags, set, packet, none_)
                    (_, refl, λ s. let (a, e) = s.gets_attr x2 master in ground (arith, e, none_))
              | inr (a, attr) ↦ elim (Bool-cases (os.tcsetattr master (set_bit a extproc) x2).0) [
                | inl failed ↦
                    rw (flags, set, packet, attr, failed)
                      (
                        _,
                        refl,
                        λ s. ground (arith, failed, s.sets_attr master (set_bit a extproc) x2),
                      )
                | inr unset ↦ rw (flags, set, packet, attr, unset) (_, refl)
              ]
            ]
          ]
        ]
  ]

  create-IsOutside :
      (source : Text) (w : World X)
      → (Succeeds os name → os.lstat w.ext name ≡ lstat_enoent)
      → IsOutside (Succeeds os name) w (create_symlink name source w)
  unfolding create_symlink
  create-IsOutside source w free = elim (Bool-cases (os.symlink source name w.ext).0) [
    | inl failed ↦ rw failed (_, refl, λ s. ground (arith, failed, s.links source w.ext (free s)))
    | inr made ↦ rw made (_, refl)
  ]

  symlink-IsOutside :
      (source : Text) (w : World X)
      → IsOutside (Succeeds os name) w (vserial_manage_symlink name source w)
  unfolding vserial_manage_symlink check_target
  symlink-IsOutside source w = go (os.lstat w.ext name) refl
    where
      go :
          (l : Lstat)
          → os.lstat w.ext name ≡ l
          → IsOutside (Succeeds os name) w (vserial_manage_symlink name source w)
      go lstat_enoent e = rw e (create-IsOutside source w (λ s. e))
      go lstat_failed e = rw e (_, refl, λ s. s.looks w.ext e)
      go (lstat_mode mode) e = elim (Bool-cases (mode_has_lnk mode)) [
        | inr t ↦ rw (e, t) (_, refl, λ s. ground (arith, t, s.is_link w.ext mode e))
        | inl t ↦ elim (Option-cases (os.readlink w.ext name path_max)) [
          | inl none_ ↦
              rw (e, t, none_)
                (
                  _,
                  refl,
                  λ s. let (l, reads) = s.reads_link w.ext mode e in ground (arith, reads, none_),
                )
          | inr (l, links) ↦ elim (Bool-cases (text_eq source l)) [
            | inl same ↦ rw (e, t, links, same) (_, refl)
            | inr other ↦ elim (Bool-cases (os.unlink name w.ext).0) [
              | inl failed ↦
                  rw (e, t, links, other, failed)
                    (_, refl, λ s. ground (arith, failed, s.unlinks w.ext mode e))
              | inr gone ↦
                  rw (e, t, links, other, gone)
                    (create-IsOutside source (record w { ext = (os.unlink name w.ext).1 })
                      (λ s. s.is_gone w.ext gone))
            ]
          ]
        ]
      ]

module _ {X : Type 0} ⦃os : Os X⦄ where
  -- What a call returns with: the descriptors and the path are those of `openpty`.
  pub record IsMade (w w' : World X) (name : Text) : Type 0 where
    pub master : ℕ
    pub slave : ℕ
    pub slave_path : Text
    pub lflag : ℕ
    pub opens : (os.openpty w.ext).0 ≡ some (master, slave, slave_path)
    pub fit : fits master slave slave_path name ≡ true
    pub created : IsCreated master slave slave_path w w' name lflag

  -- With a name, `vserial_create` either returns a new port that holds the descriptors of
  -- `openpty`, and the name and the slave's path uncut, each of which fits with its NUL into PATH_MAX
  -- bytes, while all blocks that were there stay; or the process ends by `util_fatal`. It returns if
  -- the calls outside always succeed, with a path that fits, the name fits, and there is never
  -- anything but a symlink at the place of the symlink, which can then be replaced.
  pub vserial_create-IsMade :
      (w : World X) (arg : Ptr) (name : Text)
      → IsHeap w.cell w.next
      → w.cell arg ≡ some (struct_text name)
      → ((w' : World X) × (vserial_create arg w ≡ ok w.next w') × IsMade w w' name)
        ⊎ Dies (Succeeds os name) (vserial_create arg w)
  unfolding vserial_create alloc
  vserial_create-IsMade w arg name hp held = elim (Option-cases (os.openpty w.ext).0) [
    | inl none_ ↦ inr (
      bytes "could not openpty(): %m",
      opened w (os.openpty w.ext).1,
      rw none_ refl,
      λ s. let (_, _, _, y, e, _) = s.opens w.ext in ground (arith, e, none_),
    )
    | inr ((master, slave, slave_path), pty) ↦
        let y : X = (os.openpty w.ext).1 in
        let live : (arg == null) ≡ false = ground (arith, held_ne_null w arg _ held hp) in
        elim (outside_cases (Succeeds os name) (opened w y) _
          (setup-IsOutside name master (opened w y))) [
            | inr (m, v, ready, why) ↦ inr (m, v, rw (pty, ready) refl, why)
            | inl (lflag, y', ready) ↦
                let held' : (opened w y').cell arg ≡ some (struct_text name) =
                  ground (arith, held_lt_next w arg _ held hp) in
                let named : vserial_create arg w
                    ≡ name_port w.next master slave lflag slave_path (some name) (opened w y') =
                  rw (pty, ready, live, load_held (opened w y') arg _ held' as_text name refl)
                    refl in
                elim (Bool-cases (fits master slave slave_path name)) [
                  | inr unfit ↦
                      let (m, long) = name_too_long master slave slave_path w y' name lflag unfit in
                      inr (
                        m,
                        opened w y',
                        named ∙ long,
                        λ s.
                            let (master2, slave2, path2, y2, e, fit2) = s.opens w.ext in
                            let same : slave_path ≡ path2 = ground (arith, pty, e) in
                            ground (arith, unfit, fit2, same),
                      )
                  | inl fit ↦
                      let (v, rest, created) =
                        named_lem master slave slave_path w y' name lflag hp fit in
                      elim (outside_cases (Succeeds os name) v _
                        (symlink-IsOutside name slave_path v)) [
                          | inr dies ↦
                              inr (Dies-and_then (λ _. pure w.next) (λ s. s) (named ∙ rest) dies)
                          | inl (_, z, linked) ↦ inl (
                            record v { ext = z },
                            named ∙ rest ∙ ap (λ o. and_then o (λ _. pure w.next)) linked,
                            record {
                              master = master;
                              slave = slave;
                              slave_path = slave_path;
                              lflag = lflag;
                              opens = pty;
                              fit = fit;
                              created = created z;
                            },
                          )
                        ]
                ]
          ]
  ]
