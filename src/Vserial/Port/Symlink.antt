-- ===== src/Vserial/Port/Symlink.antt =====
-- src/drivers/vserial.c: what `vserial_manage_symlink` does to the file system.
use righack.Base.{
  ℕ, ◌≡◌, refl, ◌∙◌, ap, sym, inl, inr, false, none, some, Text, bytes, text_eq, text_eq_iff,
  Bool-cases, Option-cases,
}
use righack.External.{Os, Lstat, lstat_enoent, lstat_failed, lstat_mode}
use righack.Machine.{World, Outcome, ok, stop, fatal}
use righack.Vserial.Port.{path_max, mode_has_lnk, create_symlink, vserial_manage_symlink}

module _ {X : Type 0} ⦃os : Os X⦄ where
  -- A target that is there and is no symlink is never touched: the process ends, and the state of
  -- the file system is the one before the call.
  pub vserial_manage_symlink-keeps :
      (target pty_slave : Text) (mode : ℕ) (w : World X)
      → os.lstat w.ext target ≡ lstat_mode mode
      → os.readlink w.ext target path_max ≡ none
      → (m : Text) × (vserial_manage_symlink target pty_slave w ≡ stop (fatal m) w)
  unfolding vserial_manage_symlink
  vserial_manage_symlink-keeps target pty_slave mode w e none_ =
      elim (Bool-cases (mode_has_lnk mode)) [
        | inl t ↦ (bytes "could not get target of %s: %m", rw (e, t, none_))
        | inr t ↦ (bytes "will not overwrite %s with symlink\n", rw (e, t))
      ]

  -- How a call may end: with the target a symlink to the slave, or by `util_fatal`.
  abbrev pub LinksOrDies : Text → Text → Outcome X (Unit {0}) → Type 0
  LinksOrDies target pty_slave (ok _ w) = os.readlink w.ext target path_max ≡ some pty_slave
  LinksOrDies target pty_slave (stop s w) = (m : Text) × (s ≡ fatal m)

  module _
      (symlink_law : (source target : Text) (x : X)
        → (os.symlink source target x).0 ≡ false
        → os.readlink (os.symlink source target x).1 target path_max ≡ some source) where
    create_links :
        (target pty_slave : Text) (w : World X)
        → LinksOrDies target pty_slave (create_symlink target pty_slave w)
    unfolding create_symlink
    create_links target pty_slave w = elim (Bool-cases (os.symlink pty_slave target w.ext).0) [
      | inl failed ↦ rw failed (_, refl)
      | inr made ↦ rw made (symlink_law pty_slave target w.ext made)
    ]

    -- Where the call returns, the target is a symlink to the slave: a new one, the one that was
    -- there, or one in the place of another.
    pub vserial_manage_symlink-links :
        (target pty_slave : Text) (w : World X)
        → LinksOrDies target pty_slave (vserial_manage_symlink target pty_slave w)
    unfolding vserial_manage_symlink
    vserial_manage_symlink-links target pty_slave w = go (os.lstat w.ext target) refl
      where
        go :
            (l : Lstat)
            → os.lstat w.ext target ≡ l
            → LinksOrDies target pty_slave (vserial_manage_symlink target pty_slave w)
        go lstat_enoent e = rw e (create_links target pty_slave w)
        go lstat_failed e = rw e (_, refl)
        go (lstat_mode mode) e = elim (Bool-cases (mode_has_lnk mode)) [
          | inr t ↦ rw (e, t) (_, refl)
          | inl t ↦ elim (Option-cases (os.readlink w.ext target path_max)) [
            | inl none_ ↦ rw (e, t, none_) (_, refl)
            | inr (l, links) ↦ elim (Bool-cases (text_eq pty_slave l)) [
              | inl same ↦ rw (e, t, links, same) (links ∙ ap some (sym ((text_eq_iff _ _).0 same)))
              | inr other ↦ elim (Bool-cases (os.unlink target w.ext).0) [
                | inl failed ↦ rw (e, t, links, other, failed) (_, refl)
                | inr gone ↦
                    rw (e, t, links, other, gone)
                      (create_links target pty_slave
                        (record w { ext = (os.unlink target w.ext).1 }))
              ]
            ]
          ]
        ]
