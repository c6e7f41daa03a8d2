-- ===== src/Driver/Registry.antt =====
-- src/driver.c: what the loop of `driver_get_info`, which never advances, makes of the registry.
use righack.Base.{
  ◌+◌, ℕ, zero, suc, ◌≡◌, refl, ◌≢◌, sym, ap, ◌∙◌, inl, inr, true, Option, none, some, List, [],
  ◌∷◌, Text, bytes, text_eq, text_eq_iff, text_ne, Bool-cases, if◌then◌else◌,
}
use mathlib.Core.Path.{subst}
use righack.Driver.{find_driver, driver_get_info, driver_register}
use righack.Machine.{World, Outcome, ok, stop, fatal, out_of_fuel, and_then, halt, modify}
use righack.Machine.Objects.{struct_driver_list, DriverInfo}
use righack.Machine.Memory.{write}

module _ {X : Type 0} where
  find_hangs :
      (fuel : ℕ) (name : Text) (d : DriverInfo) (ds : List DriverInfo) (w : World X)
      → d.name ≢ name
      → find_driver name fuel (d ∷ ds) w ≡ stop out_of_fuel w
  unfolding find_driver
  find_hangs zero name d ds w ne = refl
  find_hangs (suc fuel) name d ds w ne =
      rw (text_ne d.name name ne) (find_hangs fuel name d ds w ne)

  -- A lookup of any name but that of the driver that was registered last runs out of every amount
  -- of fuel: the loop does not end, also where the name is registered further down.
  pub driver_get_info-hangs :
      (fuel : ℕ) (name : Text) (d : DriverInfo) (ds : List DriverInfo) (w : World X)
      → w.loaded_drivers ≡ d ∷ ds
      → d.name ≢ name
      → driver_get_info fuel name w ≡ stop out_of_fuel w
  unfolding driver_get_info
  driver_get_info-hangs fuel name d ds w e ne =
      subst (λ l. find_driver name fuel l w ≡ stop out_of_fuel w) (sym e)
        (find_hangs fuel name d ds w ne)

  -- The newest driver is found in one round, and an empty registry holds nothing.
  pub driver_get_info-first :
      (fuel : ℕ) (d : DriverInfo) (ds : List DriverInfo) (w : World X)
      → w.loaded_drivers ≡ d ∷ ds
      → driver_get_info (suc fuel) d.name w ≡ ok (some d) w
  unfolding driver_get_info find_driver
  driver_get_info-first fuel d ds w e =
      subst (λ l. find_driver d.name (suc fuel) l w ≡ ok (some d) w) (sym e)
        (rw ((text_eq_iff d.name d.name).1 refl))

  find_same :
      (fuel : ℕ) (name : Text) (d : DriverInfo) (ds : List DriverInfo) (w : World X)
      → text_eq d.name name ≡ true
      → find_driver name (suc fuel) (d ∷ ds) w ≡ ok (some d) w
  unfolding find_driver
  find_same fuel name d ds w e = rw e

  find_empty : (fuel : ℕ) (name : Text) (w : World X) → find_driver name (suc fuel) [] w ≡ ok none w
  unfolding find_driver
  find_empty fuel name w = refl

  -- The state with the block of the new node, which is allocated before the search for a duplicate.
  abbrev pub with_node : World X → DriverInfo → World X
  with_node w info = record w {
    cell = write w.cell w.next (some (struct_driver_list info));
    next = w.next + 1;
  }

  register_found :
      (fuel : ℕ) (info : DriverInfo) (w : World X) {o : Outcome X (Option DriverInfo)}
      → find_driver info.name fuel w.loaded_drivers (with_node w info) ≡ o
      → driver_register fuel info w
        ≡ and_then o (λ known. elim known [
          | some _ ↦ halt (fatal (bytes "attempt to double register driver with name '%s'"))
          | none ↦ modify (λ v. record v { loaded_drivers = info ∷ v.loaded_drivers })
        ])
  unfolding driver_register
  register_found fuel info w e = rw e

  -- Registering in an empty registry puts the driver there.
  pub driver_register-empty :
      (fuel : ℕ) (info : DriverInfo) (w : World X)
      → w.loaded_drivers ≡ []
      → driver_register (suc fuel) info w
        ≡ ok tt (record (with_node w info) { loaded_drivers = info ∷ [] })
  driver_register-empty fuel info w e =
      let v = with_node w info in
      register_found (suc fuel) info w (
        subst (λ l. find_driver info.name (suc fuel) l v ≡ ok none v) (sym e)
          (find_empty fuel info.name v))
      ∙ ap (λ l. ok tt (record v { loaded_drivers = info ∷ l })) e

  -- In a registry that holds a driver no further one is ever registered: once the block of a node is
  -- allocated, the same name ends the process, and with any other name the search for a duplicate
  -- does not end.
  pub driver_register-second :
      (fuel : ℕ) (info d : DriverInfo) (ds : List DriverInfo) (w : World X)
      → w.loaded_drivers ≡ d ∷ ds
      → driver_register (suc fuel) info w
        ≡ stop
            (if text_eq d.name info.name
              then fatal (bytes "attempt to double register driver with name '%s'")
              else out_of_fuel)
            (with_node w info)
  driver_register-second fuel info d ds w e = elim (Bool-cases (text_eq d.name info.name)) [
    | inl same ↦ rw same (
        register_found (suc fuel) info w (
          subst
            (λ l.
              find_driver info.name (suc fuel) l (with_node w info)
              ≡ ok (some d) (with_node w info))
            (sym e) (find_same fuel info.name d ds (with_node w info) same)))
    | inr other ↦ rw other (
        register_found (suc fuel) info w (
          subst
            (λ l.
              find_driver info.name (suc fuel) l (with_node w info)
              ≡ stop out_of_fuel (with_node w info))
            (sym e)
            (find_hangs (suc fuel) info.name d ds (with_node w info)
              (λ q. cc ((text_eq_iff _ _).1 q)))))
  ]
