-- ===== src/Drivers/Model/Ids.antt =====
-- The list of drivers that `register_driver` keeps.
use wolf_os.Base.{
  ℕ, suc, ◌+◌, ◌^◌, ◌<◌, ◌≡◌, refl, ◌⊎◌, inl, inr, List, [], ◌∷◌, Option, none, some, ◌==◌,
  Bool-cases, arith,
}
use wolf_os.Progman.Elf.Symbols.{KernelFunction}
use wolf_os.Progman.Elf.Load.{
  Passport, LoadResult, refused, passport_at_null, loaded, load_driver_bin, get_elf_symbol,
}
use wolf_os.Drivers.Model.{DeviceDriver}
use wolf_os.Drivers.Model.Register.{
  Registry, Machine, describe_driver, enter_driver, register_driver_i, register_loaded,
  register_driver, text_init, sizeof_device_driver,
}

-- The drivers have the numbers from n - 1 down to 0, so no two have the same.
abbrev pub Numbered : List DeviceDriver → (n : ℕ) → Type 0
Numbered [] n = n ≡ 0
Numbered (d ∷ ds) n = (n ≡ suc d.driver_id) × Numbered ds d.driver_id

module _ {World : Type 0} (machine : Machine World) where
  -- Either no driver is added and the registry is as before, or the driver is the new first.
  abbrev pub Keeps : Registry → Option DeviceDriver × Registry × World → Type 0
  Keeps r out =
      Numbered out.1.driver_tree out.1.drivers_loaded_total
      × (((out.0 ≡ none) × (out.1 ≡ r))
          ⊎ ((d : DeviceDriver) × (out.0 ≡ some d) × (out.1.driver_tree ≡ d ∷ r.driver_tree)))

  module _ (r : Registry) (numbered : Numbered r.driver_tree r.drivers_loaded_total) where
    module _ (room : r.drivers_loaded_total + 1 < 2 ^ 32) where
      enter_driver-Keeps :
          (p : Passport) (f : ℕ) (w : World) → Keeps r (enter_driver machine p f r w)
      unfolding enter_driver describe_driver
      enter_driver-Keeps p f w = ((ground arith, numbered), inr (_, refl, refl))

      register_driver_i-Keeps :
          (p : Passport) (w : World) → Keeps r (register_driver_i machine p r w)
      unfolding register_driver_i
      register_driver_i-Keeps p w =
          let f = get_elf_symbol (machine.memory w) (some p) text_init in
          let struct = machine.kmalloc sizeof_device_driver w in
          elim (Bool-cases (f == 0)) [
            | inl e ↦ rw e (numbered, inl (refl, refl))
            | inr e ↦ elim (Bool-cases (struct.0 == 0)) [
              | inl z ↦ rw (e, z) (numbered, inl (refl, refl))
              | inr z ↦ rw (e, z) (enter_driver-Keeps p f (struct.1))
            ]
          ]

      register_loaded-Keeps :
          (answer : LoadResult) (w : World) → Keeps r (register_loaded machine answer r w)
      unfolding register_loaded
      register_loaded-Keeps (refused reason) w = (numbered, inl (refl, refl))
      register_loaded-Keeps (passport_at_null image) w = (numbered, inl (refl, refl))
      register_loaded-Keeps (loaded p image) w =
          register_driver_i-Keeps p (machine.write_image image w)

      -- If the drivers are numbered from 0 in the order of their registration, they still are after
      -- `register_driver`, which adds one driver in front or, if it fails, changes nothing, as long as
      -- the count of drivers does not wrap around.
      pub register_driver-Keeps :
          (address_of : KernelFunction → ℕ) (elf_kmalloc : (nbytes : ℕ) → ℕ)
          (kamalloc : (nbytes align : ℕ) → ℕ) (bin_driver : ℕ)
          → (w : World)
          → Keeps r (register_driver machine address_of elf_kmalloc kamalloc bin_driver r w)
      unfolding register_driver
      register_driver-Keeps address_of elf_kmalloc kamalloc bin_driver w =
          register_loaded-Keeps
            (load_driver_bin address_of elf_kmalloc kamalloc (machine.memory w) bin_driver) w
