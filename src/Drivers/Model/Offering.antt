-- ===== src/Drivers/Model/Offering.antt =====
-- The loop of `device_from_pci` that offers a device to the drivers keeps what their functions keep.
use wolf_os.Base.{
  ℕ, zero, suc, ◌+◌, ◌*◌, ◌^◌, ◌<◌, ◌≡◌, refl, inl, inr, List, Option, none, some, ◌==◌, Bool-cases,
  arith,
}
use wolf_os.Drivers.Model.{DeviceDriver, find_driver}
use wolf_os.Drivers.Model.Finding.{All, Exact, Finds, find_driver-Finds}
use wolf_os.Drivers.Model.Devices.{Hardware, Outcome, done, try_bind, bind_loop}
use wolf_os.Drivers.Model.Binding.{found-below}

module _ {World : Type 0} (hardware : Hardware World) (drivers : List DeviceDriver)
    (Inv : World → Type 0) where
  abbrev Bind : Type 0
  Bind = (bus device func : ℕ) → World → ℕ × World

  -- The driver has a function to offer a device to, which keeps the invariant.
  abbrev pub Keeps : DeviceDriver → Type 0
  Keeps d =
      (bind : Bind) × (hardware.bind_device_pci d ≡ some bind)
      × ((bus device func : ℕ) (w : World) → Inv w → Inv ((bind bus device func w).1))

  -- The loop ends, and the invariant holds.
  abbrev pub Ends : Outcome (Option DeviceDriver × World) → Type 0
  Ends outcome =
      (assigned : Option DeviceDriver) × (w : World) × (outcome ≡ done (assigned, w)) × Inv w

  module _ (class subclass vid pid bus device func : ℕ) where
    try_bind-Ends :
        (d : DeviceDriver) (same next : World → Outcome (Option DeviceDriver × World)) (w : World)
        → Keeps d
        → Inv w
        → ((w' : World) → Inv w' → Ends (next w'))
        → Ends (
            try_bind hardware drivers class subclass vid pid bus device func d
              (hardware.bind_device_pci d)
              same
              next
              w)
    unfolding try_bind
    try_bind-Ends d same next w (bind, has, keeps) inv later =
        let result = bind bus device func w in
        let inv' = keeps bus device func w inv in
        elim (Bool-cases (result.0 == 0)) [
          | inl e ↦ rw (has, e) (some d, result.1, refl, inv')
          | inr e ↦ elim (Bool-cases (d.driver_class_priority == 0)) [
            | inl p ↦ rw (has, e, p) (some d, result.1, refl, inv')
            | inr p ↦ rw (has, e, p) (later (result.1) inv')
          ]
        ]

    abbrev loop : (rounds : ℕ) → Option DeviceDriver → World → Outcome (Option DeviceDriver × World)
    loop = bind_loop hardware drivers class subclass vid pid bus device func

    module _ (no_exact : All (λ e. ¬ Exact (vid * 2 ^ 16 + pid) e) drivers)
        (all_keep : All Keeps drivers) where
      round-Ends :
          (n max : ℕ) (w : World) (found : Option DeviceDriver)
          → Finds (class * 256 + subclass) (vid * 2 ^ 16 + pid) max drivers found
          → Inv w
          → ((p : ℕ) (w' : World)
              → p < max
              → Inv w'
              → Ends (loop n (find_driver drivers class subclass vid pid p) w'))
          → Ends (loop (suc n) found w)
      unfolding bind_loop
      round-Ends n max w none finds inv later = (none, w, refl, inv)
      round-Ends n max w (some d) finds inv later =
          let (keeps, below) =
            found-below hardware drivers class subclass vid pid bus device func Keeps
              (vid * 2 ^ 16 + pid) (class * 256 + subclass) max d finds no_exact all_keep in
          try_bind-Ends d (loop n (some d))
            (loop n (find_driver drivers class subclass vid pid d.driver_class_priority)) w keeps
            inv (λ w' inv'. later d.driver_class_priority w' below inv')

      pub bind_loop-Ends :
          class < 256
          → subclass < 256
          → vid < 2 ^ 16
          → pid < 2 ^ 16
          → (rounds max : ℕ) (w : World) → max < rounds
          → Inv w
          → Ends (loop rounds (find_driver drivers class subclass vid pid max) w)
      bind_loop-Ends hc hs hv hp zero max w lt inv = absurd (omega arith)
      bind_loop-Ends hc hs hv hp (suc n) max w lt inv =
          round-Ends n max w (find_driver drivers class subclass vid pid max)
            (find_driver-Finds drivers class subclass vid pid max hc hs hv hp) inv
            (λ p w' below inv'. bind_loop-Ends hc hs hv hp n p w' (omega arith) inv')
