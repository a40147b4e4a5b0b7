-- ===== src/Drivers/Model/Binding.antt =====
-- The loop of `device_from_pci` that offers a device to the drivers: when it ends, and when it does not.
use wolf_os.Base.{
  ℕ, zero, suc, ◌+◌, ◌*◌, ◌^◌, ◌<◌, ◌≡◌, ◌≢◌, refl, subst, ◌⊎◌, inl, inr, false, List, [], ◌∷◌,
  ◌++◌, Option, none, some, ◌==◌, Bool-cases, arith,
}
use wolf_os.Drivers.Model.{DeviceDriver, find_driver}
use wolf_os.Drivers.Model.Finding.{All, Exact, Finds, find_driver-Finds}
use wolf_os.Drivers.Model.Devices.{Hardware, Outcome, done, going_on, try_bind, bind_loop}

All-middle :
    {A : Type 0} (P : A → Type 0) (before after : List A) (x : A)
    → All P (before ++ x ∷ after)
    → P x
All-middle P [] after x (p, rest) = p
All-middle P (y ∷ ys) after x (q, rest) = All-middle P ys after x rest

module _ {World : Type 0} (hardware : Hardware World) (drivers : List DeviceDriver) where
  abbrev Bind : Type 0
  Bind = (bus device func : ℕ) → World → ℕ × World

  -- The driver has a function to offer a device to.
  abbrev pub CanBind : DeviceDriver → Type 0
  CanBind d = (bind : Bind) × (hardware.bind_device_pci d ≡ some bind)

  module _ (class subclass vid pid bus device func : ℕ) where
    abbrev loop : (rounds : ℕ) → Option DeviceDriver → World → Outcome (Option DeviceDriver × World)
    loop = bind_loop hardware drivers class subclass vid pid bus device func

    abbrev found_under : (max : ℕ) → Option DeviceDriver
    found_under max = find_driver drivers class subclass vid pid max

    -- How the loop ends: without a driver, or with one that took the device when it was offered to it
    -- or that has the priority 0.
    abbrev pub Assigned : Option DeviceDriver → World → Type 0
    Assigned none w = Unit {0}
    Assigned (some d) w =
        (bind : Bind) × (before : World) × (hardware.bind_device_pci d ≡ some bind)
        × ((bind bus device func before).1 ≡ w)
        × (((bind bus device func before).0 ≡ 0) ⊎ (d.driver_class_priority ≡ 0))

    abbrev pub Settles : Outcome (Option DeviceDriver × World) → Type 0
    Settles outcome =
        (assigned : Option DeviceDriver) × (w : World) × (outcome ≡ done (assigned, w))
        × Assigned assigned w

    try_bind-Settles :
        (d : DeviceDriver) (same next : World → Outcome (Option DeviceDriver × World)) (w : World)
        → CanBind d
        → ((w' : World) → d.driver_class_priority ≢ 0 → Settles (next w'))
        → Settles (
            try_bind hardware drivers class subclass vid pid bus device func d
              (hardware.bind_device_pci d)
              same
              next
              w)
    unfolding try_bind
    try_bind-Settles d same next w (bind, has) later =
        let result = bind bus device func w in
        elim (Bool-cases (result.0 == 0)) [
          | inl e ↦
              let zero_result : result.0 ≡ 0 = ground arith in
              rw (has, e) (some d, result.1, refl, (bind, w, has, refl, inl zero_result))
          | inr e ↦ elim (Bool-cases (d.driver_class_priority == 0)) [
            | inl p ↦
                let zero_priority : d.driver_class_priority ≡ 0 = ground arith in
                rw (has, e, p) (some d, result.1, refl, (bind, w, has, refl, inr zero_priority))
            | inr p ↦ rw (has, e, p) (later (result.1) (ground arith))
          ]
        ]

    -- A driver that is found and does not name the device stands in the list and has a priority under
    -- the limit.
    pub found-below :
        (P : DeviceDriver → Type 0) (vidpid classdata max : ℕ) (d : DeviceDriver)
        → Finds classdata vidpid max drivers (some d)
        → All (λ e. ¬ Exact vidpid e) drivers
        → All P drivers
        → P d × (d.driver_class_priority < max)
    found-below P vidpid classdata max d (inl (before, after, split, exact, _)) no_exact all =
        absurd (
          All-middle (λ e. ¬ Exact vidpid e) before after d
            (subst (λ l. All (λ e. ¬ Exact vidpid e) l) split no_exact) exact)
    found-below P vidpid classdata max d (inr (_, (before, after, split, eligible, _, _))) no_exact
          all =
        (All-middle P before after d (subst (λ l. All P l) split all), eligible.1)

    module _ (no_exact : All (λ e. ¬ Exact (vid * 2 ^ 16 + pid) e) drivers) where
      round-Settles :
          (n max : ℕ) (w : World) (found : Option DeviceDriver)
          → All CanBind drivers
          → Finds (class * 256 + subclass) (vid * 2 ^ 16 + pid) max drivers found
          → ((p : ℕ) (w' : World) → p < max → Settles (loop n (found_under p) w'))
          → Settles (loop (suc n) found w)
      unfolding bind_loop
      round-Settles n max w none can finds later = (none, w, refl, tt)
      round-Settles n max w (some d) can finds later =
          let (bind, below) =
            found-below CanBind (vid * 2 ^ 16 + pid) (class * 256 + subclass) max d finds no_exact
              can in
          try_bind-Settles d (loop n (some d)) (loop n (found_under d.driver_class_priority)) w bind
            (λ w' nonzero. later d.driver_class_priority w' below)

      -- If every driver has a function to bind, and no driver names the device by vendor and product,
      -- the loop ends: `max` rounds and one more are enough to choose among the drivers of a priority
      -- under `max`. It ends without a driver, or with one that took the device or has the priority 0.
      pub bind_loop-Settles :
          class < 256
          → subclass < 256
          → vid < 2 ^ 16
          → pid < 2 ^ 16
          → All CanBind drivers
          → (rounds max : ℕ) (w : World) → max < rounds
          → Settles (loop rounds (found_under max) w)
      bind_loop-Settles hc hs hv hp can zero max w lt = absurd (omega arith)
      bind_loop-Settles hc hs hv hp can (suc n) max w lt =
          round-Settles n max w (found_under max) can
            (find_driver-Finds drivers class subclass vid pid max hc hs hv hp)
            (λ p w' below. bind_loop-Settles hc hs hv hp can n p w' (omega arith))

    -- A driver that has no function to bind, or that `find_driver` gives again under its own priority,
    -- not 0, and that never takes the device, keeps the loop going for ever.
    pub bind_loop-stuck :
        (d : DeviceDriver)
        → (hardware.bind_device_pci d ≡ none)
          ⊎ ((bind : Bind) × (hardware.bind_device_pci d ≡ some bind)
              × (d.driver_class_priority ≢ 0)
              × (found_under d.driver_class_priority ≡ some d)
              × ((w : World) → (bind bus device func w).0 ≢ 0))
        → (rounds : ℕ) (w : World) → loop rounds (some d) w ≡ going_on
    unfolding bind_loop try_bind
    bind_loop-stuck d keeps zero w = refl
    bind_loop-stuck d (inl lacks) (suc n) w = rw lacks (bind_loop-stuck d (inl lacks) n w)
    bind_loop-stuck d (inr (bind, has, nonzero, again, refuses)) (suc n) w =
        let result = bind bus device func w in
        let refused : (result.0 == 0) ≡ false = ground (arith, refuses w) in
        let some_priority : (d.driver_class_priority == 0) ≡ false = ground (arith, nonzero) in
        rw (has, refused, some_priority, again)
          (bind_loop-stuck d (inr (bind, has, nonzero, again, refuses)) n (result.1))
