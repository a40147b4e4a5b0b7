-- ===== src/Drivers/Ide/Count.antt =====
-- The devices that `init_internal` of the IDE driver finds.
use wolf_os.Base.{
  ℕ, zero, suc, ◌+◌, ◌*◌, ◌≤◌, ◌<◌, ◌≡◌, Bool, Option, some, ◌==◌, ltb, if◌then◌else◌,
}
use wolf_os.Drivers.Ide.{IdeChannel, Kernel}
use wolf_os.Drivers.Ide.Probe.{IdeDevice, Ide, poll_loop}

-- The drives are tried in this order.
abbrev pub place : IdeDevice → ℕ
place d = 2 * d.channel + d.drive

-- After the first p drives are tried: the entries below the count are devices that exist, in the
-- order of their drives, the others are empty, and there are no more devices than drives tried.
abbrev pub FoundOf : (p : ℕ) (devices : ℕ → IdeDevice) (count : ℕ) → Type 0
FoundOf p devices count =
    (count ≤ p)
    × ((i : ℕ) → i < count → ((devices i).reserved ≡ 1) × (place (devices i) < p))
    × ((i j : ℕ) → i < j → j < count → place (devices i) < place (devices j))
    × ((i : ℕ) → count ≤ i → (devices i).reserved ≡ 0)

module _ {World : Type 0} where
  abbrev pub Found : (p : ℕ) → Ide World → Type 0
  Found p st = FoundOf p st.ide_devices st.count

module _ {World : Type 0} (kernel : Kernel World) (garbage rounds : ℕ) where
  -- Every poll ends within the rounds.
  abbrev pub Answers : Type 0
  Answers =
      (channel : IdeChannel) (w : World)
      → (out : Bool × World) × (poll_loop kernel garbage rounds channel w ≡ some out)

  -- The run ends, after which p drives are tried.
  abbrev pub Ends : (p : ℕ) → Option (Ide World) → Type 0
  Ends p outcome = (st : Ide World) × (outcome ≡ some st) × Found p st

  -- The world after the first n of the seven allocations, and the address of the device i.
  abbrev pub allocated : (n : ℕ) → World → World
  allocated zero w = w
  allocated (suc n) w =
      (kernel.kmalloc (if n == 0 then 2048 else if ltb n 3 then 8 else 64) (allocated n w)).1

  abbrev pub device_address : (i : ℕ) → World → ℕ
  device_address i w = (kernel.kmalloc 64 (allocated (suc (suc (suc i))) w)).0
