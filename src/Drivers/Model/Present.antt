-- ===== src/Drivers/Model/Present.antt =====
-- What `init_devices` has to find: the functions that are present, by the configuration space.
use wolf_os.Base.{
  ℕ, zero, suc, ◌+◌, ◌*◌, ◌^◌, ◌≡◌, Bool, List, [], ◌∷◌, ◌++◌, bit_and, ◌==◌, if◌then◌else◌,
}
use wolf_os.Drivers.Pci.{pci_read_word, pci_read_byte}
use wolf_os.Drivers.Model.{DeviceDriver}
use wolf_os.Drivers.Model.Devices.{Device, Hardware, sizeof_device}
use wolf_os.Drivers.Model.Finding.{All, Exact}
use wolf_os.Drivers.Model.Offering.{Keeps}

-- What a device says of itself.
abbrev pub Identity : Type 0
Identity = ℕ × ℕ × ℕ × ℕ × ℕ

abbrev pub identity : Device → Identity
identity d = (d.vendor_id, d.device_id, d.dev_function, d.device_class, d.device_subclass)

-- Words and bytes of the configuration space, by bus, device, function and offset.
abbrev pub Config : Type 0
Config = (bus device func offset : ℕ) → ℕ

-- The identities in the order of the list, where what is found later stands in front.
module _ (word byte : Config) where
  abbrev pub identity_at : (bus device func : ℕ) → Identity
  identity_at bus device func = (
    word bus device func 0,
    word bus device func 2,
    func,
    byte bus device func 0x0b,
    byte bus device func 0x0a,
  )

  abbrev pub is_absent : (bus device func : ℕ) → Bool
  is_absent bus device func = word bus device func 0 == 0xffff

  abbrev pub present : (bus device func : ℕ) → List Identity
  present bus device func =
      if is_absent bus device func then [] else identity_at bus device func ∷ []

  unfoldable pub present_from : (bus device fn left : ℕ) → List Identity
  present_from bus device fn zero = []
  present_from bus device fn (suc k) = present_from bus device (fn + 1) k ++ present bus device fn

  -- A device of which function 0 is there shows its other functions if bit 7 of the byte at offset
  -- 0x0c is set.
  unfoldable pub present_device : (bus device : ℕ) → List Identity
  present_device bus device =
      if is_absent bus device 0
      then []
      else if bit_and (bit_and (word bus device 0 0x0c) 0xff) 0x80 == 0
      then identity_at bus device 0 ∷ []
      else identity_at bus device 0 ∷ present_from bus device 1 7

  unfoldable pub present_slots : (bus device left : ℕ) → List Identity
  present_slots bus device zero = []
  present_slots bus device (suc k) = present_slots bus (device + 1) k ++ present_device bus device

  unfoldable pub present_buses : (bus left : ℕ) → List Identity
  present_buses bus zero = []
  present_buses bus (suc k) = present_buses (bus + 1) k ++ present_slots bus 0 32

-- As long as `Inv` holds, the configuration space reads as `word` and `byte` say. Every driver has a
-- function to offer a device to, and no driver names a device of the space by vendor and product.
-- Neither a read nor the allocator nor a function of a driver breaks `Inv`.
pub record Steady {World : Type 0} (hardware : Hardware World) (drivers : List DeviceDriver)
    (word byte : Config) (Inv : World → Type 0) : Type 0 where
  pub word_read :
      (bus device func offset : ℕ) (w : World)
      → Inv w
      → ((pci_read_word hardware.ports bus device func offset w).0 ≡ word bus device func offset)
        × Inv ((pci_read_word hardware.ports bus device func offset w).1)
  pub byte_read :
      (bus device func offset : ℕ) (w : World)
      → Inv w
      → ((pci_read_byte hardware.ports bus device func offset w).0 ≡ byte bus device func offset)
        × Inv ((pci_read_byte hardware.ports bus device func offset w).1)
  pub allocates : (w : World) → Inv w → Inv ((hardware.kmalloc sizeof_device w).1)
  pub offers : All (Keeps hardware drivers Inv) drivers
  pub unnamed :
      (bus device func : ℕ)
      → All (λ d. ¬ Exact (word bus device func 0 * 2 ^ 16 + word bus device func 2) d) drivers
