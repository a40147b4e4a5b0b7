-- ===== src/Progman/Elf/Accepted.antt =====
-- Which binaries `load_driver_bin` loads, and what else it answers.
use wolf_os.Base.{ℕ, ◌+◌, ◌%◌, ◌^◌, ◌≡◌, ◌≢◌, ◌⊎◌}
use wolf_os.Base.Machine.{Memory, read16, read32}
use wolf_os.Progman.Elf.Symbols.{KernelFunction}
use wolf_os.Progman.Elf.Load.{
  Passport, Reason, LoadResult, refused, relocations_failed, insufficient_memory, passport_at_null,
  loaded, sizeof_passport,
}

-- A 32-bit little-endian binary for the 386.
abbrev pub IsElf386 : Memory → (binary : ℕ) → Type 0
IsElf386 m p =
    (m p ≡ 0x7f)
    × (m (p + 1) ≡ 0x45)
    × (m (p + 2) ≡ 0x4c)
    × (m (p + 3) ≡ 0x46)
    × (m (p + 4) ≡ 1)
    × (m (p + 5) ≡ 1)
    × (m (p + 6) ≡ 1)
    × (read16 m (p + 18) ≡ 3)
    × (read32 m (p + 20) ≡ 1)

-- The load at an address, and the passport that it gives.
abbrev pub LoadsAt : LoadResult → (loadloc : ℕ) → Type 0
LoadsAt answer loadloc =
    (p : Passport) × (image : Memory) × (answer ≡ loaded p image) × (p.loaded_location ≡ loadloc)

-- The relocations fail, or the passport is at 0 if its allocation is, or the load succeeds.
abbrev pub Finishes : LoadResult → (loadloc passport : ℕ) → Type 0
Finishes answer loadloc passport =
    (answer ≡ refused relocations_failed)
    ⊎ ((passport ≡ 0)
        × (image : Memory) × (answer ≡ passport_at_null image)
        × (read32 image 0 ≡ loadloc % 2 ^ 32))
    ⊎ ((passport ≢ 0) × LoadsAt answer loadloc)

abbrev pub Refuses : LoadResult → Type 0
Refuses answer = (reason : Reason) × (answer ≡ refused reason)

module _ (address_of : KernelFunction → ℕ) (kmalloc : (nbytes : ℕ) → ℕ) where
  -- What the code does with a binary at the address that the allocator gives.
  abbrev pub Places : LoadResult → (loadloc : ℕ) → Type 0
  Places answer loadloc =
      ((loadloc ≡ 0) × (answer ≡ refused insufficient_memory))
      ⊎ ((loadloc ≢ 0) × Finishes answer loadloc (kmalloc sizeof_passport))
