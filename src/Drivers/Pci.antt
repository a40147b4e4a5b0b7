-- ===== src/Drivers/Pci.antt =====
-- drivers/pci.c; Names and Subclasses hold drivers/pci_names.c. The ports are a parameter: `Bus` is the
-- state of what is behind them.
pub mod Access
pub mod Subclasses
pub mod Names
pub mod Tests
use wolf_os.Base.{ℕ, ◌*◌, ◌^◌, bit_and, bit_or, ◌==◌, if◌then◌else◌}
use wolf_os.Base.Words.{u8, u16, u32, ◌<<◌, ◌>>◌}

-- `inl` and `outl` of util/earlyutil.c, one instruction each.
pub record Ports (Bus : Type 0) : Type 0 where
  pub inl : (port : ℕ) → Bus → ℕ × Bus
  pub outl : (port data_out : ℕ) → Bus → Bus

-- The bit operations of C group to the left.
unfoldable pub pci_cfg_addr : (bus slot func offset : ℕ) → ℕ
pci_cfg_addr bus slot func offset =
    bit_or
      (bit_or (bit_or (bit_or (1 << 31) (u32 (bus << 16))) (u32 (slot << 11))) (u32 (func << 8)))
      (bit_and offset 0xfc)

module _ {Bus : Type 0} (ports : Ports Bus) where
  open ports use {inl, outl}

  unfoldable pub pci_read_dword : (bus slot func offset : ℕ) → Bus → ℕ × Bus
  pci_read_dword bus slot func offset b =
      inl 0xcfc (outl 0xcf8 (pci_cfg_addr bus slot func offset) b)

  unfoldable pub pci_read_word : (bus slot func offset : ℕ) → Bus → ℕ × Bus
  pci_read_word bus slot func offset b =
      let (val, b') = inl 0xcfc (outl 0xcf8 (pci_cfg_addr bus slot func offset) b) in
      let shift : ℕ = if bit_and offset 2 == 0 then 0 else 16 in
      (u16 (bit_and (val >> shift) 0xffff), b')

  unfoldable pub pci_read_byte : (bus slot func offset : ℕ) → Bus → ℕ × Bus
  pci_read_byte bus slot func offset b =
      let (val, b') = inl 0xcfc (outl 0xcf8 (pci_cfg_addr bus slot func offset) b) in
      (u8 (bit_and (val >> (bit_and offset 3 * 8)) 0xff), b')

  unfoldable pub pci_write_dword : (bus slot func offset value : ℕ) → Bus → Bus
  pci_write_dword bus slot func offset value b =
      outl 0xcfc value (outl 0xcf8 (pci_cfg_addr bus slot func offset) b)

  unfoldable pub pci_write_word : (bus slot func offset value : ℕ) → Bus → Bus
  pci_write_word bus slot func offset value b =
      let (current, b') = inl 0xcfc (outl 0xcf8 (pci_cfg_addr bus slot func offset) b) in
      let next : ℕ =
        if bit_and offset 2 == 0
        then bit_or (bit_and current 0xffff_0000) value
        else bit_or (bit_and current 0xffff) (u32 (value << 16)) in
      outl 0xcfc next b'
