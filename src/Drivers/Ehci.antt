-- ===== src/Drivers/Ehci.antt =====
-- drivers/USB_EHCI/main.c. The memory, the registers that are mapped into it, the ports and the
-- allocator are the parameter EhciKernel. A poll takes rounds, and none is one that does not end.
pub mod Bind
pub mod Start
pub mod Words
pub mod Schedules
pub mod Tests
use wolf_os.Base.{
  ℕ, zero, suc, ◌+◌, ◌-◌, ◌*◌, ◌^◌, bit_and, bit_or, Bool, true, false, ◌&&◌, not, List, [], ◌∷◌,
  Option, none, some, ltb, ◌==◌, if◌then◌else◌,
}
use wolf_os.Drivers.Pci.{Ports}

-- The accesses through a pointer, and what the driver calls of the kernel.
pub record EhciKernel (World : Type 0) : Type 0 where
  pub ports : Ports World
  pub load8 : (address : ℕ) → World → ℕ × World
  pub load32 : (address : ℕ) → World → ℕ × World
  pub store16 : (address value : ℕ) → World → World
  pub store32 : (address value : ℕ) → World → World
  pub wait : (ms : ℕ) → World → World
  pub kamalloc : (nbytes align : ℕ) → World → ℕ × World

-- The fields of `struct cap_regs` and of `struct op_regs` by their offsets.
abbrev pub cap_hcsparams : ℕ
cap_hcsparams = 4

abbrev pub cap_hccparams : ℕ
cap_hccparams = 8

abbrev pub op_usbcmd : ℕ
op_usbcmd = 0x00

abbrev pub op_usbsts : ℕ
op_usbsts = 0x04

abbrev pub op_usbintr : ℕ
op_usbintr = 0x08

abbrev pub op_frindex : ℕ
op_frindex = 0x0c

abbrev pub op_ctrldssegment : ℕ
op_ctrldssegment = 0x10

abbrev pub op_periodiclistbase : ℕ
op_periodiclistbase = 0x14

abbrev pub op_asynclistaddr : ℕ
op_asynclistaddr = 0x18

abbrev pub op_configflag : ℕ
op_configflag = 0x40

abbrev pub op_ports : ℕ
op_ports = 0x44

abbrev pub usblegsup : ℕ
usblegsup = 0x8e0

abbrev pub usbcmd_run : ℕ
usbcmd_run = 0

abbrev pub usbcmd_pse : ℕ
usbcmd_pse = 4

abbrev pub usbcmd_ase : ℕ
usbcmd_ase = 5

abbrev pub usbsts_halted : ℕ
usbsts_halted = 12

abbrev pub port_connected : ℕ
port_connected = 0

abbrev pub port_connected_change : ℕ
port_connected_change = 1

abbrev pub port_enabled : ℕ
port_enabled = 2

abbrev pub port_enabled_change : ℕ
port_enabled_change = 3

abbrev pub port_reset : ℕ
port_reset = 8

-- `struct ehci_qh`
abbrev pub sizeof_qh : ℕ
sizeof_qh = 48

abbrev pub any_of : (value mask : ℕ) → Bool
any_of value mask = not (bit_and value mask == 0)

-- `~mask`
abbrev pub complement : (mask : ℕ) → ℕ
complement mask = 2 ^ 32 - 1 - mask

-- A command that may go on for ever.
abbrev pub Io : (World A : Type 0) → Type 0
Io World A = World → Option (A × World)

module _ {World A B : Type 0} where
  abbrev pub go_on : Option (A × World) → (A → Io World B) → Option (B × World)
  go_on none k = none
  go_on (some (a, w)) k = k a w

  infixl 5 ◌>>=◌ ◌>>◌
  abbrev pub ◌>>=◌ : Io World A → (A → Io World B) → Io World B
  m >>= k = λ w. go_on (m w) k

  abbrev pub ◌>>◌ : Io World A → Io World B → Io World B
  m >> k = m >>= λ _. k

module _ {World : Type 0} where
  abbrev pub pure : {A : Type 0} → A → Io World A
  pure a w = some (a, w)

  abbrev pub input : {A : Type 0} → (World → A × World) → Io World A
  input f w = some (f w)

  abbrev pub output : (World → World) → Io World (Unit {0})
  output f w = some (tt, f w)

  -- `while (...)` around a read, until what is read is as it should be.
  unfoldable pub await : (rounds : ℕ) → (World → ℕ × World) → (done : ℕ → Bool) → Io World ℕ
  await zero read done w = none
  await (suc n) read done w =
      let (value, w') = read w in
      let rest = await n read done w' in if done value then some (value, w') else rest
