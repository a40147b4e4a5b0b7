-- ===== src/Drivers/Ide.antt =====
-- drivers/IDE/util.c: the registers of a channel by the ports that they are at.
pub mod Probe
pub mod Count
pub mod Tests
use wolf_os.Base.{
  ℕ, zero, suc, ◌+◌, ◌-◌, ◌^◌, bit_or, Bool, ◌&&◌, Option, none, some, ltb, ◌==◌, if◌then◌else◌,
}
use wolf_os.Base.Words.{u16}
use wolf_os.Base.Machine.{Memory, write32}

-- `struct ide_channel`
pub record IdeChannel : Type 0 where
  pub base : ℕ
  pub ctrl : ℕ
  pub bmide : ℕ
  pub nien : ℕ

-- What the driver calls of the kernel, and the instruction that `ide_read_buffer` repeats.
pub record Kernel (World : Type 0) : Type 0 where
  pub inb : (port : ℕ) → World → ℕ × World
  pub outb : (port value : ℕ) → World → World
  pub insl : (port : ℕ) → World → ℕ × World
  pub wait : (ms : ℕ) → World → World
  pub kmalloc : (nbytes : ℕ) → World → ℕ × World

abbrev pub ata_reg_control : ℕ
ata_reg_control = 0x0c

-- The port of a register, if it has one.
unfoldable pub ide_port : IdeChannel → (reg : ℕ) → Option ℕ
ide_port channel reg =
    if ltb reg 0x08
    then some (u16 (channel.base + reg))
    else if ltb reg 0x0c
    then some (u16 (channel.base + reg + (2 ^ 16 - 0x06)))
    else if ltb reg 0x0e
    then some (u16 (channel.ctrl + reg + (2 ^ 16 - 0x0a)))
    else if ltb reg 0x16
    then some (u16 (channel.bmide + reg + (2 ^ 16 - 0x0e)))
    else none

-- The registers that are reached only with bit 7 of the control register set.
abbrev pub is_high_order : (reg : ℕ) → Bool
is_high_order reg = ltb 0x07 reg && ltb reg 0x0c

module _ {World : Type 0} (kernel : Kernel World) where
  open kernel use {inb, outb, insl}

  unfoldable pub write_at : Option ℕ → (value : ℕ) → World → World
  write_at none value w = w
  write_at (some port) value w = outb port value w

  -- A register of no port gives `garbage`, what the variable held that is not set.
  unfoldable pub read_at : (garbage : ℕ) → Option ℕ → World → ℕ × World
  read_at garbage none w = (garbage, w)
  read_at garbage (some port) w = inb port w

  -- The write to the control register needs no other one: it is not high order.
  unfoldable pub write_control : IdeChannel → (value : ℕ) → World → World
  write_control channel = write_at (ide_port channel ata_reg_control)

  unfoldable pub ide_write : IdeChannel → (reg value : ℕ) → World → World
  ide_write channel reg value w =
      if is_high_order reg
      then write_control channel channel.nien (
          write_at (ide_port channel reg) value
            (write_control channel (bit_or 0x80 channel.nien) w))
      else write_at (ide_port channel reg) value w

  unfoldable pub ide_read : (garbage : ℕ) → IdeChannel → (reg : ℕ) → World → ℕ × World
  ide_read garbage channel reg w =
      let (result, w') =
        read_at garbage (ide_port channel reg)
          (write_control channel (bit_or 0x80 channel.nien) w) in
      if is_high_order reg
      then (result, write_control channel channel.nien w')
      else read_at garbage (ide_port channel reg) w

  -- `insl`, until the count is 0
  unfoldable pub insl_loop : (port dest left : ℕ) → Memory → World → Memory × World
  insl_loop port dest zero m w = (m, w)
  insl_loop port dest (suc k) m w =
      let (dword, w') = insl port w in insl_loop port (dest + 4) k (write32 m dest dword) w'

  abbrev pub port_or : (garbage : ℕ) → Option ℕ → ℕ
  port_or garbage none = garbage
  port_or garbage (some port) = port

  -- `loop` counts down first, so that 0 stands for 2 ^ 32 rounds.
  unfoldable pub ide_read_buffer :
      (garbage : ℕ) → IdeChannel → (reg buffer quads : ℕ) → Memory → World → Memory × World
  ide_read_buffer garbage channel reg buffer quads =
      insl_loop (port_or garbage (ide_port channel reg)) buffer
        (if quads == 0 then 2 ^ 32 else quads)
