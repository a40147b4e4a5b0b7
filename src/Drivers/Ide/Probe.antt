-- ===== src/Drivers/Ide/Probe.antt =====
-- drivers/IDE/main.c, `init_internal`. What is printed is not modelled.
use wolf_os.Base.{
  ℕ, zero, suc, ◌+◌, ◌^◌, bit_and, bit_or, Bool, true, false, ◌&&◌, ◌||◌, not, List, [], ◌∷◌,
  Option, none, some, ◌>>=◌, ◌==◌, if◌then◌else◌,
}
use wolf_os.Base.Words.{◌<<◌}
use wolf_os.Base.Machine.{Memory, read16, read32}
use wolf_os.Drivers.Ide.{IdeChannel, Kernel, ide_write, ide_read, ide_read_buffer, ata_reg_control}

-- `struct ide_device`; the model is its 40 characters, without the 0 behind them.
pub record IdeDevice : Type 0 where
  pub reserved : ℕ
  pub channel : ℕ
  pub drive : ℕ
  pub kind : ℕ
  pub signature : ℕ
  pub capabilities : ℕ
  pub command_sets : ℕ
  pub size_sectors : ℕ
  pub model : List ℕ

-- `ide_devices` by their index, the count of those found, `ide_buffer` and the machine.
pub record Ide (World : Type 0) : Type 0 where
  pub ide_devices : (index : ℕ) → IdeDevice
  pub count : ℕ
  pub ide_buffer : Memory
  pub world : World

abbrev pub set_device : {World : Type 0} → Ide World → IdeDevice → Ide World
set_device st d = record st { ide_devices = λ i. if i == st.count then d else st.ide_devices i }

-- Pairs of characters are stored the other way round.
unfoldable pub model_loop : Memory → (at left : ℕ) → List ℕ
model_loop m at zero = []
model_loop m at (suc k) = m (at + 1) ∷ m at ∷ model_loop m (at + 2) k

-- What the identification in the buffer says of a device.
unfoldable pub describe : Memory → (type chnl drv : ℕ) → IdeDevice
describe m type chnl drv =
    let sets = read32 m 164 in
    record {
      reserved = 1;
      kind = type;
      channel = chnl;
      drive = drv;
      signature = read16 m 0;
      capabilities = read16 m 98;
      command_sets = sets;
      size_sectors = if not (bit_and sets (2 ^ 26) == 0) then read32 m 200 else read32 m 120;
      model = model_loop m 54 20;
    }

-- The two pairs of bytes that a packet device answers with.
unfoldable pub is_packet_device : (cl ch : ℕ) → Bool
is_packet_device cl ch = ((cl == 0x14) && (ch == 0xeb)) || ((cl == 0x69) && (ch == 0x96))

module _ {World : Type 0} (kernel : Kernel World) (garbage : ℕ) where
  open kernel use {wait, kmalloc}

  -- Until the device has data, and whether it had an error instead; none while it is busy.
  unfoldable pub poll_loop : (rounds : ℕ) → IdeChannel → World → Option (Bool × World)
  poll_loop zero channel w = none
  poll_loop (suc n) channel w =
      let (status, w') = ide_read kernel garbage channel 0x07 w in
      let rest = poll_loop n channel w' in
      if not (bit_and status 0x01 == 0)
      then some (true, w')
      else if (bit_and status 0x80 == 0) && not (bit_and status 0x08 == 0)
      then some (false, w')
      else rest

  -- From `ide_read_buffer` on.
  unfoldable pub enter_ide_device : IdeChannel → (type chnl drv : ℕ) → Ide World → Ide World
  enter_ide_device channel type chnl drv st =
      let (m, w) = ide_read_buffer kernel garbage channel 0x00 0 128 st.ide_buffer st.world in
      let entered = set_device st (describe m type chnl drv) in
      record entered { count = st.count + 1; ide_buffer = m; world = w }

  -- A device that answered with an error: a packet device identifies itself on another command.
  unfoldable pub identify_packet : IdeChannel → (chnl drv : ℕ) → Ide World → Ide World
  identify_packet channel chnl drv st =
      let (cl, w1) = ide_read kernel garbage channel 0x04 st.world in
      let (ch, w2) = ide_read kernel garbage channel 0x05 w1 in
      let w3 = wait 1 (ide_write kernel channel 0x07 0xa1 w2) in
      if is_packet_device cl ch
      then enter_ide_device channel 1 chnl drv (record st { world = w3 })
      else record st { world = w2 }

  unfoldable pub after_poll :
      IdeChannel → (chnl drv : ℕ) → Ide World → Option (Bool × World) → Option (Ide World)
  after_poll channel chnl drv st none = none
  after_poll channel chnl drv st (some (true, w)) =
      some (identify_packet channel chnl drv (record st { world = w }))
  after_poll channel chnl drv st (some (false, w)) =
      some (enter_ide_device channel 0 chnl drv (record st { world = w }))

  -- The body of the loop over the drives of a channel.
  unfoldable pub probe_drive :
      (rounds : ℕ) → IdeChannel → (chnl drv : ℕ) → Ide World → Option (Ide World)
  probe_drive rounds channel chnl drv st =
      let empty = record (st.ide_devices st.count) { reserved = 0 } in
      let st' = set_device st empty in
      let w1 = wait 1 (ide_write kernel channel 0x06 (bit_or 0xa0 (drv << 4)) st.world) in
      let w2 = wait 1 (ide_write kernel channel 0x07 0xec w1) in
      let (status, w3) = ide_read kernel garbage channel 0x07 w2 in
      if status == 0
      then some (record st' { world = w3 })
      else after_poll channel chnl drv st' (poll_loop rounds channel w3)

  unfoldable pub drives_loop :
      (rounds : ℕ) → IdeChannel → (chnl drv left : ℕ) → Ide World → Option (Ide World)
  drives_loop rounds channel chnl drv zero st = some st
  drives_loop rounds channel chnl drv (suc k) st = do
    st' ← probe_drive rounds channel chnl drv st
    drives_loop rounds channel chnl (drv + 1) k st'

  abbrev pub channel_at : (base ctrl bmide : ℕ) → IdeChannel
  channel_at base ctrl bmide = record { base = base; ctrl = ctrl; bmide = bmide; nien = 0 }

  -- The two loops, on the two channels.
  unfoldable pub probe_channels :
      (rounds : ℕ) (primary secondary : IdeChannel) → Ide World → Option (Ide World)
  probe_channels rounds primary secondary st = do
    st' ← drives_loop rounds primary 0 0 2 st
    drives_loop rounds secondary 1 0 2 st'

  -- After the memory is allocated. The channels are zeroed memory, so their nIEN is 0.
  unfoldable pub probe_at : (rounds : ℕ) (is_legacy : Bool) → Ide World → Option (Ide World)
  probe_at rounds is_legacy st =
      let bar : ℕ → ℕ = λ port. if is_legacy then port else 0 in
      let primary = channel_at (bar 0x1f0) (bar 0x3f6) 0 in
      let secondary = channel_at (bar 0x170) (bar 0x376) 8 in
      let w1 = ide_write kernel primary ata_reg_control 2 st.world in
      let w2 = ide_write kernel secondary ata_reg_control 2 w1 in
      probe_channels rounds primary secondary (record st { world = w2; count = 0 })

  -- The result and the state. The memory of the four devices is not tested: where one of them is at
  -- address 0 its fields are written there, which is not followed, none.
  unfoldable pub init_internal : (rounds bus slot func : ℕ) → Ide World → Option (ℕ × Ide World)
  init_internal rounds bus slot func st =
      let (ide_buffer, w1) = kmalloc 2048 st.world in
      let (primary, w2) = kmalloc 8 w1 in
      let (secondary, w3) = kmalloc 8 w2 in
      let (d0, w4) = kmalloc 64 w3 in
      let (d1, w5) = kmalloc 64 w4 in
      let (d2, w6) = kmalloc 64 w5 in
      let (d3, w7) = kmalloc 64 w6 in
      let ready = record st { world = w7 } in
      let probed = probe_at rounds ((bus == 0) && (slot == 0) && (func == 0)) ready in
      if (ide_buffer == 0) || (primary == 0) || (secondary == 0)
      then some (1, ready)
      else if (d0 == 0) || (d1 == 0) || (d2 == 0) || (d3 == 0)
      then none
      else probed >>= (λ st'. some (0, st'))

  unfoldable pub init : (rounds : ℕ) → Ide World → Option (ℕ × Ide World)
  init rounds = init_internal rounds 0 0 0

  unfoldable pub bind_device_pci : (bus slot func : ℕ) → Ide World → ℕ × Ide World
  bind_device_pci bus slot func st = (1, st)
