-- ===== src/Drivers/Ehci/Bind.antt =====
-- drivers/USB_EHCI/main.c, `bind_device_pci`. What is printed is not modelled, but the reads for it are.
use wolf_os.Base.{
  ℕ, zero, suc, ◌+◌, ◌*◌, ◌/◌, ◌^◌, bit_and, bit_or, Bool, ◌&&◌, not, List, [], ◌∷◌, ltb, ◌==◌,
  if◌then◌else◌,
}
use wolf_os.Base.Words.{u8, add32, ◌<<◌}
use wolf_os.Drivers.Pci.{
  pci_read_byte, pci_read_word, pci_read_dword, pci_write_word, pci_write_dword,
}
use wolf_os.Drivers.Ehci.{
  EhciKernel, ◌>>=◌, ◌>>◌, cap_hcsparams, cap_hccparams, op_usbcmd, op_usbsts, op_usbintr,
  op_frindex, op_ctrldssegment, op_periodiclistbase, op_asynclistaddr, op_configflag, op_ports,
  usblegsup, usbcmd_run, usbcmd_pse, usbcmd_ase, usbsts_halted, port_connected,
  port_connected_change, port_enabled, port_enabled_change, port_reset, sizeof_qh, any_of,
  complement, Io, pure, input, output, await,
}

-- The bits that a mask of `USBSTS` tests.
abbrev pub is_halted : (usbsts : ℕ) → Bool
is_halted sts = any_of sts (1 << usbsts_halted)

-- The BIOS has let go of the controller, and the kernel holds it.
abbrev pub is_handed_over : (legsup : ℕ) → Bool
is_handed_over legsup = not (any_of legsup (1 << 16)) && any_of legsup (1 << 24)

-- The offset is cut to the byte that the functions of the kernel take.
abbrev pub legsup_offset : (eecp : ℕ) → ℕ
legsup_offset eecp = u8 (eecp + usblegsup)

-- What starts the controller; the numbers of the bits are taken for their masks.
abbrev pub usbcmd_start : ℕ
usbcmd_start = bit_or (bit_or (bit_or (8 << 16) usbcmd_ase) usbcmd_pse) usbcmd_run

module _ {World : Type 0} (kernel : EhciKernel World) where
  open kernel use {ports, load8, load32, store16, store32, wait, kamalloc}

  unfoldable pub reset_controller : (rounds op : ℕ) → Io World (Unit {0})
  reset_controller rounds op = do
    usbcmd ← input (load32 (add32 op op_usbcmd))
    output (
        store32 (add32 op op_usbcmd)
          (bit_or (bit_and usbcmd (complement (bit_or usbcmd_ase usbcmd_pse))) 2))
    output (wait 50)
    await rounds (load32 (add32 op op_usbcmd)) (λ v. not (any_of v 2))
    await rounds (load32 (add32 op op_usbsts)) is_halted
    pure tt

  -- The loop that clears `bufptr`.
  unfoldable pub bufptr_loop : (qh i left : ℕ) → World → World
  bufptr_loop qh i zero w = w
  bufptr_loop qh i (suc k) w = bufptr_loop qh (i + 1) k (store32 (qh + 28 + 4 * i) 0 w)

  -- A queue head: its fields in the order in which they are set.
  unfoldable pub fill_qh : (qh qhlp end_char : ℕ) → World → World
  fill_qh qh qhlp end_char w =
      let w1 = store32 (qh + 4) end_char (store32 qh qhlp w) in
      let w2 = store32 (qh + 12) 0 (store16 (qh + 8) 0 w1) in
      let w3 = store32 (qh + 20) 0 (store32 (qh + 16) 1 w2) in
      bufptr_loop qh 0 5 (store32 (qh + 24) 0 w3)

  unfoldable pub frames_loop : (periodic_list periodic_qh i left : ℕ) → World → World
  frames_loop frames qh i zero w = w
  frames_loop frames qh i (suc k) w =
      frames_loop frames qh (i + 1) k (store32 (frames + 4 * i) (bit_or 1 qh) w)

  unfoldable pub make_schedules : (op : ℕ) → Io World (Unit {0})
  make_schedules op = do
    periodic_list ← input (kamalloc (1024 * 4) 4096)
    output (store32 (add32 op op_periodiclistbase) periodic_list)
    async_qh ← input (kamalloc sizeof_qh 128)
    output (fill_qh async_qh (bit_or async_qh 1) (1 << 15))
    output (store32 (add32 op op_asynclistaddr) async_qh)
    periodic_qh ← input (kamalloc sizeof_qh 128)
    output (fill_qh periodic_qh 0 0)
    output (frames_loop periodic_list periodic_qh 0 1024)

  unfoldable pub steal : (rounds bus slot func offset legsup : ℕ) → Io World (Unit {0})
  steal rounds bus slot func offset legsup = do
    output (pci_write_dword ports bus slot func offset (bit_or legsup (1 << 24)))
    await rounds (pci_read_dword ports bus slot func offset) is_handed_over
    pure tt

  abbrev pub steal_if_owned : (rounds bus slot func offset legsup : ℕ) → Io World (Unit {0})
  steal_if_owned rounds bus slot func offset legsup =
      if any_of legsup (1 << 16) then steal rounds bus slot func offset legsup else pure tt

  abbrev pub leave_at : (rounds bus slot func eecp : ℕ) → Io World (Unit {0})
  leave_at rounds bus slot func eecp =
      if ltb 0x40 eecp
      then (input (pci_read_dword ports bus slot func (legsup_offset eecp))
          >>= steal_if_owned rounds bus slot func (legsup_offset eecp))
      else pure tt

  unfoldable pub leave_legacy_mode : (rounds bus slot func cap : ℕ) → Io World (Unit {0})
  leave_legacy_mode rounds bus slot func cap = do
    hccparams ← input (load32 (add32 cap cap_hccparams))
    leave_at rounds bus slot func (bit_and hccparams 0xff00 / 2 ^ 8)

  unfoldable pub start_controller : (rounds op : ℕ) → Io World (Unit {0})
  start_controller rounds op = do
    output (store32 (add32 op op_usbintr) 0)
    output (store32 (add32 op op_frindex) 0)
    output (store32 (add32 op op_ctrldssegment) 0)
    output (store32 (add32 op op_usbsts) 0x3f)
    output (store32 (add32 op op_usbcmd) usbcmd_start)
    await rounds (load32 (add32 op op_usbsts)) (λ v. not (is_halted v))
    output (store32 (add32 op op_configflag) 1)

  -- `ports` is declared as a pointer, which is read from the register.
  abbrev pub port_at : (op i : ℕ) → World → ℕ × World
  port_at op i w = let (p, w') = load32 (add32 op op_ports) w in (add32 p (4 * i), w')

  abbrev pub update : (address : ℕ) → (ℕ → ℕ) → World → World
  update a f w = let (v, w') = load32 a w in store32 a (f v) w'

  unfoldable pub power_loop : (op i left : ℕ) → World → World
  power_loop op i zero w = w
  power_loop op i (suc k) w =
      let (port, w') = port_at op i w in
      power_loop op (i + 1) k (update port (λ v. bit_or v (1 << 12)) w')

  -- The status of a port that was reset, after at most 10 reads.
  unfoldable pub settle_loop : (port status left : ℕ) → World → ℕ × World
  settle_loop port status zero w = (status, w)
  settle_loop port status (suc k) w =
      let (now, w1) = load32 port (wait 10 w) in
      let changes = bit_or (1 << port_enabled_change) (1 << port_connected_change) in
      let again = settle_loop port now k (update port (λ v. bit_or v changes) w1) in
      let waits = settle_loop port now k w1 in
      if not (any_of now (1 << port_connected))
      then (now, w1)
      else if any_of now changes
      then again
      else if any_of now (1 << port_enabled)
      then (now, w1)
      else waits

  -- The last status tells which message is printed.
  unfoldable pub reset_port : (port : ℕ) → World → ℕ × World
  reset_port port w =
      let w1 = wait 10 (update port (λ v. bit_or (bit_and v (complement 0x2a)) 0x1540) w) in
      let w2 = wait 50 (update port (λ v. bit_or v (1 << port_reset)) w1) in
      settle_loop port 0 10 (update port (λ v. bit_and v (complement (1 << port_reset))) w2)

  -- The ports with a device, and whether it is said to be enabled.
  unfoldable pub ports_loop : (op i left : ℕ) → World → List (ℕ × Bool) × World
  ports_loop op i zero w = ([], w)
  ports_loop op i (suc k) w =
      let (port, w1) = port_at op i w in
      let (portsc, w2) = load32 port w1 in
      let (status, w3) = reset_port port w2 in
      let (found, w4) = ports_loop op (i + 1) k w3 in
      let without = ports_loop op (i + 1) k w2 in
      if any_of portsc (1 << port_connected)
      then ((i, any_of status (1 << port_enabled)) ∷ found, w4)
      else without

  unfoldable pub power_ports : (hcsparams op : ℕ) → World → World
  power_ports hcsparams op w =
      if any_of hcsparams (1 << 4) then wait 20 (power_loop op 0 (bit_and hcsparams 0xf) w) else w

  -- From the address of the registers on.
  unfoldable pub bind_controller : (rounds bus slot func bar : ℕ) → Io World (List (ℕ × Bool))
  bind_controller rounds bus slot func cap = do
    caplength ← input (load8 cap)
    cmd ← input (pci_read_word ports bus slot func 0x04)
    output (pci_write_word ports bus slot func 0x04 (bit_or cmd 6))
    input (load8 cap)
    input (load8 cap)
    hcsparams ← input (load32 (add32 cap cap_hcsparams))
    input (load32 (add32 cap cap_hccparams))
    reset_controller rounds (add32 cap caplength)
    make_schedules (add32 cap caplength)
    leave_legacy_mode rounds bus slot func cap
    start_controller rounds (add32 cap caplength)
    output (power_ports hcsparams (add32 cap caplength))
    input (ports_loop (add32 cap caplength) 0 (bit_and hcsparams 0xf))

  abbrev pub bind_at : (rounds bus slot func : ℕ) → Io World (ℕ × List (ℕ × Bool))
  bind_at rounds bus slot func = do
    bar ← input (pci_read_dword ports bus slot func 0x10)
    found ← bind_controller rounds bus slot func (bit_and bar 0xffff_fff0)
    pure (0, found)

  abbrev pub bind_if_ehci : (rounds bus slot func progif : ℕ) → Io World (ℕ × List (ℕ × Bool))
  bind_if_ehci rounds bus slot func progif =
      if not (progif == 0x20) then pure (1, []) else bind_at rounds bus slot func

  -- The result, and the ports with a device.
  unfoldable pub bind_device_pci : (rounds bus slot func : ℕ) → Io World (ℕ × List (ℕ × Bool))
  bind_device_pci rounds bus slot func = do
    progif ← input (pci_read_byte ports bus slot func 0x09)
    bind_if_ehci rounds bus slot func progif
