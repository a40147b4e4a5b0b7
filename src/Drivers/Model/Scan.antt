-- ===== src/Drivers/Model/Scan.antt =====
-- The devices that `init_devices` lists, on hardware that reads the same as long as the kernel scans it.
use mathlib.Core.List.{append_assoc}
use wolf_os.Base.{
  ℕ, zero, suc, ◌+◌, ◌*◌, ◌^◌, ◌<◌, ◌⊎◌, ◌≡◌, refl, ap, sym, subst, ◌∙◌, inl, inr, false, List, [],
  ◌∷◌, ◌++◌, map, bit_and, ◌==◌, Bool-cases, arith,
}
use wolf_os.Drivers.Pci.{pci_read_word, pci_read_byte}
use wolf_os.Drivers.Model.{DeviceDriver}
use wolf_os.Drivers.Model.Finding.{All, Exact}
use wolf_os.Drivers.Model.Offering.{bind_loop-Ends}
use wolf_os.Drivers.Model.Present.{
  Identity, identity, Config, identity_at, is_absent, present, present_from, present_device,
  present_slots, present_buses, Steady,
}
use wolf_os.Drivers.Model.Devices.{
  Device, Outcome, done, panicked, ◌>>=◌, Hardware, sizeof_device, enter_device, visit_function,
  functions_loop, device_from_pci, slots_loop, buses_loop, init_devices, Tree,
}

module _ {World : Type 0} (hardware : Hardware World) (drivers : List DeviceDriver) (rounds : ℕ)
    (word byte : Config) (Inv : World → Type 0) (steady : Steady hardware drivers word byte Inv)
    (enough : 0xffff < rounds) where
  -- The allocator has no memory for the record of a device.
  abbrev pub LacksMemory : World → Type 0
  LacksMemory w = Inv w × ((hardware.kmalloc sizeof_device w).0 ≡ 0)

  -- The run ends, and adds devices of these identities in front; or it stops in `panic`, because at
  -- some moment the allocator lacks memory.
  abbrev pub Adds :
      List Identity → Outcome (Tree hardware drivers) → (devices : List Device) → Type 0
  Adds xs outcome devices =
      ((outcome ≡ panicked) × (w : World) × LacksMemory w)
      ⊎ ((devices' : List Device) × (w' : World) × (outcome ≡ done (devices', w'))
          × Inv w'
          × (map identity devices' ≡ xs ++ map identity devices))

  Adds-then :
      (xs ys : List Identity) (o : Outcome (Tree hardware drivers)) (devices : List Device)
      → (f : Tree hardware drivers → Outcome (Tree hardware drivers)) → Adds xs o devices
      → ((devices' : List Device) (w' : World) → Inv w' → Adds ys (f (devices', w')) devices')
      → Adds (ys ++ xs) (o >>= f) devices
  Adds-then xs ys o devices f (inl (e, v, lacks)) next = inl (ap (λ x. x >>= f) e, v, lacks)
  Adds-then xs ys o devices f (inr (ds, w, e, inv, list)) next = elim (next ds w inv) [
    | inl (e', v, lacks) ↦ inl (ap (λ x. x >>= f) e ∙ e', v, lacks)
    | inr (ds', w', e', inv', list') ↦ inr (
      ds',
      w',
      ap (λ x. x >>= f) e ∙ e',
      inv',
      list' ∙ ap (λ l. ys ++ l) list ∙ sym (append_assoc ys xs (map identity devices)),
    )
  ]

  enter_device-Adds :
      (class subclass vid pid bus device func : ℕ) (devices : List Device) (w : World)
      → class < 256
      → subclass < 256
      → vid < 2 ^ 16
      → pid < 2 ^ 16
      → All (λ d. ¬ Exact (vid * 2 ^ 16 + pid) d) drivers
      → Inv w
      → Adds
          ((vid, pid, func, class, subclass) ∷ [])
          (enter_device hardware drivers rounds class subclass vid pid bus device func (devices, w))
          devices
  unfolding enter_device
  enter_device-Adds class subclass vid pid bus device func devices w hc hs hv hp unnamed inv =
      let memory = hardware.kmalloc sizeof_device w in
      let (assigned, w', e, inv') =
        bind_loop-Ends hardware drivers Inv class subclass vid pid bus device func unnamed
          steady.offers hc hs hv hp rounds 0xffff (memory.1) enough (steady.allocates w inv) in
      elim (Bool-cases (memory.0 == 0)) [
        | inl z ↦ rw z (inl (refl, w, (inv, ground arith)))
        | inr z ↦ rw (z, e) (inr (_, w', refl, inv', refl))
      ]

  word-bound :
      (bus device func offset : ℕ) (w : World) → Inv w → word bus device func offset < 2 ^ 16
  unfolding pci_read_word
  word-bound bus device func offset w inv =
      subst (λ n. n < 2 ^ 16) ((steady.word_read bus device func offset w inv).0) (omega arith)

  byte-bound : (bus device func offset : ℕ) (w : World) → Inv w → byte bus device func offset < 256
  unfolding pci_read_byte
  byte-bound bus device func offset w inv =
      subst (λ n. n < 256) ((steady.byte_read bus device func offset w inv).0) (omega arith)

  -- A device of the configuration space.
  enter-Adds :
      (bus device func : ℕ) (devices : List Device) (w : World)
      → Inv w
      → Adds
          (identity_at word byte bus device func ∷ [])
          (enter_device hardware drivers rounds
            (byte bus device func 0x0b)
            (byte bus device func 0x0a)
            (word bus device func 0)
            (word bus device func 2)
            bus
            device
            func
            (devices, w))
          devices
  enter-Adds bus device func devices w inv =
      enter_device-Adds (byte bus device func 0x0b) (byte bus device func 0x0a)
        (word bus device func 0) (word bus device func 2) bus device func devices w
        (byte-bound bus device func 0x0b w inv) (byte-bound bus device func 0x0a w inv)
        (word-bound bus device func 0 w inv) (word-bound bus device func 2 w inv)
        (steady.unnamed bus device func) inv

  -- A function other than 0.
  visit_function-Adds :
      (bus device fn : ℕ) (devices : List Device) (w : World)
      → Inv w
      → Adds
          (present word byte bus device (suc fn))
          (visit_function hardware drivers rounds done bus device (suc fn) (devices, w))
          devices
  unfolding visit_function
  visit_function-Adds bus device fn devices w inv =
      let f = suc fn in
      let (v0, i1) = steady.word_read bus device f 0 w inv in
      let w1 = (pci_read_word hardware.ports bus device f 0 w).1 in
      let (v2, i2) = steady.word_read bus device f 2 w1 i1 in
      let w2 = (pci_read_word hardware.ports bus device f 2 w1).1 in
      let (vb, i3) = steady.byte_read bus device f 0x0b w2 i2 in
      let w3 = (pci_read_byte hardware.ports bus device f 0x0b w2).1 in
      let (va, i4) = steady.byte_read bus device f 0x0a w3 i3 in
      let w4 = (pci_read_byte hardware.ports bus device f 0x0a w3).1 in
      let other : (f == 0) ≡ false = ground arith in
      elim (Bool-cases (is_absent word byte bus device f)) [
        | inl e ↦ rw (v0, e) (inr (devices, w1, refl, i1, refl))
        | inr e ↦ rw (v0, e, other, v2, vb, va) (enter-Adds bus device f devices w4 i4)
      ]

  functions_loop-Adds :
      (k bus device fn : ℕ) (devices : List Device) (w : World)
      → Inv w
      → Adds
          (present_from word byte bus device (suc fn) k)
          (functions_loop hardware drivers rounds bus device (suc fn) k (devices, w))
          devices
  unfolding functions_loop present_from
  functions_loop-Adds zero bus device fn devices w inv = inr (devices, w, refl, inv, refl)
  functions_loop-Adds (suc k) bus device fn devices w inv =
      Adds-then (present word byte bus device (suc fn))
        (present_from word byte bus device (suc fn + 1) k)
        (visit_function hardware drivers rounds done bus device (suc fn) (devices, w)) devices
        (functions_loop hardware drivers rounds bus device (suc fn + 1) k)
        (visit_function-Adds bus device fn devices w inv)
        (λ ds w' inv'.
          let next : suc (fn + 1) ≡ suc fn + 1 = omega arith in
          subst
            (λ n.
              Adds (present_from word byte bus device n k)
                (functions_loop hardware drivers rounds bus device n k (ds, w')) ds)
            next (functions_loop-Adds k bus device (fn + 1) ds w' inv'))

  device_from_pci-Adds :
      (bus device : ℕ) (devices : List Device) (w : World)
      → Inv w
      → Adds
          (present_device word byte bus device)
          (device_from_pci hardware drivers rounds bus device 0 (devices, w))
          devices
  unfolding device_from_pci visit_function present_device
  device_from_pci-Adds bus device devices w inv =
      let (v0, i1) = steady.word_read bus device 0 0 w inv in
      let w1 = (pci_read_word hardware.ports bus device 0 0 w).1 in
      let (v2, i2) = steady.word_read bus device 0 2 w1 i1 in
      let w2 = (pci_read_word hardware.ports bus device 0 2 w1).1 in
      let (vb, i3) = steady.byte_read bus device 0 0x0b w2 i2 in
      let w3 = (pci_read_byte hardware.ports bus device 0 0x0b w2).1 in
      let (va, i4) = steady.byte_read bus device 0 0x0a w3 i3 in
      let w4 = (pci_read_byte hardware.ports bus device 0 0x0a w3).1 in
      let (vc, i5) = steady.word_read bus device 0 0x0c w4 i4 in
      let w5 = (pci_read_word hardware.ports bus device 0 0x0c w4).1 in
      let enter = enter-Adds bus device 0 in
      elim (Bool-cases (is_absent word byte bus device 0)) [
        | inl e ↦ rw (v0, e) (inr (devices, w1, refl, i1, refl))
        | inr e ↦ elim (Bool-cases (bit_and (bit_and (word bus device 0 0x0c) 0xff) 0x80 == 0)) [
          | inl single ↦ rw (v0, e, vc, single, v2, vb, va) (enter devices w5 i5)
          | inr several ↦
              rw (v0, e, vc, several, v2, vb, va)
                (Adds-then (present_from word byte bus device 1 7)
                  (identity_at word byte bus device 0 ∷ [])
                  (functions_loop hardware drivers rounds bus device 1 7 (devices, w5)) devices
                  (enter_device hardware drivers rounds (byte bus device 0 0x0b)
                    (byte bus device 0 0x0a) (word bus device 0 0) (word bus device 0 2) bus device
                    0)
                  (functions_loop-Adds 7 bus device 0 devices w5 i5) enter)
        ]
      ]

  slots_loop-Adds :
      (k bus device : ℕ) (devices : List Device) (w : World)
      → Inv w
      → Adds
          (present_slots word byte bus device k)
          (slots_loop hardware drivers rounds bus device k (devices, w))
          devices
  unfolding slots_loop present_slots
  slots_loop-Adds zero bus device devices w inv = inr (devices, w, refl, inv, refl)
  slots_loop-Adds (suc k) bus device devices w inv =
      Adds-then (present_device word byte bus device) (present_slots word byte bus (device + 1) k)
        (device_from_pci hardware drivers rounds bus device 0 (devices, w)) devices
        (slots_loop hardware drivers rounds bus (device + 1) k)
        (device_from_pci-Adds bus device devices w inv) (slots_loop-Adds k bus (device + 1))

  buses_loop-Adds :
      (k bus : ℕ) (devices : List Device) (w : World)
      → Inv w
      → Adds
          (present_buses word byte bus k)
          (buses_loop hardware drivers rounds bus k (devices, w))
          devices
  unfolding buses_loop present_buses
  buses_loop-Adds zero bus devices w inv = inr (devices, w, refl, inv, refl)
  buses_loop-Adds (suc k) bus devices w inv =
      Adds-then (present_slots word byte bus 0 32) (present_buses word byte (bus + 1) k)
        (slots_loop hardware drivers rounds bus 0 32 (devices, w)) devices
        (buses_loop hardware drivers rounds (bus + 1) k) (slots_loop-Adds 32 bus 0 devices w inv)
        (buses_loop-Adds k (bus + 1))

  -- Let the configuration space read the same as long as the kernel scans it, every driver have a
  -- function to offer a device to, and no driver name a device by vendor and product; more than 0xffff
  -- rounds are enough for the loop over the drivers. Then `init_devices` ends, or stops in `panic`
  -- because the allocator has no memory for a device. If it ends, it has put exactly the functions
  -- that are present in front of the list, the last one found first: function 0 of every device of the
  -- 256 buses with 32 devices each, and the functions 1 to 7 where bit 7 of the byte at offset 0x0c of
  -- function 0 is set.
  pub init_devices-Adds :
      (devices : List Device) (w : World)
      → Inv w
      → Adds
          (present_buses word byte 0 256)
          (init_devices hardware drivers rounds (devices, w))
          devices
  unfolding init_devices
  init_devices-Adds devices w inv = buses_loop-Adds 256 0 devices w inv
