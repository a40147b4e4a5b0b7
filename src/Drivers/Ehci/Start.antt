-- ===== src/Drivers/Ehci/Start.antt =====
-- `bind_device_pci` of the EHCI driver ends, as long as the controller answers.
use wolf_os.Base.{
  ℕ, zero, suc, ◌+◌, ◌*◌, ◌/◌, ◌%◌, ◌≡◌, ap, ◌∙◌, ◌⊎◌, Bool, not, List, [], ◌∷◌, Option, some,
  bit_or, ◌==◌,
}
use wolf_os.Base.Words.{add32, ◌<<◌}
use wolf_os.Drivers.Pci.{pci_read_word, pci_read_dword, pci_write_word, pci_write_dword}
use wolf_os.Drivers.Ehci.{EhciKernel, Io, ◌>>=◌, go_on, await, any_of, op_usbcmd, op_usbsts}
use wolf_os.Drivers.Ehci.Bind.{is_halted, is_handed_over, usbcmd_start, reset_port}

module _ {World : Type 0} where
  abbrev Ends : {A : Type 0} → Option (A × World) → Type 0
  Ends {A = A} outcome = (out : A × World) × (outcome ≡ some out)

  abbrev Returns : {A : Type 0} → Io World A → Type 0
  Returns m = (w : World) → Ends (m w)

  Ends-go_on :
      {A B : Type 0} (o : Option (A × World)) (k : A → Io World B)
      → Ends o
      → ((a : A) → Returns (k a))
      → Ends (go_on o k)
  Ends-go_on o k ((a, w), e) next = let (out, e') = next a w in (out, ap (λ r. go_on r k) e ∙ e')

  Returns-bind :
      {A B : Type 0} (m : Io World A) (k : A → Io World B)
      → Returns m
      → ((a : A) → Returns (k a))
      → Returns (m >>= k)
  Returns-bind m k first next w = Ends-go_on (m w) k (first w) next

module _ {World : Type 0} (kernel : EhciKernel World) (rounds : ℕ) where
  open kernel use {ports, load32, store32, wait}

  -- The controller ends a reset, and then halts; it starts when it is told to; and the BIOS hands it
  -- over when it is asked for it. Each is seen within the rounds.
  pub record Answers : Type 0 where
    pub resets :
        (op : ℕ) (w : World)
        → Ends (await rounds (load32 (add32 op op_usbcmd)) (λ v. not (any_of v 2)) w)
    pub halts :
        (op v : ℕ) (w w' : World)
        → await rounds (load32 (add32 op op_usbcmd)) (λ v. not (any_of v 2)) w ≡ some (v, w')
        → Ends (await rounds (load32 (add32 op op_usbsts)) is_halted w')
    pub starts :
        (op : ℕ) (w : World)
        → Ends (
            await rounds
              (load32 (add32 op op_usbsts))
              (λ v. not (is_halted v))
              (store32 (add32 op op_usbcmd) usbcmd_start w))
    pub hands_over :
        (bus slot func offset legsup : ℕ) (w : World)
        → Ends (
            await rounds
              (pci_read_dword ports bus slot func offset)
              is_handed_over
              (pci_write_dword ports bus slot func offset (bit_or legsup (1 << 24)) w))

  -- What is found on the ports from i on, with so many left: a port is found if bit 0 of its register
  -- is set, and with it bit 2 of the status after the reset. Each is looked at in the state that the
  -- one before it left.
  abbrev pub Visits : (op i left : ℕ) → World → (found : List (ℕ × Bool)) → Type 0
  Visits op i zero w found = found ≡ []
  Visits op i (suc k) w found =
      let (base, w1) = load32 (add32 op 0x44) w in
      let port = add32 base (4 * i) in
      let (register, w2) = load32 port w1 in
      let (status, w3) = reset_port kernel port w2 in
      ((register % 2 ≡ 0) × Visits op (i + 1) k w2 found)
      ⊎ ((register % 2 ≡ 1)
          × (others : List (ℕ × Bool)) × (found ≡ (i, status / 4 % 2 == 1) ∷ others)
          × Visits op (i + 1) k w3 others)

  -- The offset of the registers and the structural parameters of the controller, as the function reads
  -- them.
  abbrev pub capabilities : (bus slot func cap : ℕ) → World → ℕ × ℕ
  capabilities bus slot func cap w =
      let (caplength, w1) = kernel.load8 cap w in
      let (cmd, w2) = pci_read_word ports bus slot func 0x04 w1 in
      let w3 = pci_write_word ports bus slot func 0x04 (bit_or cmd 6) w2 in
      let w4 = (kernel.load8 cap w3).1 in
      let w5 = (kernel.load8 cap w4).1 in (caplength, (load32 (add32 cap 4) w5).0)

  -- A run that ends with what is found on the n ports, from the state that the start of the
  -- controller left.
  abbrev pub EndsVisits : (op n : ℕ) → Option (List (ℕ × Bool) × World) → Type 0
  EndsVisits op n outcome =
      (out : List (ℕ × Bool) × World) × (outcome ≡ some out)
      × (started : World) × Visits op 0 n started (out.0)
