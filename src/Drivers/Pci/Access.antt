-- ===== src/Drivers/Pci/Access.antt =====
-- The access functions on a configuration space that stores what is written.
use wolf_os.Base.{
  ℕ, ◌+◌, ◌*◌, ◌/◌, ◌%◌, ◌^◌, ◌<◌, ◌≡◌, ◌∙◌, sym, ap, Bool, ◌&&◌, false, ◌==◌, if◌then◌else◌, arith,
  bit_and, bit_or, Bool-cases, inl, inr,
}
use wolf_os.Base.Words.{u32, ◌<<◌}
use wolf_os.Base.Bits.{
  bit_and_mask, bit_and_high, bit_and_single, bit_or_fields, bit_or_comm_fields,
}
use wolf_os.Drivers.Pci.{Ports, pci_cfg_addr, pci_read_word, pci_read_byte, pci_write_word}

abbrev pub IsAddress : (bus slot func offset : ℕ) → Type 0
IsAddress bus slot func offset = (bus < 256) × (slot < 32) × (func < 8) × (offset < 256)

-- Two numbers joined by `|` at a place where they do not overlap.
join : (k x q r : ℕ) → x ≡ q * 2 ^ k → r < 2 ^ k → bit_or x r ≡ x + r
join k x q r e h = rw e (bit_or_fields k q r h)

-- The layout of the address register: the enable bit, the bus, the slot, the function and the
-- number of the dword.
pub pci_cfg_addr-fields :
    (bus slot func offset : ℕ)
    → IsAddress bus slot func offset
    → pci_cfg_addr bus slot func offset
      ≡ 2 ^ 31 + bus * 2 ^ 16 + slot * 2 ^ 11 + func * 2 ^ 8 + offset / 4 * 4
unfolding pci_cfg_addr
pci_cfg_addr-fields bus slot func offset (hb, hs, hf, ho) =
    let b : u32 (bus << 16) ≡ bus * 2 ^ 16 = omega arith in
    let s : u32 (slot << 11) ≡ slot * 2 ^ 11 = omega arith in
    let f : u32 (func << 8) ≡ func * 2 ^ 8 = omega arith in
    rw (
      b,
      s,
      f,
      bit_and_high 2 6 offset (omega arith),
      join 31 (2 ^ 31) 1 (bus * 2 ^ 16) (omega arith) (omega arith),
      join 16 (2 ^ 31 + bus * 2 ^ 16) (2 ^ 15 + bus) (slot * 2 ^ 11) (omega arith) (omega arith),
      join 11 (2 ^ 31 + bus * 2 ^ 16 + slot * 2 ^ 11) (2 ^ 20 + bus * 2 ^ 5 + slot) (func * 2 ^ 8)
          (omega arith) (omega arith),
      join 8 (2 ^ 31 + bus * 2 ^ 16 + slot * 2 ^ 11 + func * 2 ^ 8)
          (2 ^ 23 + bus * 2 ^ 8 + slot * 2 ^ 3 + func) (offset / 4 * 4) (omega arith) (omega arith),
    )

-- Configuration mechanism 1: port 0xcf8 latches an address, and port 0xcfc reads and writes the dword
-- at the latched address. The dwords are registers that hold what is written.
pub record IsConfigSpace {Bus : Type 0} (ports : Ports Bus) : Type 0 where
  pub latched : Bus → ℕ
  pub dword : Bus → ℕ → ℕ
  pub dword_fits : (b : Bus) (a : ℕ) → dword b a < 2 ^ 32
  pub select : (a : ℕ) (b : Bus) → latched (ports.outl 0xcf8 a b) ≡ a
  pub select_dword : (a x : ℕ) (b : Bus) → dword (ports.outl 0xcf8 a b) x ≡ dword b x
  pub input : (b : Bus) → ports.inl 0xcfc b ≡ (dword b (latched b), b)
  pub output :
      (v x : ℕ) (b : Bus)
      → v < 2 ^ 32
      → dword (ports.outl 0xcfc v b) x ≡ (if x == latched b then v else dword b x)

-- No two registers share an address: the addresses of two dwords agree only if the bus, the slot, the
-- function and the dword agree.
pub pci_cfg_addr-injective :
    (bus slot func offset bus' slot' func' offset' : ℕ)
    → IsAddress bus slot func offset
    → IsAddress bus' slot' func' offset'
    → pci_cfg_addr bus slot func offset ≡ pci_cfg_addr bus' slot' func' offset'
    → (bus ≡ bus') × (slot ≡ slot') × (func ≡ func') × (offset / 4 ≡ offset' / 4)
pci_cfg_addr-injective bus slot func offset bus' slot' func' offset' h h' e = omega (
  arith,
  pci_cfg_addr-fields bus slot func offset h,
  pci_cfg_addr-fields bus' slot' func' offset' h',
  h,
  h',
)

-- The half of a dword that a word access at an offset is about, and the dword with that half changed.
abbrev pub half : (offset dword : ℕ) → ℕ
half offset d = if offset / 2 % 2 == 0 then d % 2 ^ 16 else d / 2 ^ 16

abbrev pub with_half : (offset dword value : ℕ) → ℕ
with_half offset d v =
    if offset / 2 % 2 == 0 then d / 2 ^ 16 * 2 ^ 16 + v else v * 2 ^ 16 + d % 2 ^ 16

half-with_half :
    (o o' d v : ℕ)
    → v < 2 ^ 16
    → d < 2 ^ 32
    → half o' (with_half o d v) ≡ (if o' / 2 % 2 == o / 2 % 2 then v else half o' d)
half-with_half o o' d v hv hd = ground arith

abbrev pub same_half : (bus slot func offset bus' slot' func' offset' : ℕ) → Bool
same_half bus slot func offset bus' slot' func' offset' =
    (bus' == bus) && (slot' == slot) && (func' == func) && (offset' / 2 == offset / 2)

same_half-of_address :
    (bus slot func offset bus' slot' func' offset' : ℕ)
    → IsAddress bus slot func offset
    → IsAddress bus' slot' func' offset'
    → pci_cfg_addr bus' slot' func' offset' ≡ pci_cfg_addr bus slot func offset
    → same_half bus slot func offset bus' slot' func' offset' ≡ (offset' / 2 % 2 == offset / 2 % 2)
same_half-of_address bus slot func offset bus' slot' func' offset' h h' e =
    ground (arith, pci_cfg_addr-injective bus' slot' func' offset' bus slot func offset h' h e)

same_half-other :
    (bus slot func offset bus' slot' func' offset' : ℕ)
    → IsAddress bus slot func offset
    → IsAddress bus' slot' func' offset'
    → (pci_cfg_addr bus' slot' func' offset' ≡ pci_cfg_addr bus slot func offset → ⊥)
    → same_half bus slot func offset bus' slot' func' offset' ≡ false
same_half-other bus slot func offset bus' slot' func' offset' h h' ne = ground (
  arith,
  ne,
  pci_cfg_addr-fields bus slot func offset h,
  pci_cfg_addr-fields bus' slot' func' offset' h',
)

module _ {Bus : Type 0} (ports : Ports Bus) (space : IsConfigSpace ports) where
  open space use {latched, dword, dword_fits, select, select_dword, input, output}

  module _ (bus slot func offset : ℕ) (b : Bus) where
    abbrev address : ℕ
    address = pci_cfg_addr bus slot func offset

    abbrev stored : ℕ
    stored = dword b address

    input_selected :
        ports.inl 0xcfc (ports.outl 0xcf8 address b) ≡ (stored, ports.outl 0xcf8 address b)
    input_selected = rw (input, select, select_dword)

    half_bit : (bit_and offset 2 == 0) ≡ (offset / 2 % 2 == 0)
    half_bit = ground (arith, bit_and_single 1 offset)

    read_word-half : (pci_read_word ports bus slot func offset b).0 ≡ half offset stored
    unfolding pci_read_word
    read_word-half =
        rw (input_selected, half_bit)
          (ground (
            arith,
            bit_and_mask 16 stored,
            bit_and_mask 16 (stored / 2 ^ 16),
            dword_fits b address,
          ))

    read_byte-digit :
        (pci_read_byte ports bus slot func offset b).0 ≡ stored / 2 ^ (offset % 4 * 8) % 256
    unfolding pci_read_byte
    read_byte-digit =
        rw (input_selected, bit_and_mask 2 offset)
          (omega (arith, bit_and_mask 8 (stored / 2 ^ (offset % 4 * 8))))

    -- What `pci_write_word` writes: the stored dword with one half changed.
    written_half :
        (value : ℕ)
        → value < 2 ^ 16
        → (if bit_and offset 2 == 0
            then bit_or (bit_and stored 0xffff_0000) value
            else bit_or (bit_and stored 0xffff) (u32 (value << 16)))
          ≡ with_half offset stored value
    written_half value h =
        let wide : u32 (value << 16) ≡ value * 2 ^ 16 = omega arith in
        let top : stored / 2 ^ 16 < 2 ^ 16 = omega (arith, dword_fits b address) in
        rw (
          half_bit,
          bit_and_high 16 16 stored top,
          bit_and_mask 16 stored,
          wide,
          bit_or_fields 16 (stored / 2 ^ 16) value h,
          bit_or_comm_fields 16 value (stored % 2 ^ 16) (omega arith),
        )

    with_half-lt : (value : ℕ) → value < 2 ^ 16 → with_half offset stored value < 2 ^ 32
    with_half-lt value h = ground (arith, dword_fits b address)

    write_word-outl :
        (value : ℕ)
        → value < 2 ^ 16
        → pci_write_word ports bus slot func offset value b
          ≡ ports.outl 0xcfc (with_half offset stored value) (ports.outl 0xcf8 address b)
    unfolding pci_write_word
    write_word-outl value h =
        ap
          (λ (r : ℕ × Bus).
            ports.outl 0xcfc
              (if bit_and offset 2 == 0
                then bit_or (bit_and r.0 0xffff_0000) value
                else bit_or (bit_and r.0 0xffff) (u32 (value << 16)))
              r.1)
          input_selected
        ∙ ap (λ next. ports.outl 0xcfc next (ports.outl 0xcf8 address b)) (written_half value h)

    write_word-dword :
        (value x : ℕ)
        → value < 2 ^ 16
        → dword (pci_write_word ports bus slot func offset value b) x
          ≡ (if x == address then with_half offset stored value else dword b x)
    write_word-dword value x h = rw (
      write_word-outl value h,
      output (with_half offset stored value) x (ports.outl 0xcf8 address b) (with_half-lt value h),
      select,
      select_dword,
    )

  -- After `pci_write_word` a word read at the same bus, slot, function and half of a dword gives the
  -- value written, and a word read at any other place gives what it gave before.
  pub pci_read_word-pci_write_word :
      (bus slot func offset value bus' slot' func' offset' : ℕ) (b : Bus)
      → value < 2 ^ 16
      → IsAddress bus slot func offset
      → IsAddress bus' slot' func' offset'
      → (pci_read_word ports bus' slot' func' offset'
          (pci_write_word ports bus slot func offset value b)).0
        ≡ (if same_half bus slot func offset bus' slot' func' offset'
            then value
            else (pci_read_word ports bus' slot' func' offset' b).0)
  pci_read_word-pci_write_word bus slot func offset value bus' slot' func' offset' b hv h h' =
      let a = pci_cfg_addr bus slot func offset in
      let a' = pci_cfg_addr bus' slot' func' offset' in
      let after = pci_write_word ports bus slot func offset value b in
      let same = same_half bus slot func offset bus' slot' func' offset' in
      rw
        (
          read_word-half bus' slot' func' offset' after,
          read_word-half bus' slot' func' offset' b,
          write_word-dword bus slot func offset b value a' hv,
        )
        (elim (Bool-cases (a' == a)) [
          | inl e ↦
              let eq : a' ≡ a = ground arith in
              rw
                (
                  e,
                  half-with_half offset offset' (dword b a) value hv (dword_fits b a),
                  same_half-of_address bus slot func offset bus' slot' func' offset' h h' eq,
                )
                (ap
                  (λ x.
                    if offset' / 2 % 2 == offset / 2 % 2 then value else half offset' (dword b x))
                  (sym eq))
          | inr ne ↦ rw (
            ne,
            same_half-other bus slot func offset bus' slot' func' offset' h h'
                (λ e. absurd (ground arith)),
          )
        ])
