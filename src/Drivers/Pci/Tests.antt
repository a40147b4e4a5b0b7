-- ===== src/Drivers/Pci/Tests.antt =====
-- drivers/pci.c on a bus that keeps a function from addresses to dwords, and names of drivers/pci_names.c.
use wolf_os.Base.{ℕ, [], ◌∷◌, ◌≡◌, refl, arith, ◌==◌, if◌then◌else◌}
use wolf_os.Base.Words.{u32}
use wolf_os.Drivers.Pci.{Ports, pci_read_word, pci_write_word}
use wolf_os.Drivers.Pci.Names.{named, class_names, reserved_name, pci_class_name, pci_subclass_name}
use wolf_os.Drivers.Pci.Subclasses.{subclass_names, serial_bus_names}
use wolf_os.Drivers.Pci.Access.{IsConfigSpace, pci_read_word-pci_write_word}

record Bus : Type 0 where
  address : ℕ
  registers : ℕ → ℕ

abbrev inl_on : (port : ℕ) → Bus → ℕ × Bus
inl_on port b = (if port == 0xcfc then u32 (b.registers b.address) else 0, b)

abbrev outl_on : (port data_out : ℕ) → Bus → Bus
outl_on port v b =
    if port == 0xcf8 then record { address = v; registers = b.registers } else record {
      address = b.address;
      registers = λ x. if x == b.address then v else b.registers x;
    }

abbrev ports_on : Ports Bus
ports_on = record { inl = inl_on; outl = outl_on }

ports_on-IsConfigSpace : IsConfigSpace ports_on
ports_on-IsConfigSpace = record {
  latched = λ b. b.address;
  dword = λ b x. u32 (b.registers x);
  dword_fits = λ b a. omega arith;
  select = λ a b. refl;
  select_dword = λ a x b. refl;
  input = λ b. refl;
  output = λ v x b h. ground arith;
}

abbrev start : Bus
start = record { address = 0; registers = λ x. x }

abbrev one : ℕ
one = 1

pci_read_word-pci_write_word_example :
    (pci_read_word ports_on 0 3 1 6 (pci_write_word ports_on 0 3 1 6 0x1234 start)).0 ≡ 0x1234
pci_read_word-pci_write_word_example =
    pci_read_word-pci_write_word ports_on ports_on-IsConfigSpace 0 3 1 6 0x1234 0 3 1 6 start
      (omega arith) (omega arith) (omega arith)

usb_example :
    pci_subclass_name 0x0c 0x03
    ≡ b'U' ∷ b'S' ∷ b'B' ∷ b' ' ∷ b'C' ∷ b'o' ∷ b'n' ∷ b't' ∷ b'r' ∷ b'o' ∷ b'l' ∷ b'l' ∷ b'e'
      ∷ b'r' ∷ []
unfolding pci_subclass_name named subclass_names serial_bus_names
usb_example = refl

unnamed_example : pci_class_name 0x14 ≡ reserved_name
unfolding pci_class_name named class_names
unnamed_example = refl
