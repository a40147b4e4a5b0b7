-- ===== src/Drivers/Pci/Names.antt =====
-- drivers/pci_names.c: the names of the classes and the subclasses of PCI devices. An array is the
-- list of what it names; the rest are null pointers.
use wolf_os.Base.{ℕ, List, [], ◌∷◌, Option, none, some, ◌>>=◌, ◌==◌, if◌then◌else◌}
use wolf_os.Console.Numbers.{Text}
use wolf_os.Drivers.Pci.Subclasses.{subclass_names}

-- What an array holds at an index.
unfoldable pub named : {A : Type 0} → List (ℕ × A) → (index : ℕ) → Option A
named [] i = none
named ((j, a) ∷ rest) i = let others = named rest i in if j == i then some a else others

unfoldable pub class_names : List (ℕ × Text)
class_names =
    (0x00, (b'U' ∷ b'n' ∷ b'c' ∷ b'l' ∷ b'a' ∷ b's' ∷ b's' ∷ b'i' ∷ b'f' ∷ b'i' ∷ b'e' ∷ b'd' ∷ []))
    ∷ (
      0x01,
      (b'M' ∷ b'a' ∷ b's' ∷ b's' ∷ b' ' ∷ b'S' ∷ b't' ∷ b'o' ∷ b'r' ∷ b'a' ∷ b'g' ∷ b'e' ∷ b' '
          ∷ b'C' ∷ b'o' ∷ b'n' ∷ b't' ∷ b'r' ∷ b'o' ∷ b'l' ∷ b'l' ∷ b'e' ∷ b'r' ∷ []),
    )
    ∷ (
      0x02,
      (b'N' ∷ b'e' ∷ b't' ∷ b'w' ∷ b'o' ∷ b'r' ∷ b'k' ∷ b' ' ∷ b'C' ∷ b'o' ∷ b'n' ∷ b't' ∷ b'r'
          ∷ b'o' ∷ b'l' ∷ b'l' ∷ b'e' ∷ b'r' ∷ []),
    )
    ∷ (
      0x03,
      (b'D' ∷ b'i' ∷ b's' ∷ b'p' ∷ b'l' ∷ b'a' ∷ b'y' ∷ b' ' ∷ b'C' ∷ b'o' ∷ b'n' ∷ b't' ∷ b'r'
          ∷ b'o' ∷ b'l' ∷ b'l' ∷ b'e' ∷ b'r' ∷ []),
    )
    ∷ (
      0x04,
      (b'M' ∷ b'u' ∷ b'l' ∷ b't' ∷ b'i' ∷ b'm' ∷ b'e' ∷ b'd' ∷ b'i' ∷ b'a' ∷ b' ' ∷ b'C' ∷ b'o'
          ∷ b'n' ∷ b't' ∷ b'r' ∷ b'o' ∷ b'l' ∷ b'l' ∷ b'e' ∷ b'r' ∷ []),
    )
    ∷ (
      0x05,
      (b'M' ∷ b'e' ∷ b'm' ∷ b'o' ∷ b'r' ∷ b'y' ∷ b' ' ∷ b'C' ∷ b'o' ∷ b'n' ∷ b't' ∷ b'r' ∷ b'o'
          ∷ b'l' ∷ b'l' ∷ b'e' ∷ b'r' ∷ []),
    )
    ∷ (
      0x06,
      (b'B' ∷ b'r' ∷ b'i' ∷ b'd' ∷ b'g' ∷ b'e' ∷ b' ' ∷ b'D' ∷ b'e' ∷ b'v' ∷ b'i' ∷ b'c' ∷ b'e'
          ∷ []),
    )
    ∷ (
      0x07,
      (b'S' ∷ b'i' ∷ b'm' ∷ b'p' ∷ b'l' ∷ b'e' ∷ b' ' ∷ b'C' ∷ b'o' ∷ b'm' ∷ b'm' ∷ b'u' ∷ b'n'
          ∷ b'i' ∷ b'c' ∷ b'a' ∷ b't' ∷ b'i' ∷ b'o' ∷ b'n' ∷ b's' ∷ b' ' ∷ b'C' ∷ b'o' ∷ b'n' ∷ b't'
          ∷ b'r' ∷ b'o' ∷ b'l' ∷ b'l' ∷ b'e' ∷ b'r' ∷ []),
    )
    ∷ (
      0x08,
      (b'B' ∷ b'a' ∷ b's' ∷ b'e' ∷ b' ' ∷ b'S' ∷ b'y' ∷ b's' ∷ b't' ∷ b'e' ∷ b'm' ∷ b' ' ∷ b'P'
          ∷ b'e' ∷ b'r' ∷ b'i' ∷ b'p' ∷ b'h' ∷ b'e' ∷ b'r' ∷ b'a' ∷ b'l' ∷ []),
    )
    ∷ (
      0x09,
      (b'I' ∷ b'n' ∷ b'p' ∷ b'u' ∷ b't' ∷ b' ' ∷ b'D' ∷ b'e' ∷ b'v' ∷ b'i' ∷ b'c' ∷ b'e' ∷ []),
    )
    ∷ (
      0x0a,
      (b'D' ∷ b'o' ∷ b'c' ∷ b'k' ∷ b'i' ∷ b'n' ∷ b'g' ∷ b' ' ∷ b'S' ∷ b't' ∷ b'a' ∷ b't' ∷ b'i'
          ∷ b'o' ∷ b'n' ∷ []),
    )
    ∷ (0x0b, (b'P' ∷ b'r' ∷ b'o' ∷ b'c' ∷ b'e' ∷ b's' ∷ b's' ∷ b'o' ∷ b'r' ∷ []))
    ∷ (
      0x0c,
      (b'S' ∷ b'e' ∷ b'r' ∷ b'i' ∷ b'a' ∷ b'l' ∷ b' ' ∷ b'B' ∷ b'u' ∷ b's' ∷ b' ' ∷ b'C' ∷ b'o'
          ∷ b'n' ∷ b't' ∷ b'r' ∷ b'o' ∷ b'l' ∷ b'l' ∷ b'e' ∷ b'r' ∷ []),
    )
    ∷ (
      0x0d,
      (b'W' ∷ b'i' ∷ b'r' ∷ b'e' ∷ b'l' ∷ b'e' ∷ b's' ∷ b's' ∷ b' ' ∷ b'C' ∷ b'o' ∷ b'n' ∷ b't'
          ∷ b'r' ∷ b'o' ∷ b'l' ∷ b'l' ∷ b'e' ∷ b'r' ∷ []),
    )
    ∷ (
      0x0e,
      (b'I' ∷ b'n' ∷ b't' ∷ b'e' ∷ b'l' ∷ b'l' ∷ b'i' ∷ b'g' ∷ b'e' ∷ b'n' ∷ b't' ∷ b' ' ∷ b'I'
          ∷ b'/' ∷ b'O' ∷ b' ' ∷ b'C' ∷ b'o' ∷ b'n' ∷ b't' ∷ b'r' ∷ b'o' ∷ b'l' ∷ b'l' ∷ b'e' ∷ b'r'
          ∷ []),
    )
    ∷ (
      0x0f,
      (b'S' ∷ b'a' ∷ b't' ∷ b'e' ∷ b'l' ∷ b'l' ∷ b'i' ∷ b't' ∷ b'e' ∷ b' ' ∷ b'C' ∷ b'o' ∷ b'm'
          ∷ b'm' ∷ b'u' ∷ b'n' ∷ b'i' ∷ b'c' ∷ b'a' ∷ b't' ∷ b'i' ∷ b'o' ∷ b'n' ∷ b's' ∷ b' ' ∷ b'C'
          ∷ b'o' ∷ b'n' ∷ b't' ∷ b'r' ∷ b'o' ∷ b'l' ∷ b'l' ∷ b'e' ∷ b'r' ∷ []),
    )
    ∷ (
      0x10,
      (b'E' ∷ b'n' ∷ b'c' ∷ b'r' ∷ b'y' ∷ b'p' ∷ b't' ∷ b'i' ∷ b'o' ∷ b'n' ∷ b'/' ∷ b'D' ∷ b'e'
          ∷ b'c' ∷ b'r' ∷ b'y' ∷ b'p' ∷ b't' ∷ b'i' ∷ b'o' ∷ b'n' ∷ b' ' ∷ b'C' ∷ b'o' ∷ b'n' ∷ b't'
          ∷ b'r' ∷ b'o' ∷ b'l' ∷ b'l' ∷ b'e' ∷ b'r' ∷ []),
    )
    ∷ (
      0x11,
      (b'S' ∷ b'i' ∷ b'g' ∷ b'n' ∷ b'a' ∷ b'l' ∷ b' ' ∷ b'P' ∷ b'r' ∷ b'o' ∷ b'c' ∷ b'e' ∷ b's'
          ∷ b's' ∷ b'i' ∷ b'n' ∷ b'g' ∷ b' ' ∷ b'C' ∷ b'o' ∷ b'n' ∷ b't' ∷ b'r' ∷ b'o' ∷ b'l' ∷ b'l'
          ∷ b'e' ∷ b'r' ∷ []),
    )
    ∷ (
      0x12,
      (b'P' ∷ b'r' ∷ b'o' ∷ b'c' ∷ b'e' ∷ b's' ∷ b's' ∷ b'i' ∷ b'n' ∷ b'g' ∷ b' ' ∷ b'A' ∷ b'c'
          ∷ b'c' ∷ b'e' ∷ b'l' ∷ b'e' ∷ b'r' ∷ b'a' ∷ b't' ∷ b'o' ∷ b'r' ∷ []),
    )
    ∷ (
      0x13,
      (b'N' ∷ b'o' ∷ b'n' ∷ b'-' ∷ b'E' ∷ b's' ∷ b's' ∷ b'e' ∷ b'n' ∷ b't' ∷ b'i' ∷ b'a' ∷ b'l'
          ∷ b' ' ∷ b'I' ∷ b'n' ∷ b's' ∷ b't' ∷ b'r' ∷ b'u' ∷ b'm' ∷ b'e' ∷ b'n' ∷ b't' ∷ b'a' ∷ b't'
          ∷ b'i' ∷ b'o' ∷ b'n' ∷ []),
    )
    ∷ (
      0xff,
      (b'U' ∷ b'n' ∷ b'a' ∷ b's' ∷ b's' ∷ b'i' ∷ b'g' ∷ b'n' ∷ b'e' ∷ b'd' ∷ b'/' ∷ b'U' ∷ b'n'
          ∷ b'k' ∷ b'n' ∷ b'o' ∷ b'w' ∷ b'n' ∷ []),
    )
    ∷ []

-- "Reserved/Unknown"
abbrev pub reserved_name : Text
reserved_name =
    b'R' ∷ b'e' ∷ b's' ∷ b'e' ∷ b'r' ∷ b'v' ∷ b'e' ∷ b'd' ∷ b'/' ∷ b'U' ∷ b'n' ∷ b'k' ∷ b'n' ∷ b'o'
    ∷ b'w' ∷ b'n' ∷ []

abbrev pub or_reserved : Option Text → Text
or_reserved none = reserved_name
or_reserved (some name) = name

unfoldable pub pci_class_name : (class_code : ℕ) → Text
pci_class_name class_code = or_reserved (named class_names class_code)

unfoldable pub pci_subclass_name : (class_code subclass_code : ℕ) → Text
pci_subclass_name class_code subclass_code =
    or_reserved (named subclass_names class_code >>= λ names. named names subclass_code)
