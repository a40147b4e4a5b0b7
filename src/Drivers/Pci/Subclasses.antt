-- ===== src/Drivers/Pci/Subclasses.antt =====
-- drivers/pci_names.c, the table of the names of the subclasses.
use wolf_os.Base.{ℕ, List, [], ◌∷◌}
use wolf_os.Console.Numbers.{Text}

unfoldable pub mass_storage_names : List (ℕ × Text)
mass_storage_names =
    (
      0x00,
      (b'S' ∷ b'C' ∷ b'S' ∷ b'I' ∷ b' ' ∷ b'B' ∷ b'u' ∷ b's' ∷ b' ' ∷ b'C' ∷ b'o' ∷ b'n' ∷ b't'
          ∷ b'r' ∷ b'o' ∷ b'l' ∷ b'l' ∷ b'e' ∷ b'r' ∷ []),
    )
    ∷ (
      0x01,
      (b'I' ∷ b'D' ∷ b'E' ∷ b' ' ∷ b'C' ∷ b'o' ∷ b'n' ∷ b't' ∷ b'r' ∷ b'o' ∷ b'l' ∷ b'l' ∷ b'e'
          ∷ b'r' ∷ []),
    )
    ∷ (
      0x02,
      (b'F' ∷ b'l' ∷ b'o' ∷ b'p' ∷ b'p' ∷ b'y' ∷ b' ' ∷ b'D' ∷ b'i' ∷ b's' ∷ b'k' ∷ b' ' ∷ b'C'
          ∷ b'o' ∷ b'n' ∷ b't' ∷ b'r' ∷ b'o' ∷ b'l' ∷ b'l' ∷ b'e' ∷ b'r' ∷ []),
    )
    ∷ (
      0x03,
      (b'I' ∷ b'P' ∷ b'I' ∷ b' ' ∷ b'B' ∷ b'u' ∷ b's' ∷ b' ' ∷ b'C' ∷ b'o' ∷ b'n' ∷ b't' ∷ b'r'
          ∷ b'o' ∷ b'l' ∷ b'l' ∷ b'e' ∷ b'r' ∷ []),
    )
    ∷ (
      0x04,
      (b'R' ∷ b'A' ∷ b'I' ∷ b'D' ∷ b' ' ∷ b'C' ∷ b'o' ∷ b'n' ∷ b't' ∷ b'r' ∷ b'o' ∷ b'l' ∷ b'l'
          ∷ b'e' ∷ b'r' ∷ []),
    )
    ∷ (
      0x05,
      (b'A' ∷ b'T' ∷ b'A' ∷ b' ' ∷ b'C' ∷ b'o' ∷ b'n' ∷ b't' ∷ b'r' ∷ b'o' ∷ b'l' ∷ b'l' ∷ b'e'
          ∷ b'r' ∷ b' ' ∷ b'(' ∷ b'S' ∷ b'i' ∷ b'n' ∷ b'g' ∷ b'l' ∷ b'e' ∷ b' ' ∷ b'D' ∷ b'M' ∷ b'A'
          ∷ b')' ∷ []),
    )
    ∷ (
      0x06,
      (b'S' ∷ b'e' ∷ b'r' ∷ b'i' ∷ b'a' ∷ b'l' ∷ b' ' ∷ b'A' ∷ b'T' ∷ b'A' ∷ b' ' ∷ b'(' ∷ b'S'
          ∷ b'A' ∷ b'T' ∷ b'A' ∷ b')' ∷ b' ' ∷ b'C' ∷ b'o' ∷ b'n' ∷ b't' ∷ b'r' ∷ b'o' ∷ b'l' ∷ b'l'
          ∷ b'e' ∷ b'r' ∷ []),
    )
    ∷ (
      0x07,
      (b'S' ∷ b'e' ∷ b'r' ∷ b'i' ∷ b'a' ∷ b'l' ∷ b' ' ∷ b'A' ∷ b't' ∷ b't' ∷ b'a' ∷ b'c' ∷ b'h'
          ∷ b'e' ∷ b'd' ∷ b' ' ∷ b'S' ∷ b'C' ∷ b'S' ∷ b'I' ∷ b' ' ∷ b'(' ∷ b'S' ∷ b'A' ∷ b'S' ∷ b')'
          ∷ b' ' ∷ b'C' ∷ b'o' ∷ b'n' ∷ b't' ∷ b'r' ∷ b'o' ∷ b'l' ∷ b'l' ∷ b'e' ∷ b'r' ∷ []),
    )
    ∷ (
      0x08,
      (b'N' ∷ b'o' ∷ b'n' ∷ b'-' ∷ b'V' ∷ b'o' ∷ b'l' ∷ b'a' ∷ b't' ∷ b'i' ∷ b'l' ∷ b'e' ∷ b' '
          ∷ b'M' ∷ b'e' ∷ b'm' ∷ b'o' ∷ b'r' ∷ b'y' ∷ b' ' ∷ b'C' ∷ b'o' ∷ b'n' ∷ b't' ∷ b'r' ∷ b'o'
          ∷ b'l' ∷ b'l' ∷ b'e' ∷ b'r' ∷ b' ' ∷ b'(' ∷ b'N' ∷ b'V' ∷ b'M' ∷ b'e' ∷ b')' ∷ []),
    )
    ∷ (
      0x80,
      (b'O' ∷ b't' ∷ b'h' ∷ b'e' ∷ b'r' ∷ b' ' ∷ b'M' ∷ b'a' ∷ b's' ∷ b's' ∷ b' ' ∷ b'S' ∷ b't'
          ∷ b'o' ∷ b'r' ∷ b'a' ∷ b'g' ∷ b'e' ∷ b' ' ∷ b'C' ∷ b'o' ∷ b'n' ∷ b't' ∷ b'r' ∷ b'o' ∷ b'l'
          ∷ b'l' ∷ b'e' ∷ b'r' ∷ []),
    )
    ∷ []

unfoldable pub network_names : List (ℕ × Text)
network_names =
    (
      0x00,
      (b'E' ∷ b't' ∷ b'h' ∷ b'e' ∷ b'r' ∷ b'n' ∷ b'e' ∷ b't' ∷ b' ' ∷ b'C' ∷ b'o' ∷ b'n' ∷ b't'
          ∷ b'r' ∷ b'o' ∷ b'l' ∷ b'l' ∷ b'e' ∷ b'r' ∷ []),
    )
    ∷ (
      0x01,
      (b'T' ∷ b'o' ∷ b'k' ∷ b'e' ∷ b'n' ∷ b' ' ∷ b'R' ∷ b'i' ∷ b'n' ∷ b'g' ∷ b' ' ∷ b'C' ∷ b'o'
          ∷ b'n' ∷ b't' ∷ b'r' ∷ b'o' ∷ b'l' ∷ b'l' ∷ b'e' ∷ b'r' ∷ []),
    )
    ∷ (
      0x02,
      (b'F' ∷ b'D' ∷ b'D' ∷ b'I' ∷ b' ' ∷ b'C' ∷ b'o' ∷ b'n' ∷ b't' ∷ b'r' ∷ b'o' ∷ b'l' ∷ b'l'
          ∷ b'e' ∷ b'r' ∷ []),
    )
    ∷ (
      0x03,
      (b'A' ∷ b'T' ∷ b'M' ∷ b' ' ∷ b'C' ∷ b'o' ∷ b'n' ∷ b't' ∷ b'r' ∷ b'o' ∷ b'l' ∷ b'l' ∷ b'e'
          ∷ b'r' ∷ []),
    )
    ∷ (
      0x04,
      (b'I' ∷ b'S' ∷ b'D' ∷ b'N' ∷ b' ' ∷ b'C' ∷ b'o' ∷ b'n' ∷ b't' ∷ b'r' ∷ b'o' ∷ b'l' ∷ b'l'
          ∷ b'e' ∷ b'r' ∷ []),
    )
    ∷ (
      0x80,
      (b'O' ∷ b't' ∷ b'h' ∷ b'e' ∷ b'r' ∷ b' ' ∷ b'N' ∷ b'e' ∷ b't' ∷ b'w' ∷ b'o' ∷ b'r' ∷ b'k'
          ∷ b' ' ∷ b'C' ∷ b'o' ∷ b'n' ∷ b't' ∷ b'r' ∷ b'o' ∷ b'l' ∷ b'l' ∷ b'e' ∷ b'r' ∷ []),
    )
    ∷ []

unfoldable pub display_names : List (ℕ × Text)
display_names =
    (
      0x00,
      (b'V' ∷ b'G' ∷ b'A' ∷ b' ' ∷ b'C' ∷ b'o' ∷ b'm' ∷ b'p' ∷ b'a' ∷ b't' ∷ b'i' ∷ b'b' ∷ b'l'
          ∷ b'e' ∷ b' ' ∷ b'C' ∷ b'o' ∷ b'n' ∷ b't' ∷ b'r' ∷ b'o' ∷ b'l' ∷ b'l' ∷ b'e' ∷ b'r' ∷ []),
    )
    ∷ (
      0x01,
      (b'X' ∷ b'G' ∷ b'A' ∷ b' ' ∷ b'C' ∷ b'o' ∷ b'n' ∷ b't' ∷ b'r' ∷ b'o' ∷ b'l' ∷ b'l' ∷ b'e'
          ∷ b'r' ∷ []),
    )
    ∷ (
      0x02,
      (b'3' ∷ b'D' ∷ b' ' ∷ b'C' ∷ b'o' ∷ b'n' ∷ b't' ∷ b'r' ∷ b'o' ∷ b'l' ∷ b'l' ∷ b'e' ∷ b'r'
          ∷ b' ' ∷ b'(' ∷ b'N' ∷ b'o' ∷ b't' ∷ b' ' ∷ b'V' ∷ b'G' ∷ b'A' ∷ b'-' ∷ b'C' ∷ b'o' ∷ b'm'
          ∷ b'p' ∷ b'a' ∷ b't' ∷ b'i' ∷ b'b' ∷ b'l' ∷ b'e' ∷ b')' ∷ []),
    )
    ∷ (
      0x80,
      (b'O' ∷ b't' ∷ b'h' ∷ b'e' ∷ b'r' ∷ b' ' ∷ b'D' ∷ b'i' ∷ b's' ∷ b'p' ∷ b'l' ∷ b'a' ∷ b'y'
          ∷ b' ' ∷ b'C' ∷ b'o' ∷ b'n' ∷ b't' ∷ b'r' ∷ b'o' ∷ b'l' ∷ b'l' ∷ b'e' ∷ b'r' ∷ []),
    )
    ∷ []

unfoldable pub bridge_names : List (ℕ × Text)
bridge_names =
    (0x00, (b'H' ∷ b'o' ∷ b's' ∷ b't' ∷ b' ' ∷ b'B' ∷ b'r' ∷ b'i' ∷ b'd' ∷ b'g' ∷ b'e' ∷ []))
    ∷ (0x01, (b'I' ∷ b'S' ∷ b'A' ∷ b' ' ∷ b'B' ∷ b'r' ∷ b'i' ∷ b'd' ∷ b'g' ∷ b'e' ∷ []))
    ∷ (0x02, (b'E' ∷ b'I' ∷ b'S' ∷ b'A' ∷ b' ' ∷ b'B' ∷ b'r' ∷ b'i' ∷ b'd' ∷ b'g' ∷ b'e' ∷ []))
    ∷ (0x03, (b'M' ∷ b'C' ∷ b'A' ∷ b' ' ∷ b'B' ∷ b'r' ∷ b'i' ∷ b'd' ∷ b'g' ∷ b'e' ∷ []))
    ∷ (
      0x04,
      (b'P' ∷ b'C' ∷ b'I' ∷ b'-' ∷ b't' ∷ b'o' ∷ b'-' ∷ b'P' ∷ b'C' ∷ b'I' ∷ b' ' ∷ b'B' ∷ b'r'
          ∷ b'i' ∷ b'd' ∷ b'g' ∷ b'e' ∷ []),
    )
    ∷ (
      0x05,
      (b'P' ∷ b'C' ∷ b'M' ∷ b'C' ∷ b'I' ∷ b'A' ∷ b' ' ∷ b'B' ∷ b'r' ∷ b'i' ∷ b'd' ∷ b'g' ∷ b'e'
          ∷ []),
    )
    ∷ (
      0x06,
      (b'N' ∷ b'u' ∷ b'B' ∷ b'u' ∷ b's' ∷ b' ' ∷ b'B' ∷ b'r' ∷ b'i' ∷ b'd' ∷ b'g' ∷ b'e' ∷ []),
    )
    ∷ (
      0x07,
      (b'C' ∷ b'a' ∷ b'r' ∷ b'd' ∷ b'B' ∷ b'u' ∷ b's' ∷ b' ' ∷ b'B' ∷ b'r' ∷ b'i' ∷ b'd' ∷ b'g'
          ∷ b'e' ∷ []),
    )
    ∷ (
      0x08,
      (b'R' ∷ b'A' ∷ b'C' ∷ b'E' ∷ b'w' ∷ b'a' ∷ b'y' ∷ b' ' ∷ b'B' ∷ b'r' ∷ b'i' ∷ b'd' ∷ b'g'
          ∷ b'e' ∷ []),
    )
    ∷ (
      0x09,
      (b'P' ∷ b'C' ∷ b'I' ∷ b'-' ∷ b't' ∷ b'o' ∷ b'-' ∷ b'P' ∷ b'C' ∷ b'I' ∷ b' ' ∷ b'B' ∷ b'r'
          ∷ b'i' ∷ b'd' ∷ b'g' ∷ b'e' ∷ b' ' ∷ b'(' ∷ b'S' ∷ b'e' ∷ b'm' ∷ b'i' ∷ b'-' ∷ b'T' ∷ b'r'
          ∷ b'a' ∷ b'n' ∷ b's' ∷ b'p' ∷ b'a' ∷ b'r' ∷ b'e' ∷ b'n' ∷ b't' ∷ b')' ∷ []),
    )
    ∷ (
      0x0a,
      (b'I' ∷ b'n' ∷ b'f' ∷ b'i' ∷ b'n' ∷ b'i' ∷ b'B' ∷ b'a' ∷ b'n' ∷ b'd' ∷ b'-' ∷ b't' ∷ b'o'
          ∷ b'-' ∷ b'P' ∷ b'C' ∷ b'I' ∷ b' ' ∷ b'H' ∷ b'o' ∷ b's' ∷ b't' ∷ b' ' ∷ b'B' ∷ b'r' ∷ b'i'
          ∷ b'd' ∷ b'g' ∷ b'e' ∷ []),
    )
    ∷ (
      0x80,
      (b'O' ∷ b't' ∷ b'h' ∷ b'e' ∷ b'r' ∷ b' ' ∷ b'B' ∷ b'r' ∷ b'i' ∷ b'd' ∷ b'g' ∷ b'e' ∷ b' '
          ∷ b'D' ∷ b'e' ∷ b'v' ∷ b'i' ∷ b'c' ∷ b'e' ∷ []),
    )
    ∷ []

unfoldable pub serial_bus_names : List (ℕ × Text)
serial_bus_names =
    (
      0x00,
      (b'F' ∷ b'i' ∷ b'r' ∷ b'e' ∷ b'W' ∷ b'i' ∷ b'r' ∷ b'e' ∷ b' ' ∷ b'(' ∷ b'I' ∷ b'E' ∷ b'E'
          ∷ b'E' ∷ b' ' ∷ b'1' ∷ b'3' ∷ b'9' ∷ b'4' ∷ b')' ∷ b' ' ∷ b'C' ∷ b'o' ∷ b'n' ∷ b't' ∷ b'r'
          ∷ b'o' ∷ b'l' ∷ b'l' ∷ b'e' ∷ b'r' ∷ []),
    )
    ∷ (
      0x01,
      (b'A' ∷ b'C' ∷ b'C' ∷ b'E' ∷ b'S' ∷ b'S' ∷ b' ' ∷ b'B' ∷ b'u' ∷ b's' ∷ b' ' ∷ b'C' ∷ b'o'
          ∷ b'n' ∷ b't' ∷ b'r' ∷ b'o' ∷ b'l' ∷ b'l' ∷ b'e' ∷ b'r' ∷ []),
    )
    ∷ (
      0x02,
      (b'S' ∷ b'S' ∷ b'A' ∷ b' ' ∷ b'C' ∷ b'o' ∷ b'n' ∷ b't' ∷ b'r' ∷ b'o' ∷ b'l' ∷ b'l' ∷ b'e'
          ∷ b'r' ∷ []),
    )
    ∷ (
      0x03,
      (b'U' ∷ b'S' ∷ b'B' ∷ b' ' ∷ b'C' ∷ b'o' ∷ b'n' ∷ b't' ∷ b'r' ∷ b'o' ∷ b'l' ∷ b'l' ∷ b'e'
          ∷ b'r' ∷ []),
    )
    ∷ (
      0x04,
      (b'F' ∷ b'i' ∷ b'b' ∷ b'r' ∷ b'e' ∷ b' ' ∷ b'C' ∷ b'h' ∷ b'a' ∷ b'n' ∷ b'n' ∷ b'e' ∷ b'l'
          ∷ b' ' ∷ b'C' ∷ b'o' ∷ b'n' ∷ b't' ∷ b'r' ∷ b'o' ∷ b'l' ∷ b'l' ∷ b'e' ∷ b'r' ∷ []),
    )
    ∷ (
      0x05,
      (b'S' ∷ b'M' ∷ b'B' ∷ b'u' ∷ b's' ∷ b' ' ∷ b'C' ∷ b'o' ∷ b'n' ∷ b't' ∷ b'r' ∷ b'o' ∷ b'l'
          ∷ b'l' ∷ b'e' ∷ b'r' ∷ []),
    )
    ∷ (
      0x06,
      (b'I' ∷ b'n' ∷ b'f' ∷ b'i' ∷ b'n' ∷ b'i' ∷ b'B' ∷ b'a' ∷ b'n' ∷ b'd' ∷ b' ' ∷ b'C' ∷ b'o'
          ∷ b'n' ∷ b't' ∷ b'r' ∷ b'o' ∷ b'l' ∷ b'l' ∷ b'e' ∷ b'r' ∷ []),
    )
    ∷ (
      0x07,
      (b'I' ∷ b'P' ∷ b'M' ∷ b'I' ∷ b' ' ∷ b'I' ∷ b'n' ∷ b't' ∷ b'e' ∷ b'r' ∷ b'f' ∷ b'a' ∷ b'c'
          ∷ b'e' ∷ []),
    )
    ∷ (
      0x08,
      (b'S' ∷ b'E' ∷ b'R' ∷ b'C' ∷ b'O' ∷ b'S' ∷ b' ' ∷ b'I' ∷ b'n' ∷ b't' ∷ b'e' ∷ b'r' ∷ b'f'
          ∷ b'a' ∷ b'c' ∷ b'e' ∷ []),
    )
    ∷ (
      0x09,
      (b'C' ∷ b'A' ∷ b'N' ∷ b'b' ∷ b'u' ∷ b's' ∷ b' ' ∷ b'C' ∷ b'o' ∷ b'n' ∷ b't' ∷ b'r' ∷ b'o'
          ∷ b'l' ∷ b'l' ∷ b'e' ∷ b'r' ∷ []),
    )
    ∷ (
      0x80,
      (b'O' ∷ b't' ∷ b'h' ∷ b'e' ∷ b'r' ∷ b' ' ∷ b'S' ∷ b'e' ∷ b'r' ∷ b'i' ∷ b'a' ∷ b'l' ∷ b' '
          ∷ b'B' ∷ b'u' ∷ b's' ∷ b' ' ∷ b'C' ∷ b'o' ∷ b'n' ∷ b't' ∷ b'r' ∷ b'o' ∷ b'l' ∷ b'l' ∷ b'e'
          ∷ b'r' ∷ []),
    )
    ∷ []

unfoldable pub subclass_names : List (ℕ × List (ℕ × Text))
subclass_names =
    (0x01, mass_storage_names)
    ∷ (0x02, network_names)
    ∷ (0x03, display_names)
    ∷ (0x06, bridge_names)
    ∷ (0x0c, serial_bus_names)
    ∷ []
