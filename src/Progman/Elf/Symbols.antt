-- ===== src/Progman/Elf/Symbols.antt =====
-- progman/elf.c: symbols. The binary that is loaded and the memory that it is loaded to are kept apart;
-- the kernel's own functions are where the linker put them, a parameter `address_of`.
use wolf_os.Base.{ℕ, ◌+◌, ◌/◌, Bool, ◌&&◌, List, [], ◌∷◌, ◌==◌, if◌then◌else◌}
use wolf_os.Base.Words.{u8}
use wolf_os.Base.Machine.{Memory, read16, read32}
use wolf_os.Console.Numbers.{Text}

-- The functions that a driver can name.
pub data KernelFunction : Type 0 where
  print print_uint32 print_uint64 print_ptr putchar pci_read_word : KernelFunction
  pci_read_byte pci_read_dword kmalloc kamalloc kfree pci_write_word : KernelFunction
  pci_write_dword wait outb inb memcpy memset : KernelFunction
  memmove get_boot_data : KernelFunction

-- `strcmp(p, literal) == 0`; a literal holds no terminator before its end.
unfoldable pub equals_text : Memory → (p : ℕ) → Text → Bool
equals_text m p [] = m p == 0
equals_text m p (c ∷ cs) = (m p == c) && equals_text m (p + 1) cs

-- The names in the order in which `resolve_symbol` compares them.
unfoldable pub kernel_symbols : List (Text × KernelFunction)
kernel_symbols =
    (b'p' ∷ b'r' ∷ b'i' ∷ b'n' ∷ b't' ∷ [], print)
    ∷ (
      b'p' ∷ b'r' ∷ b'i' ∷ b'n' ∷ b't' ∷ b'_' ∷ b'u' ∷ b'i' ∷ b'n' ∷ b't' ∷ b'3' ∷ b'2' ∷ [],
      print_uint32,
    )
    ∷ (
      b'p' ∷ b'r' ∷ b'i' ∷ b'n' ∷ b't' ∷ b'_' ∷ b'u' ∷ b'i' ∷ b'n' ∷ b't' ∷ b'6' ∷ b'4' ∷ [],
      print_uint64,
    )
    ∷ (b'p' ∷ b'r' ∷ b'i' ∷ b'n' ∷ b't' ∷ b'_' ∷ b'p' ∷ b't' ∷ b'r' ∷ [], print_ptr)
    ∷ (b'p' ∷ b'u' ∷ b't' ∷ b'c' ∷ b'h' ∷ b'a' ∷ b'r' ∷ [], putchar)
    ∷ (
      b'p' ∷ b'c' ∷ b'i' ∷ b'_' ∷ b'r' ∷ b'e' ∷ b'a' ∷ b'd' ∷ b'_' ∷ b'w' ∷ b'o' ∷ b'r' ∷ b'd' ∷ [],
      pci_read_word,
    )
    ∷ (
      b'p' ∷ b'c' ∷ b'i' ∷ b'_' ∷ b'r' ∷ b'e' ∷ b'a' ∷ b'd' ∷ b'_' ∷ b'b' ∷ b'y' ∷ b't' ∷ b'e' ∷ [],
      pci_read_byte,
    )
    ∷ (
      b'p' ∷ b'c' ∷ b'i' ∷ b'_' ∷ b'r' ∷ b'e' ∷ b'a' ∷ b'd' ∷ b'_' ∷ b'd' ∷ b'w' ∷ b'o' ∷ b'r'
          ∷ b'd' ∷ [],
      pci_read_dword,
    )
    ∷ (b'k' ∷ b'm' ∷ b'a' ∷ b'l' ∷ b'l' ∷ b'o' ∷ b'c' ∷ [], kmalloc)
    ∷ (b'k' ∷ b'a' ∷ b'm' ∷ b'a' ∷ b'l' ∷ b'l' ∷ b'o' ∷ b'c' ∷ [], kamalloc)
    ∷ (b'k' ∷ b'f' ∷ b'r' ∷ b'e' ∷ b'e' ∷ [], kfree)
    ∷ (
      b'p' ∷ b'c' ∷ b'i' ∷ b'_' ∷ b'w' ∷ b'r' ∷ b'i' ∷ b't' ∷ b'e' ∷ b'_' ∷ b'w' ∷ b'o' ∷ b'r'
          ∷ b'd' ∷ [],
      pci_write_word,
    )
    ∷ (
      b'p' ∷ b'c' ∷ b'i' ∷ b'_' ∷ b'w' ∷ b'r' ∷ b'i' ∷ b't' ∷ b'e' ∷ b'_' ∷ b'd' ∷ b'w' ∷ b'o'
          ∷ b'r' ∷ b'd' ∷ [],
      pci_write_dword,
    )
    ∷ (b'w' ∷ b'a' ∷ b'i' ∷ b't' ∷ [], wait)
    ∷ (b'o' ∷ b'u' ∷ b't' ∷ b'b' ∷ [], outb)
    ∷ (b'i' ∷ b'n' ∷ b'b' ∷ [], inb)
    ∷ (b'm' ∷ b'e' ∷ b'm' ∷ b'c' ∷ b'p' ∷ b'y' ∷ [], memcpy)
    ∷ (b'm' ∷ b'e' ∷ b'm' ∷ b's' ∷ b'e' ∷ b't' ∷ [], memset)
    ∷ (b'm' ∷ b'e' ∷ b'm' ∷ b'm' ∷ b'o' ∷ b'v' ∷ b'e' ∷ [], memmove)
    ∷ (
      b'g' ∷ b'e' ∷ b't' ∷ b'_' ∷ b'b' ∷ b'o' ∷ b'o' ∷ b't' ∷ b'_' ∷ b'd' ∷ b'a' ∷ b't' ∷ b'a' ∷ [],
      get_boot_data,
    )
    ∷ []

module _ (address_of : KernelFunction → ℕ) where
  unfoldable pub resolve_in : Memory → (symname : ℕ) → List (Text × KernelFunction) → ℕ
  resolve_in m p [] = 0
  resolve_in m p ((name, f) ∷ rest) =
      if equals_text m p name then address_of f else resolve_in m p rest

  unfoldable pub resolve_symbol : Memory → (symname : ℕ) → ℕ
  resolve_symbol m p = resolve_in m p kernel_symbols

-- `struct sym_entry` and `struct rel_entry`, as far as they are read
pub record SymEntry : Type 0 where
  pub st_name : ℕ
  pub st_value : ℕ
  pub st_shndx : ℕ

abbrev pub sizeof_sym : ℕ
sizeof_sym = 16

abbrev pub sym_at : Memory → (p : ℕ) → SymEntry
sym_at m p = record {
  st_name = read32 m p;
  st_value = read32 m (p + 4);
  st_shndx = read16 m (p + 14);
}

pub record RelEntry : Type 0 where
  pub r_offset : ℕ
  pub r_info : ℕ

abbrev pub sizeof_rel : ℕ
sizeof_rel = 8

abbrev pub rel_at : Memory → (p : ℕ) → RelEntry
rel_at m p = record { r_offset = read32 m p; r_info = read32 m (p + 4) }

abbrev pub r_sym : ℕ → ℕ
r_sym info = info / 256

abbrev pub r_type : ℕ → ℕ
r_type info = u8 info
