-- ===== src/Progman/Elf.antt =====
-- progman/elf.c: the sections of a binary, and the memory that they need. The binary lies in memory at
-- an address; its structures are read at their offsets.
pub mod Extent
pub mod Symbols
pub mod Names
pub mod Relocate
pub mod Format
pub mod Relocated
pub mod Load
pub mod Accepted
pub mod Placed
pub mod RelocationTests
pub mod LoadTests
use wolf_os.Base.{ℕ, zero, suc, ◌+◌, ◌*◌, bit_and, Bool, ◌&&◌, ltb, ◌==◌, if◌then◌else◌}
use wolf_os.Base.Words.{add32, mul32}
use wolf_os.Base.Machine.{Memory, read16, read32}

-- The fields of `struct elf_file` that the loader reads.
abbrev pub e_shoff : Memory → (binary : ℕ) → ℕ
e_shoff m binary = read32 m (binary + 32)

abbrev pub e_shentsize : Memory → (binary : ℕ) → ℕ
e_shentsize m binary = read16 m (binary + 46)

abbrev pub e_shnum : Memory → (binary : ℕ) → ℕ
e_shnum m binary = read16 m (binary + 48)

-- `struct e_section`, as far as it is read
pub record ElfSection : Type 0 where
  pub sh_name : ℕ
  pub sh_flags : ℕ
  pub sh_addr : ℕ
  pub sh_offset : ℕ
  pub sh_size : ℕ

abbrev pub section_at : Memory → (p : ℕ) → ElfSection
section_at m p = record {
  sh_name = read32 m p;
  sh_flags = read32 m (p + 8);
  sh_addr = read32 m (p + 12);
  sh_offset = read32 m (p + 16);
  sh_size = read32 m (p + 20);
}

abbrev pub section_ptr : Memory → (binary index : ℕ) → ℕ
section_ptr m binary index =
    add32 (add32 binary (e_shoff m binary)) (mul32 index (e_shentsize m binary))

unfoldable pub get_section_data : Memory → (binary index : ℕ) → ElfSection
get_section_data m binary index = section_at m (section_ptr m binary index)

-- The body of the loop of `get_elf_min_csize`.
unfoldable pub widen : ElfSection → (minsize : ℕ) → ℕ
widen s minsize =
    let end = add32 s.sh_addr s.sh_size in
    if (bit_and s.sh_flags 2 == 2) && ltb minsize end then end else minsize

unfoldable pub min_csize_loop : Memory → (binary index left minsize : ℕ) → ℕ
min_csize_loop m binary i zero minsize = minsize
min_csize_loop m binary i (suc k) minsize =
    min_csize_loop m binary (i + 1) k (widen (get_section_data m binary i) minsize)

unfoldable pub get_elf_min_csize : Memory → (binary : ℕ) → ℕ
get_elf_min_csize m binary = min_csize_loop m binary 0 (e_shnum m binary) 0
