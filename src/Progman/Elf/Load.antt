-- ===== src/Progman/Elf/Load.antt =====
-- progman/elf.c, `load_driver_bin` and `get_elf_symbol`. The header and the sections of
-- the binary are read from the memory as it was before the call: what is written until then is the
-- image, which is newly allocated and apart from it. From the relocations on, which can write
-- anywhere, all is read from the memory of the moment. What is
-- printed is not modelled.
use wolf_os.Base.{
  ℕ, zero, suc, ◌+◌, ◌/◌, bit_and, Bool, ◌&&◌, not, Option, none, some, ◌==◌, if◌then◌else◌, [],
  ◌∷◌,
}
use wolf_os.Base.Words.{add32, mul32}
use wolf_os.Base.Machine.{Memory, poke, read16, read32, write32}
use wolf_os.Console.Numbers.{Text}
use wolf_os.Util.Strings.{fill}
use wolf_os.Progman.Elf.{
  ElfSection, section_at, section_ptr, e_shnum, get_section_data, get_elf_min_csize,
}
use wolf_os.Progman.Elf.Symbols.{KernelFunction, equals_text, sizeof_sym, sym_at}
use wolf_os.Progman.Elf.Relocate.{process_relocations}

-- `struct driver_init_passport`
pub record Passport : Type 0 where
  pub loaded_location : ℕ
  pub dynsym : ℕ
  pub dynstr : ℕ
  pub sym_count : ℕ

-- `FAIL_IF` in the order of the code: the reason, or none if all the tests are passed.
pub data Reason : Type 0 where
  not_elf_file bitness_mismatch endianness_mismatch version_mismatch : Reason
  architecture_mismatch subversion_mismatch insufficient_memory relocations_failed : Reason

unfoldable pub is_elf : Memory → (binary : ℕ) → Bool
is_elf m p = (m p == 0x7f) && (m (p + 1) == 0x45) && (m (p + 2) == 0x4c) && (m (p + 3) == 0x46)

unfoldable pub check_header : Memory → (binary : ℕ) → Option Reason
check_header m p =
    if not (is_elf m p)
    then some not_elf_file
    else if not (m (p + 4) == 1)
    then some bitness_mismatch
    else if not (m (p + 5) == 1)
    then some endianness_mismatch
    else if not (m (p + 6) == 1)
    then some version_mismatch
    else if not (read16 m (p + 18) == 3)
    then some architecture_mismatch
    else if not (read32 m (p + 20) == 1)
    then some subversion_mismatch
    else none

abbrev dot_rel_dyn : Text
dot_rel_dyn = b'.' ∷ b'r' ∷ b'e' ∷ b'l' ∷ b'.' ∷ b'd' ∷ b'y' ∷ b'n' ∷ []

abbrev dot_dynsym : Text
dot_dynsym = b'.' ∷ b'd' ∷ b'y' ∷ b'n' ∷ b's' ∷ b'y' ∷ b'm' ∷ []

abbrev dot_dynstr : Text
dot_dynstr = b'.' ∷ b'd' ∷ b'y' ∷ b'n' ∷ b's' ∷ b't' ∷ b'r' ∷ []

-- The pointers to the three sections, 0 while they are not found, and the image.
pub record Loading : Type 0 where
  pub rel_dyn : ℕ
  pub dynsym : ℕ
  pub dynstr : ℕ
  pub image : Memory

-- `dest[i] = src[i]` for `left` bytes
unfoldable pub copy_section : (file : Memory) → (dest src left : ℕ) → Memory → Memory
copy_section file dest src zero m = m
copy_section file dest src (suc k) m =
    copy_section file (dest + 1) (src + 1) k (poke m dest (file src))

module _ (file : Memory) (binary loadloc : ℕ) where
  -- The pointer that is kept: the first section of the name.
  unfoldable pub keep_first : (name : Text) → (shstrtab section found : ℕ) → ℕ
  keep_first name shstrtab section found =
      if (found == 0) && equals_text file (add32 shstrtab (section_at file section).sh_name) name
      then section
      else found

  -- What the loop does with the bytes of a section.
  unfoldable pub place : ElfSection → Memory → Memory
  place s m =
      if not (bit_and s.sh_flags 8 == 0)
      then m
      else if not (bit_and s.sh_flags 2 == 0)
      then copy_section file (add32 loadloc s.sh_addr) (add32 binary s.sh_offset) s.sh_size m
      else m

  unfoldable pub load_section : (shstrtab section_idx : ℕ) → Loading → Loading
  load_section shstrtab i st =
      let section = section_ptr file binary i in
      record {
        rel_dyn = keep_first dot_rel_dyn shstrtab section st.rel_dyn;
        dynsym = keep_first dot_dynsym shstrtab section st.dynsym;
        dynstr = keep_first dot_dynstr shstrtab section st.dynstr;
        image = place (section_at file section) st.image;
      }

  unfoldable pub load_sections : (shstrtab section_idx left : ℕ) → Loading → Loading
  load_sections shstrtab i zero st = st
  load_sections shstrtab i (suc k) st =
      load_sections shstrtab (i + 1) k (load_section shstrtab i st)

-- The image before the first section: all its bytes are 0, as `memset` leaves them whichever routine it
-- runs.
unfoldable pub start_loading : Memory → (loadloc minalloc : ℕ) → Loading
start_loading m loadloc minalloc = record {
  rel_dyn = 0;
  dynsym = 0;
  dynstr = 0;
  image = fill m loadloc 0 minalloc;
}

-- The answer: why the load fails; the passport and the memory; or the memory if `kmalloc` gives 0 for
-- the passport, which the code writes there all the same and answers 0.
pub data LoadResult : Type 0 where
  refused : Reason → LoadResult
  passport_at_null : Memory → LoadResult
  loaded : Passport → Memory → LoadResult

-- `return 0` of a test that failed, and the rest of the function.
unfoldable pub unless_refused : Option Reason → (rest : LoadResult) → LoadResult
unless_refused (some reason) rest = refused reason
unless_refused none rest = rest

abbrev pub sizeof_passport : ℕ
sizeof_passport = 16

-- The four words of the passport, written at address 0.
unfoldable pub write_at_null : Passport → Memory → Memory
write_at_null p m =
    write32 (write32 (write32 (write32 m 0 p.loaded_location) 4 p.dynsym) 8 p.dynstr) 12 p.sym_count

-- `address_of` is where the kernel's functions are; `kamalloc` and `kmalloc` are what the allocator
-- answers. If `kmalloc` answers an address, the record of the passport stands for the memory there.
module _ (address_of : KernelFunction → ℕ) (kmalloc : (nbytes : ℕ) → ℕ) where
  unfoldable pub finish_load : (binary loadloc : ℕ) → Loading → LoadResult
  finish_load binary loadloc st =
      let (fails, done) =
        process_relocations address_of binary loadloc st.dynsym st.rel_dyn st.dynstr st.image in
      let passport : Passport = record {
        loaded_location = loadloc;
        dynsym = add32 loadloc (section_at done st.dynsym).sh_addr;
        dynstr = add32 loadloc (section_at done st.dynstr).sh_addr;
        sym_count = (section_at done st.dynsym).sh_size / sizeof_sym;
      } in
      if not (fails == 0)
      then refused relocations_failed
      else if kmalloc sizeof_passport == 0
      then passport_at_null (write_at_null passport done)
      else loaded passport done

  unfoldable pub place_binary : Memory → (binary loadloc : ℕ) → LoadResult
  place_binary m binary loadloc =
      let shstrtab = add32 binary (get_section_data m binary (read16 m (binary + 50))).sh_offset in
      if loadloc == 0
      then refused insufficient_memory
      else finish_load binary loadloc (
          load_sections m binary loadloc shstrtab 0 (e_shnum m binary)
            (start_loading m loadloc (get_elf_min_csize m binary)))

  unfoldable pub load_driver_bin :
      (kamalloc : (nbytes align : ℕ) → ℕ) → Memory → (binary : ℕ) → LoadResult
  load_driver_bin kamalloc m binary =
      unless_refused (check_header m binary)
        (place_binary m binary (kamalloc (get_elf_min_csize m binary) 4098))

-- `strcmp(name, symbol_name) == 0` for the symbol's name as a text.
unfoldable pub get_elf_symbol_loop : Memory → Passport → (symbol_name : Text) → (i left : ℕ) → ℕ
get_elf_symbol_loop m p name i zero = 0
get_elf_symbol_loop m p name i (suc k) =
    let sym = sym_at m (add32 p.dynsym (mul32 i sizeof_sym)) in
    let rest = get_elf_symbol_loop m p name (i + 1) k in
    if equals_text m (add32 p.dynstr sym.st_name) name
    then add32 p.loaded_location sym.st_value
    else rest

unfoldable pub get_elf_symbol : Memory → Option Passport → (symbol_name : Text) → ℕ
get_elf_symbol m none name = 0
get_elf_symbol m (some p) name = get_elf_symbol_loop m p name 0 p.sym_count
