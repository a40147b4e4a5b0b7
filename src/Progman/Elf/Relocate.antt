-- ===== src/Progman/Elf/Relocate.antt =====
-- progman/elf.c, `process_relocations`. The table, the symbols and their names lie in the same memory
-- that the entries write to, and the sections are given by the addresses of their headers.
use wolf_os.Base.{ℕ, zero, suc, ◌+◌, ◌/◌, Bool, ◌&&◌, ◌||◌, not, ◌==◌, if◌then◌else◌}
use wolf_os.Base.Words.{add32, mul32}
use wolf_os.Base.Machine.{Memory, read32, write32}
use wolf_os.Progman.Elf.{section_at}
use wolf_os.Progman.Elf.Symbols.{
  KernelFunction, resolve_symbol, sym_at, sizeof_sym, rel_at, sizeof_rel, r_sym, r_type,
}

abbrev pub r_386_glob_dat : ℕ
r_386_glob_dat = 6

abbrev pub r_386_jmp_slot : ℕ
r_386_jmp_slot = 7

abbrev pub r_386_relative : ℕ
r_386_relative = 8

-- What an entry of the relocation table asks for: the offset in the image, the type, and the address
-- of its symbol, 0 if there is none of the name.
pub record Relocation : Type 0 where
  pub offset : ℕ
  pub kind : ℕ
  pub addr : ℕ

-- The two tests that make the function return 1.
unfoldable pub is_refused : Relocation → Bool
is_refused r =
    ((r.addr == 0) && not (r.kind == r_386_relative))
    || not ((r.kind == r_386_glob_dat) || (r.kind == r_386_jmp_slot) || (r.kind == r_386_relative))

unfoldable pub apply_relocation : (loadedimg : ℕ) → Relocation → Memory → Memory
apply_relocation loadedimg r m =
    let target = add32 loadedimg r.offset in
    if (r.kind == r_386_glob_dat) || (r.kind == r_386_jmp_slot)
    then write32 m target r.addr
    else write32 m target (add32 loadedimg (read32 m target))

module _ (address_of : KernelFunction → ℕ) (image loadedimg dynsym_sec : ℕ) where
  -- The address of the symbol that an entry names. All that is read is read from the memory of the
  -- moment, which the entries before have written to.
  unfoldable pub symbol_address : Memory → (dynstr sym_index : ℕ) → ℕ
  symbol_address m dynstr index =
      let sym_offset = add32 (section_at m dynsym_sec).sh_offset (mul32 index sizeof_sym) in
      let sym = sym_at m (add32 image sym_offset) in
      if not (sym.st_shndx == 0)
      then add32 loadedimg sym.st_value
      else resolve_symbol address_of m (add32 dynstr sym.st_name)

  unfoldable pub relocation : Memory → (dynstr rels i : ℕ) → Relocation
  relocation m dynstr rels i =
      let r = rel_at m (add32 rels (mul32 i sizeof_rel)) in
      record {
        offset = r.r_offset;
        kind = r_type r.r_info;
        addr = symbol_address m dynstr (r_sym r.r_info);
      }

  -- From entry i on, with the entries that are left; the number is what the function returns.
  unfoldable pub relocation_loop : (dynstr rels i left : ℕ) → Memory → ℕ × Memory
  relocation_loop dynstr rels i zero m = (0, m)
  relocation_loop dynstr rels i (suc k) m =
      let r = relocation m dynstr rels i in
      let rest = relocation_loop dynstr rels (i + 1) k (apply_relocation loadedimg r m) in
      if is_refused r then (1, m) else rest

  unfoldable pub process_relocations : (rel_dyn dynstr_sec : ℕ) → Memory → ℕ × Memory
  process_relocations rel_dyn dynstr_sec m =
      let table = section_at m rel_dyn in
      relocation_loop (add32 image (section_at m dynstr_sec).sh_offset)
        (add32 image table.sh_offset) 0 (table.sh_size / sizeof_rel) m
