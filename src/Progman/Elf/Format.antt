-- ===== src/Progman/Elf/Format.antt =====
-- What an entry of the relocation table says by the ELF format, and what `process_relocations` reads.
use wolf_os.Base.{
  ℕ, ◌+◌, ◌/◌, ◌≤◌, ◌<◌, ◌≡◌, refl, ap, ◌∙◌, ◌⊎◌, inl, inr, Bool, true, false, ◌==◌, if◌then◌else◌,
  Bool-cases, arith, ◌*◌, ◌%◌, ◌^◌,
}
use wolf_os.Base.Words.{u32, add32, mul32}
use wolf_os.Base.Machine.{Memory, read16, read32, write32}
use wolf_os.Progman.Elf.{section_at}
use wolf_os.Progman.Elf.Symbols.{KernelFunction, sizeof_rel, resolve_symbol}
use wolf_os.Progman.Elf.Relocate.{
  Relocation, relocation, is_refused, apply_relocation, symbol_address, r_386_relative,
}

-- The word that a relocation sets, and its new value: the address of the symbol, or the address of the
-- image added to what the word held.
abbrev pub target_of : (loadedimg : ℕ) → Relocation → ℕ
target_of loadedimg r = add32 loadedimg r.offset

abbrev pub value_of : (loadedimg : ℕ) → Relocation → Memory → ℕ
value_of loadedimg r m =
    if r.kind == r_386_relative then add32 loadedimg (read32 m (target_of loadedimg r)) else r.addr

abbrev pub Apart : (a b : ℕ) → Type 0
Apart a b = (a + 4 ≤ b) ⊎ (b + 4 ≤ a)

pub apply_relocation-value :
    (loadedimg : ℕ) (r : Relocation) (m : Memory)
    → is_refused r ≡ false
    → apply_relocation loadedimg r m ≡ write32 m (target_of loadedimg r) (value_of loadedimg r m)
unfolding apply_relocation is_refused
apply_relocation-value loadedimg r m ok = elim (Bool-cases (r.kind == 8)) [
  | inl e ↦
      let k : r.kind ≡ 8 = ground arith in
      let six : (r.kind == 6) ≡ false = ground arith in
      let seven : (r.kind == 7) ≡ false = ground arith in rw (e, six, seven)
  | inr e ↦ elim (Bool-cases (r.kind == 6)) [
    | inl six ↦ rw (e, six)
    | inr six ↦ elim (Bool-cases (r.kind == 7)) [
      | inl seven ↦ rw (e, six, seven)
      | inr seven ↦ absurd (ground arith)
    ]
  ]
]

pub read32-same : (m : Memory) (a v : ℕ) → read32 (write32 m a v) a ≡ u32 v
read32-same m a v = ground arith

pub write32-other : (m : Memory) (a v b : ℕ) → (b < a) ⊎ (a + 4 ≤ b) → write32 m a v b ≡ m b
write32-other m a v b h = ground (arith, h)

pub write32-read32 : (m : Memory) (a v b : ℕ) → Apart a b → read32 (write32 m a v) b ≡ read32 m b
write32-read32 m a v b h = ground (arith, h)

pub value_of-write32 :
    (loadedimg a v : ℕ) (r : Relocation) (m : Memory)
    → Apart a (target_of loadedimg r)
    → value_of loadedimg r (write32 m a v) ≡ value_of loadedimg r m
value_of-write32 loadedimg a v r m h = rw (write32-read32 m a v (target_of loadedimg r) h) refl

value_of-word :
    (loadedimg : ℕ) (r : Relocation) (m : Memory) (kind at addr : ℕ)
    → r.kind ≡ kind
    → target_of loadedimg r ≡ at
    → r.addr ≡ addr
    → u32 (value_of loadedimg r m)
      ≡ (if kind == 8 then u32 (u32 (loadedimg + read32 m at)) else u32 addr)
value_of-word loadedimg r m kind at addr k t a =
    rw (k, t, a) (elim (Bool-cases (kind == 8)) [ inl e ↦ rw e refl | inr e ↦ rw e refl ])

u32-branches :
    (relative named : Bool) (old address place : ℕ)
    → (if relative then u32 (u32 old) else u32 (if named then address else u32 place))
      ≡ (if relative then u32 old else if named then u32 address else u32 place)
u32-branches true named old address place = omega arith
u32-branches false true old address place = refl
u32-branches false false old address place = omega arith

module _ (address_of : KernelFunction → ℕ) (image loadedimg dynsym_sec : ℕ) where
  module _ (rel_dyn dynstr_sec : ℕ) (start : Memory) where
    abbrev pub rels : ℕ
    rels = add32 image (section_at start rel_dyn).sh_offset

    abbrev pub dynstr : ℕ
    dynstr = add32 image (section_at start dynstr_sec).sh_offset

    abbrev pub count : ℕ
    count = (section_at start rel_dyn).sh_size / sizeof_rel

    abbrev pub entry_in : Memory → (i : ℕ) → Relocation
    entry_in m = relocation address_of image loadedimg dynsym_sec m dynstr rels

    -- The entries as they are before the call, and the words that they set.
    abbrev pub entry : (i : ℕ) → Relocation
    entry = entry_in start

    abbrev pub target : (i : ℕ) → ℕ
    target i = target_of loadedimg (entry i)

    -- What the format says of an entry: its offset, its info, its symbol, and the word that it sets.
    abbrev pub at_entry : (i : ℕ) → ℕ
    at_entry i = (image + (section_at start rel_dyn).sh_offset + 8 * i) % 2 ^ 32

    abbrev pub info : (i : ℕ) → ℕ
    info i = read32 start (at_entry i + 4)

    abbrev pub word : (i : ℕ) → ℕ
    word i = (loadedimg + read32 start (at_entry i)) % 2 ^ 32

    abbrev pub symbol : (i : ℕ) → ℕ
    symbol i = (image + (section_at start dynsym_sec).sh_offset + 16 * (info i / 256)) % 2 ^ 32

    abbrev pub name : (i : ℕ) → ℕ
    name i = (image + (section_at start dynstr_sec).sh_offset + read32 start (symbol i)) % 2 ^ 32

    -- The value that the word is to get: for a relative entry the address of the image added to the
    -- word, for a symbol with a section its place in the image, and else the function of the kernel
    -- that has the symbol's name.
    abbrev pub relocated : (i : ℕ) → ℕ
    relocated i =
        if info i % 256 == 8
        then (loadedimg + read32 start (word i)) % 2 ^ 32
        else if read16 start (symbol i + 14) == 0
        then resolve_symbol address_of start (name i) % 2 ^ 32
        else (loadedimg + read32 start (symbol i + 4)) % 2 ^ 32

    at_entry_lem : (i : ℕ) → add32 rels (mul32 i sizeof_rel) ≡ at_entry i
    at_entry_lem i = omega arith

    pub entry-word : (i : ℕ) → target i ≡ word i
    unfolding relocation
    entry-word i = ap (λ a. add32 loadedimg (read32 start a)) (at_entry_lem i)

    entry-kind : (i : ℕ) → (entry i).kind ≡ info i % 256
    unfolding relocation
    entry-kind i = ap (λ a. read32 start (a + 4) % 256) (at_entry_lem i)

    symbol_address_lem :
        (index : ℕ)
        → let at = (image + (section_at start dynsym_sec).sh_offset + 16 * index) % 2 ^ 32 in
          let name_at =
            (image + (section_at start dynstr_sec).sh_offset + read32 start at) % 2 ^ 32 in
          symbol_address address_of image loadedimg dynsym_sec start dynstr index ≡ (
            if read16 start (at + 14) == 0
            then resolve_symbol address_of start name_at
            else (loadedimg + read32 start (at + 4)) % 2 ^ 32)
    unfolding symbol_address
    symbol_address_lem index =
        let offset = (section_at start dynsym_sec).sh_offset in
        let at = (image + offset + 16 * index) % 2 ^ 32 in
        let place : add32 image (add32 offset (mul32 index 16)) ≡ at = omega arith in
        let named : add32 dynstr (read32 start at)
            ≡ (image + (section_at start dynstr_sec).sh_offset + read32 start at) % 2 ^ 32 =
          omega arith in
        rw (place, named)
          (elim (Bool-cases (read16 start (at + 14) == 0)) [
            | inl e ↦ rw e refl
            | inr e ↦ rw e refl
          ])

    pub entry-relocated : (i : ℕ) → u32 (value_of loadedimg (entry i) start) ≡ relocated i
    unfolding relocation
    entry-relocated i =
        let addr : (entry i).addr
            ≡ symbol_address address_of image loadedimg dynsym_sec start dynstr (info i / 256) =
          ap
            (λ a.
              symbol_address address_of image loadedimg dynsym_sec start dynstr
                (read32 start (a + 4) / 256))
            (at_entry_lem i) in
        value_of-word loadedimg (entry i) start (info i % 256) (word i) _ (entry-kind i)
          (entry-word i) (addr ∙ symbol_address_lem (info i / 256))
        ∙ u32-branches (info i % 256 == 8) (read16 start (symbol i + 14) == 0)
            (loadedimg + read32 start (word i)) (resolve_symbol address_of start (name i))
            (loadedimg + read32 start (symbol i + 4))
