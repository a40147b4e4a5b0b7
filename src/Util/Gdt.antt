-- ===== src/Util/Gdt.antt =====
-- util/gdt.c and util/gdt.h: the flat segment table. The `lgdt` and the far jump that follow in
-- `load_gdt` are instructions; what they are given is modelled.
use wolf_os.Base.{ℕ, ◌+◌, ◌-◌, ◌*◌, ◌/◌, ◌%◌, ◌^◌, ◌<◌, bit_and, bit_or, ◌≡◌, arith, List, [], ◌∷◌}
use wolf_os.Base.Words.{u8, u16, u32, ◌<<◌, ◌>>◌}
use wolf_os.Base.Bits.{bit_and_mask, bit_or_comm_fields}

-- `struct GDTEntry`, packed: eight bytes in this order
pub record GdtEntry : Type 0 where
  pub limit_low : ℕ
  pub base_low : ℕ
  pub base_mid : ℕ
  pub access : ℕ
  pub flags_limit_high : ℕ
  pub base_high : ℕ

pub make_gdt_entry : (base limit access flags : ℕ) → GdtEntry
make_gdt_entry base limit access flags = record {
  limit_low = u16 (bit_and limit 0xffff);
  base_low = u16 (bit_and base 0xffff);
  base_mid = u8 (bit_and (base >> 16) 0xff);
  access = access;
  flags_limit_high = u8 (bit_or (bit_and (limit >> 16) 0x0f) (bit_and flags 0x0f << 4));
  base_high = u8 (bit_and (base >> 24) 0xff);
}

abbrev pub gdt_flags : ℕ
gdt_flags = 0x0c

-- `struct FlatGDT`
pub record FlatGdt : Type 0 where
  pub null : GdtEntry
  pub code_kernel : GdtEntry
  pub data_kernel : GdtEntry
  pub code_user : GdtEntry
  pub data_user : GdtEntry
  pub code16 : GdtEntry
  pub data16 : GdtEntry

-- `struct GDTR`, the operand of `lgdt`
pub record Gdtr : Type 0 where
  pub limit : ℕ
  pub base : ℕ

-- The table that `load_gdt` fills, and the register operand; `address` is where the static table
-- stands. `sizeof(gdt)` is seven entries of eight bytes.
pub load_gdt : (address : ℕ) → FlatGdt × Gdtr
unfolding make_gdt_entry
load_gdt address = (
  record {
    null = make_gdt_entry 0 0 0 0;
    code_kernel = make_gdt_entry 0 0xfffff 0x9a gdt_flags;
    data_kernel = make_gdt_entry 0 0xfffff 0x92 gdt_flags;
    code_user = make_gdt_entry 0 0xfffff 0xfa gdt_flags;
    data_user = make_gdt_entry 0 0xfffff 0xf2 gdt_flags;
    code16 = make_gdt_entry 0 0xffff 0x9a 0;
    data16 = make_gdt_entry 0 0xffff 0x92 0;
  },
  record { limit = u16 (7 * 8 - 1); base = u32 address },
)

-- What the processor reads out of an entry.
pub record Descriptor : Type 0 where
  pub base : ℕ
  pub limit : ℕ
  pub access : ℕ
  pub flags : ℕ

pub decode : GdtEntry → Descriptor
decode e = record {
  base = e.base_low + e.base_mid * 2 ^ 16 + e.base_high * 2 ^ 24;
  limit = e.limit_low + e.flags_limit_high % 16 * 2 ^ 16;
  access = e.access;
  flags = e.flags_limit_high / 16;
}

-- The processor decodes an entry made by `make_gdt_entry` to the base, limit, access byte and flags
-- that it was made from, for a 32-bit base, a 20-bit limit and 4-bit flags.
pub decode-make_gdt_entry :
    (base limit access flags : ℕ)
    → base < 2 ^ 32
    → limit < 2 ^ 20
    → flags < 16
    → decode (make_gdt_entry base limit access flags)
      ≡ record { base = base; limit = limit; access = access; flags = flags }
unfolding decode make_gdt_entry
decode-make_gdt_entry base limit access flags hb hl hf = ground (
  arith,
  bit_and_mask 16 limit,
  bit_and_mask 16 base,
  bit_and_mask 8 (base / 2 ^ 16),
  bit_and_mask 8 (base / 2 ^ 24),
  bit_and_mask 4 (limit / 2 ^ 16),
  bit_and_mask 4 flags,
  bit_or_comm_fields 4 flags (limit / 2 ^ 16),
)

-- Selector 8 * i names entry i of the table.
pub entries : FlatGdt → List GdtEntry
entries g =
    g.null ∷ g.code_kernel ∷ g.data_kernel ∷ g.code_user ∷ g.data_user ∷ g.code16 ∷ g.data16 ∷ []
