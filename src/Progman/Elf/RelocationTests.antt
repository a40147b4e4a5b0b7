-- ===== src/Progman/Elf/RelocationTests.antt =====
-- A table of a relative entry and an entry for a symbol of the binary, and one whose second entry has a
-- type that the loader does not know.
use wolf_os.Base.{
  ℕ, zero, suc, ◌+◌, ◌/◌, ◌≤◌, ◌<◌, ◌≡◌, refl, ◌⊎◌, inl, inr, false, ◌==◌, if◌then◌else◌, arith,
}
use wolf_os.Base.Words.{add32, mul32, u8}
use wolf_os.Base.Machine.{Memory, read16, read32}
use wolf_os.Progman.Elf.Symbols.{KernelFunction}
use wolf_os.Progman.Elf.Relocate.{
  relocation, relocation_loop, apply_relocation, symbol_address, is_refused, process_relocations,
}
use wolf_os.Progman.Elf.Format.{word, relocated}
use wolf_os.Progman.Elf.Relocated.{
  Accepted, TargetsApart, Outside, Untouched, IsIndependent, process_relocations-relocated,
  process_relocations-refused,
}

abbrev address_of : KernelFunction → ℕ
address_of f = 4096

-- The binary is at 0: the headers of the table, of the symbols and of the names at 2000, 2100 and 2200,
-- the table at 100, the symbols at 200. The second entry has the given type. The image is at 1000.
abbrev memory : (second_type : ℕ) → Memory
memory second_type a =
    if a == 100
    then 16
    else if a == 104
    then 8
    else if a == 105
    then 1
    else if a == 108
    then 20
    else if a == 112
    then second_type
    else if a == 113
    then 1
    else if a == 220
    then 5
    else if a == 230
    then 1
    else if a == 1016
    then 7
    else if a == 2016
    then 100
    else if a == 2020
    then 16
    else if a == 2116
    then 200
    else if a == 2217
    then 1
    else 0

abbrev start : Memory
start = memory 6

-- What an entry for a symbol with a section is read from.
relocation_lem :
    (m : Memory) (dynstr i offset info symbols value section : ℕ)
    → read32 m (add32 100 (mul32 i 8)) ≡ offset
    → read32 m (add32 100 (mul32 i 8) + 4) ≡ info
    → read32 m 2116 ≡ symbols
    → let sym = add32 0 (add32 symbols (mul32 (info / 256) 16)) in
      read16 m (sym + 14) ≡ section
      → (section == 0) ≡ false
      → read32 m (sym + 4) ≡ value
      → relocation address_of 0 1000 2100 m dynstr 100 i
        ≡ record { offset = offset; kind = u8 info; addr = add32 1000 value }
unfolding relocation symbol_address
relocation_lem m dynstr i offset info symbols value section o n s k z v = rw (o, n, s, k, z, v) refl

outside : (b : ℕ) → (b < 1016) ⊎ (1024 ≤ b) → Outside address_of 0 1000 2100 2000 2200 start b
unfolding relocation
outside b out zero lt = elim out [ inl l ↦ inl (omega arith) | inr r ↦ inr (omega arith) ]
outside b out (suc zero) lt = elim out [ inl l ↦ inl (omega arith) | inr r ↦ inr (omega arith) ]
outside b out (suc (suc i)) lt = absurd (omega arith)

module _ (m : Memory) (same : Untouched address_of 0 1000 2100 2000 2200 start m) where
  below : (b : ℕ) → b < 1016 → m b ≡ start b
  below b lt = same b (outside b (inl lt))

  above : (b : ℕ) → 1024 ≤ b → m b ≡ start b
  above b le = same b (outside b (inr le))

  below32 : (a : ℕ) → a + 4 ≤ 1016 → read32 m a ≡ read32 start a
  below32 a lt =
      let e0 = below a (omega arith) in
      let e1 = below (a + 1) (omega arith) in
      let e2 = below (a + 2) (omega arith) in
      let e3 = below (a + 2 + 1) (omega arith) in rw (e0, e1, e2, e3) refl

  below16 : (a : ℕ) → a + 2 ≤ 1016 → read16 m a ≡ read16 start a
  below16 a lt =
      let e0 = below a (omega arith) in let e1 = below (a + 1) (omega arith) in rw (e0, e1) refl

  symbols : read32 m 2116 ≡ 200
  symbols = omega (
    arith,
    above 2116 (omega arith),
    above 2117 (omega arith),
    above 2118 (omega arith),
    above 2119 (omega arith),
  )

start-IsIndependent : IsIndependent address_of 0 1000 2100 2000 2200 start
unfolding relocation symbol_address
start-IsIndependent m same zero lt =
    relocation_lem m 256 0 16 264 200 5 1 (below32 m same 100 (omega arith))
      (below32 m same 104 (omega arith)) (symbols m same) (below16 m same 230 (omega arith)) refl
      (below32 m same 220 (omega arith))
start-IsIndependent m same (suc zero) lt =
    relocation_lem m 256 1 20 262 200 5 1 (below32 m same 108 (omega arith))
      (below32 m same 112 (omega arith)) (symbols m same) (below16 m same 230 (omega arith)) refl
      (below32 m same 220 (omega arith))
start-IsIndependent m same (suc (suc i)) lt = absurd (omega arith)

both-Accepted : Accepted address_of 0 1000 2100 2000 2200 start
unfolding is_refused relocation symbol_address
both-Accepted zero lt = refl
both-Accepted (suc zero) lt = refl
both-Accepted (suc (suc i)) lt = absurd (omega arith)

both-TargetsApart : TargetsApart address_of 0 1000 2100 2000 2200 start
unfolding relocation
both-TargetsApart zero zero la lb ne = absurd (ne refl)
both-TargetsApart zero (suc zero) la lb ne = inl (omega arith)
both-TargetsApart (suc zero) zero la lb ne = inr (omega arith)
both-TargetsApart (suc zero) (suc zero) la lb ne = absurd (ne refl)
both-TargetsApart zero (suc (suc b)) la lb ne = absurd (omega arith)
both-TargetsApart (suc zero) (suc (suc b)) la lb ne = absurd (omega arith)
both-TargetsApart (suc (suc a)) b la lb ne = absurd (omega arith)

process_relocations-relocated_example :
    let done = process_relocations address_of 0 1000 2100 2000 2200 start in
    (done.0 ≡ 0)
    × (read32 (done.1) (word address_of 0 1000 2100 2000 2200 start 1)
        ≡ relocated address_of 0 1000 2100 2000 2200 start 1)
    × (done.1 999 ≡ start 999)
process_relocations-relocated_example =
    process_relocations-relocated address_of 0 1000 2100 2000 2200 start start-IsIndependent
      both-Accepted both-TargetsApart 1 999 (omega arith) (outside 999 (inl (omega arith)))

-- The entry of the symbol gets its place in the image.
relocated_1 : relocated address_of 0 1000 2100 2000 2200 start 1 ≡ 1005
relocated_1 = refl

process_relocations-refused_example :
    process_relocations address_of 0 1000 2100 2000 2200 (memory 5)
    ≡ (1, (relocation_loop address_of 0 1000 2100 256 100 0 1 (memory 5)).1)
unfolding relocation_loop is_refused relocation symbol_address apply_relocation
process_relocations-refused_example =
    process_relocations-refused address_of 0 1000 2100 2000 2200 (memory 5) 1 (omega arith) refl
      refl
