-- ===== src/Util/Cpu/Enabled.antt =====
-- What `load_cpuid` does to the control registers.
use wolf_os.Base.{
  ℕ, zero, suc, ◌+◌, ◌-◌, ◌*◌, ◌/◌, ◌%◌, ◌^◌, ◌<◌, ◌≡◌, refl, ap, ap₂, sym, ◌∙◌, inl, inr, true,
  ◌&&◌, bit_and, bit_or, if◌then◌else◌, ◌==◌, Bool-cases, arith,
}
use native.Mathlib.Nat.{one-le-pow, mod-lt, div-add-mod'}
use wolf_os.Base.Bits.{bit_and_parts, bit_or_parts, bit_and_mask, bit_or-zero, zero-bit_and}
use wolf_os.Base.Words.{◌<<◌}
use wolf_os.Util.Strings.{cpu_has_feature, feature_sse}
use wolf_os.Util.Cpu.{Processor, Cpu, without_bit, enable_sse, load_vendor, load_cpuid}

-- A mask without bit 2, on the low three bits, and without bit 3, on the low four.
without_2 : (x : ℕ) → x < 2 ^ 32 → bit_and x (without_bit 2) ≡ x / 8 * 8 + x % 4
without_2 x small =
    let split : x ≡ x / 8 * 2 ^ 3 + x % 8 = omega arith in
    ap (λ y. bit_and y (without_bit 2)) split
    ∙ bit_and_parts 3 (x / 8) (2 ^ 29 - 1) (x % 8) 3 (omega arith) (omega arith)
    ∙ omega (arith, bit_and_mask 29 (x / 8), bit_and_mask 2 (x % 8))

without_3 : (x : ℕ) → x < 2 ^ 32 → bit_and x (without_bit 3) ≡ x / 16 * 16 + x % 8
without_3 x small =
    let split : x ≡ x / 16 * 2 ^ 4 + x % 16 = omega arith in
    ap (λ y. bit_and y (without_bit 3)) split
    ∙ bit_and_parts 4 (x / 16) (2 ^ 28 - 1) (x % 16) 7 (omega arith) (omega arith)
    ∙ omega (arith, bit_and_mask 28 (x / 16), bit_and_mask 3 (x % 16))

bit_or-one : (b : ℕ) → b < 2 → bit_or b 1 ≡ 1
bit_or-one zero h = refl
bit_or-one (suc zero) h = refl
bit_or-one (suc (suc b)) h = absurd (omega arith)

bit_or-three : (b : ℕ) → b < 4 → bit_or b 3 ≡ 3
bit_or-three zero h = refl
bit_or-three (suc zero) h = refl
bit_or-three (suc (suc zero)) h = refl
bit_or-three (suc (suc (suc zero))) h = refl
bit_or-three (suc (suc (suc (suc b)))) h = absurd (omega arith)

-- The low bits are set, and those above them stay.
ones_below :
    (w ones x : ℕ)
    → ones < 2 ^ w
    → ((b : ℕ) → b < 2 ^ w → bit_or b ones ≡ ones)
    → bit_or x ones ≡ x / 2 ^ w * 2 ^ w + ones
ones_below w ones x small all =
    let pos : 0 < 2 ^ w = one-le-pow w 2 (omega arith) in
    ap₂ bit_or (sym (div-add-mod' x (2 ^ w))) (omega arith)
    ∙ bit_or_parts w (x / 2 ^ w) 0 (x % 2 ^ w) ones (mod-lt x pos) small
    ∙ rw (bit_or-zero (x / 2 ^ w), all (x % 2 ^ w) (mod-lt x pos)) refl

-- The same at bit k, with the bits below it.
ones_at :
    (k w ones x : ℕ)
    → ones < 2 ^ w
    → ((b : ℕ) → b < 2 ^ w → bit_or b ones ≡ ones)
    → bit_or x (ones * 2 ^ k) ≡ (x / 2 ^ k / 2 ^ w * 2 ^ w + ones) * 2 ^ k + x % 2 ^ k
ones_at k w ones x small all =
    let pos : 0 < 2 ^ k = one-le-pow k 2 (omega arith) in
    ap₂ bit_or (sym (div-add-mod' x (2 ^ k))) (omega arith)
    ∙ bit_or_parts k (x / 2 ^ k) ones (x % 2 ^ k) 0 (mod-lt x pos) pos
    ∙ rw (bit_or-zero (x % 2 ^ k), ones_below w ones (x / 2 ^ k) small all) refl

with_1 : (x : ℕ) → bit_or x (1 << 1) ≡ x / 4 * 4 + 2 + x % 2
with_1 x = omega (arith, ones_at 1 1 1 x (omega arith) bit_or-one)

with_9_10 :
    (x : ℕ) → bit_or x (bit_or (1 << 9) (1 << 10)) ≡ x / 2 ^ 11 * 2 ^ 11 + 3 * 2 ^ 9 + x % 2 ^ 9
with_9_10 x = omega (arith, ones_at 9 2 3 x (omega arith) bit_or-three)

-- Bits 2 and 3 of the first control register are clear and bit 1 is set, bits 9 and 10 of the other
-- are set, and no other bit differs.
abbrev pub cr0_enabled : ℕ → ℕ
cr0_enabled cr0 = cr0 / 2 ^ 4 * 2 ^ 4 + 2 + cr0 % 2

abbrev pub cr4_enabled : ℕ → ℕ
cr4_enabled cr4 = cr4 / 2 ^ 11 * 2 ^ 11 + 2 ^ 10 + 2 ^ 9 + cr4 % 2 ^ 9

enable_sse-cr0 : (c : Cpu) → c.cr0 < 2 ^ 32 → (enable_sse c).cr0 ≡ cr0_enabled c.cr0
unfolding enable_sse
enable_sse-cr0 c small =
    rw (without_2 c.cr0 small, with_1 (c.cr0 / 8 * 8 + c.cr0 % 4))
      (omega (
        arith,
        without_3 ((c.cr0 / 8 * 8 + c.cr0 % 4) / 4 * 4 + 2 + (c.cr0 / 8 * 8 + c.cr0 % 4) % 2),
      ))

enable_sse-cr4 : (c : Cpu) → (enable_sse c).cr4 ≡ cr4_enabled c.cr4
unfolding enable_sse
enable_sse-cr4 c = omega (arith, with_9_10 c.cr4)

-- If no feature is noted before `load_cpuid`, those of the processor are noted after it, none on a
-- processor without `cpuid`. If SSE is noted then, it is enabled in the control registers, of which no
-- other bit changes; otherwise they stay as they were.
pub load_cpuid-enables :
    (p : Processor) (c : Cpu)
    → c.cr0 < 2 ^ 32
    → c.cpu_capabilities ≡ 0
    → ((feature : ℕ)
        → cpu_has_feature (load_cpuid p c).cpu_capabilities feature
          ≡ (p.has_cpuid && cpu_has_feature (p.cpuid 1).edx feature))
      × ((load_cpuid p c).cr0 ≡ (
          if cpu_has_feature (load_cpuid p c).cpu_capabilities feature_sse
          then cr0_enabled c.cr0
          else c.cr0))
      × ((load_cpuid p c).cr4 ≡ (
          if cpu_has_feature (load_cpuid p c).cpu_capabilities feature_sse
          then cr4_enabled c.cr4
          else c.cr4))
unfolding load_cpuid cpu_has_feature enable_sse
load_cpuid-enables p c small fresh =
    let known = p.cpuid 1 in
    let loaded = record c {
      cpu_vendor = load_vendor (p.cpuid 0) c.cpu_vendor;
      cpu_capabilities = known.edx;
      cpu_capabilities_extended = known.ecx;
    } in
    elim (Bool-cases p.has_cpuid) [
      | inr e ↦
          let missing : (f : ℕ) → (bit_and c.cpu_capabilities f == 0) ≡ true =
            λ f. rw (fresh, zero-bit_and f) refl in
          rw (e, missing feature_sse) (λ f. rw (missing f) refl, refl, refl)
      | inl e ↦ elim (Bool-cases (cpu_has_feature known.edx feature_sse)) [
        | inl sse ↦
            rw (e, sse)
              (
                λ feature. refl,
                rw sse (enable_sse-cr0 loaded small),
                rw sse (enable_sse-cr4 loaded),
              )
        | inr sse ↦ rw (e, sse) (λ feature. refl, rw sse refl, rw sse refl)
      ]
    ]
