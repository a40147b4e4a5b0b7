-- ===== src/Util/Strings/Upwards.antt =====
-- The copies in blocks to lower addresses.
use wolf_os.Base.{
  ℕ, zero, suc, ◌+◌, ◌-◌, ◌*◌, ◌/◌, ◌%◌, ◌^◌, ◌≤◌, ◌≡◌, ap, sym, subst, ◌∙◌, ◌⊎◌, bit_and, false,
  ltb, ◌==◌, if◌then◌else◌, Bool-cases, inl, inr, arith,
}
use wolf_os.Base.Bits.{bit_and_mask}
use wolf_os.Base.Machine.{Memory}
use wolf_os.Util.Strings.{align_bytes}
use wolf_os.Util.Strings.Copy.{copied}
use wolf_os.Util.Strings.Blocks.{Moving, moving, align_up, rounds_of, blocks_up}
use wolf_os.Util.Strings.Join.{copied-up, copied-none, poke-copied, copy_up_eq, move_blocks_eq}

-- Where the alignment upwards ends.
unfoldable pub aligned_up : Memory → (d s n : ℕ) → Moving
aligned_up m d s n = let a = align_bytes d n in moving (copied m d s a) (d + a) (s + a) (n - a)

pub moving_eq :
    {m m' : Memory} {d d' s s' n n' : ℕ}
    → m ≡ m'
    → d ≡ d'
    → s ≡ s'
    → n ≡ n'
    → moving m d s n ≡ moving m' d' s' n'
moving_eq a b c e i = moving (a i) (b i) (c i) (e i)

pub align_bytes-suc :
    (d n : ℕ) → (bit_and d 0xf == 0) ≡ false → align_bytes d (suc n) ≡ 1 + align_bytes (d + 1) n
align_bytes-suc d n ne = ground (arith, bit_and_mask 4 d, bit_and_mask 4 (d + 1))

pub align_bytes-le : (d n : ℕ) → align_bytes d n ≤ n
align_bytes-le d n = ground (arith, bit_and_mask 4 d)

pub align_up-aligned :
    (n : ℕ) (m : Memory) (d s : ℕ) → (d ≤ s) ⊎ (s + n ≤ d) → align_up m d s n ≡ aligned_up m d s n
unfolding align_up aligned_up
align_up-aligned zero m d s h =
    let none : align_bytes d 0 ≡ 0 = ground (arith, bit_and_mask 4 d) in
    rw none (moving_eq (sym (copied-none m d s)) (omega arith) (omega arith) (omega arith))
align_up-aligned (suc n) m d s h = elim (Bool-cases (bit_and d 0xf == 0)) [
  | inl e ↦ rw e (moving_eq (sym (copied-none m d s)) (omega arith) (omega arith) (omega arith))
  | inr ne ↦
      let a = align_bytes (d + 1) n in
      let longer = align_bytes-suc d n ne in
      let step : align_up m d s (suc n) ≡ align_up (copied m d s 1) (d + 1) (s + 1) n =
        rw (ne, poke-copied m d s) in
      step
      ∙ align_up-aligned n (copied m d s 1) (d + 1) (s + 1) (ground (arith, h))
      ∙ moving_eq
          (copied-up m d s 1 a (ground (arith, h, align_bytes-le (d + 1) n))
            ∙ ap (copied m d s) (sym longer))
          (omega (arith, longer)) (omega (arith, longer)) (omega (arith, longer))
]

-- The bytes that the routines in blocks move: those asked for, or, when less than a block is left
-- after the alignment, 2 ^ 32 blocks more.
abbrev pub moved_bytes : (d n : ℕ) → ℕ
moved_bytes d n = if ltb (n - align_bytes d n) 16 then n + 16 * 2 ^ 32 else n

pub rounds_of-moved :
    (d n : ℕ)
    → align_bytes d n + (16 * rounds_of ((n - align_bytes d n) / 16) + (n - align_bytes d n) % 16)
      ≡ moved_bytes d n
unfolding rounds_of
rounds_of-moved d n = ground (arith, align_bytes-le d n)

pub blocks_up-copied :
    (m : Memory) (d s n : ℕ)
    → (d ≤ s) ⊎ (s + (16 * rounds_of (n / 16) + n % 16) ≤ d)
    → blocks_up (moving m d s n) ≡ copied m d s (16 * rounds_of (n / 16) + n % 16)
unfolding blocks_up
blocks_up-copied m d s n h =
    let k = rounds_of (n / 16) in
    rw (move_blocks_eq k m d s (ground (arith, h))) (
      copy_up_eq (copied m d s (16 * k)) (d + 16 * k) (s + 16 * k) (n % 16) (ground (arith, h))
      ∙ copied-up m d s (16 * k) (n % 16) h)

-- The first part of the copies upwards: alignment and all that follows.
pub up-copied :
    (m : Memory) (d s n : ℕ)
    → (d ≤ s) ⊎ (s + moved_bytes d n ≤ d)
    → blocks_up (align_up m d s n) ≡ copied m d s (moved_bytes d n)
unfolding aligned_up
up-copied m d s n h =
    let a = align_bytes d n in
    let left = 16 * rounds_of ((n - a) / 16) + (n - a) % 16 in
    let whole : a + left ≡ moved_bytes d n = rounds_of-moved d n in
    let apart : (d ≤ s) ⊎ (s + (a + left) ≤ d) = subst (λ x. (d ≤ s) ⊎ (s + x ≤ d)) (sym whole) h in
    ap blocks_up (align_up-aligned n m d s (ground (arith, h)))
    ∙ blocks_up-copied (copied m d s a) (d + a) (s + a) (n - a) (ground (arith, apart))
    ∙ copied-up m d s a left apart
    ∙ ap (copied m d s) whole
