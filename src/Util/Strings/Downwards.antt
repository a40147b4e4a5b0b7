-- ===== src/Util/Strings/Downwards.antt =====
-- The copies in blocks to higher addresses, which go downwards.
use wolf_os.Base.{
  ℕ, zero, suc, ◌+◌, ◌-◌, ◌*◌, ◌/◌, ◌%◌, ◌≤◌, ◌≡◌, refl, ap, sym, ◌∙◌, bit_and, false, ltb, ◌==◌,
  if◌then◌else◌, Bool-cases, inl, inr, arith,
}
use wolf_os.Base.Bits.{bit_and_mask}
use wolf_os.Base.Machine.{Memory}
use wolf_os.Util.Strings.Copy.{copied}
use wolf_os.Util.Strings.Blocks.{
  Moving, moving, align_down, move_blocks_down, rounds_of, copy_back, blocks_down,
}
use wolf_os.Util.Strings.Join.{copied-down, copied-none, poke-copied}
use wolf_os.Util.Strings.Upwards.{moving_eq}

abbrev pub align_over : (d n : ℕ) → ℕ
align_over d n = if ltb (d % 16) n then d % 16 else n

abbrev pub aligned_down : Memory → (d s n : ℕ) → Moving
aligned_down m d s n =
    let a = align_over (d + n) n in
    moving (copied m (d + (n - a)) (s + (n - a)) a) (d + (n - a)) (s + (n - a)) (n - a)

pub copied-back :
    (m : Memory) (d s n a : ℕ)
    → a ≤ n
    → s ≤ d
    → copied (copied m (d + n) (s + n) 1) (d + (n - a)) (s + (n - a)) a
      ≡ copied m (d + (n - a)) (s + (n - a)) (a + 1)
copied-back m d s n a le h =
    let ed : d + n ≡ d + (n - a) + a = omega arith in
    let es : s + n ≡ s + (n - a) + a = omega arith in
    (λ i. copied (copied m (ed i) (es i) 1) (d + (n - a)) (s + (n - a)) a)
    ∙ copied-down m (d + (n - a)) (s + (n - a)) 1 a (omega arith)

pub align_down-aligned :
    (n : ℕ) (m : Memory) (d s : ℕ) → s ≤ d → align_down m (d + n) (s + n) n ≡ aligned_down m d s n
unfolding align_down
align_down-aligned zero m d s h =
    let none : align_over (d + 0) 0 ≡ 0 = ground arith in
    rw none (moving_eq (sym (copied-none m (d + 0) (s + 0))) refl refl refl)
align_down-aligned (suc n) m d s h = elim (Bool-cases (bit_and (d + suc n) 0xf == 0)) [
  | inl e ↦
      let zero_left : align_over (d + suc n) (suc n) ≡ 0 =
        ground (arith, bit_and_mask 4 (d + suc n)) in
      let whole : suc n ≡ suc n - align_over (d + suc n) (suc n) = omega (arith, zero_left) in
      let back = sym zero_left in
      rw e (
        moving_eq
          (sym (copied-none m (d + suc n) (s + suc n))
            ∙ (λ i. copied m (d + whole i) (s + whole i) (back i)))
          (ap (λ x. d + x) whole) (ap (λ x. s + x) whole) whole)
  | inr ne ↦
      let a = align_over (d + n) n in
      let longer : align_over (d + suc n) (suc n) ≡ a + 1 =
        ground (arith, bit_and_mask 4 (d + suc n)) in
      let less : n - a ≡ suc n - align_over (d + suc n) (suc n) = omega (arith, longer) in
      let back : d + suc n - 1 ≡ d + n = omega arith in
      let back' : s + suc n - 1 ≡ s + n = omega arith in
      let step : align_down m (d + suc n) (s + suc n) (suc n)
          ≡ align_down (copied m (d + n) (s + n) 1) (d + n) (s + n) n =
        rw (ne, back, back', poke-copied m (d + n) (s + n)) in
      let shorter = sym longer in
      step
      ∙ align_down-aligned n (copied m (d + n) (s + n) 1) d s h
      ∙ moving_eq
          (copied-back m d s n a (ground arith) h
            ∙ (λ i. copied m (d + less i) (s + less i) (shorter i)))
          (ap (λ x. d + x) less) (ap (λ x. s + x) less) less
]

pub move_blocks_down_eq :
    (k : ℕ) (m : Memory) (d s : ℕ)
    → s ≤ d
    → move_blocks_down m (d + 16 * k) (s + 16 * k) k ≡ copied m d s (16 * k)
unfolding move_blocks_down
move_blocks_down_eq zero m d s h = sym (copied-none m d s)
move_blocks_down_eq (suc k) m d s h =
    let back : d + 16 * suc k - 16 ≡ d + 16 * k = omega arith in
    let back' : s + 16 * suc k - 16 ≡ s + 16 * k = omega arith in
    rw (back, back')
      (move_blocks_down_eq k (copied m (d + 16 * k) (s + 16 * k) 16) d s h
        ∙ copied-down m d s 16 (16 * k) h
        ∙ ap (copied m d s) (omega arith))

pub copy_back_eq :
    (n : ℕ) (m : Memory) (d s : ℕ) → s ≤ d → copy_back m (d + n) (s + n) n ≡ copied m d s n
unfolding copy_back
copy_back_eq zero m d s h = sym (copied-none m d s)
copy_back_eq (suc n) m d s h =
    let back : d + suc n - 1 ≡ d + n = omega arith in
    let back' : s + suc n - 1 ≡ s + n = omega arith in
    rw (back, back', poke-copied m (d + n) (s + n))
      (copy_back_eq n (copied m (d + n) (s + n) 1) d s h
        ∙ copied-down m d s 1 n h
        ∙ ap (copied m d s) (omega arith))

pub blocks_down-copied :
    (m : Memory) (d s n : ℕ)
    → s ≤ d
    → 16 ≤ n
    → blocks_down (moving m (d + n) (s + n) n) ≡ copied m d s n
unfolding blocks_down rounds_of
blocks_down-copied m d s n h enough =
    let k = n / 16 in
    let r = n % 16 in
    let some_block : (n / 16 == 0) ≡ false = ground arith in
    let e : n ≡ r + 16 * k = omega arith in
    let ed : d + n ≡ d + r + 16 * k = omega arith in
    let es : s + n ≡ s + r + 16 * k = omega arith in
    let bd : d + n - 16 * k ≡ d + r = omega arith in
    let bs : s + n - 16 * k ≡ s + r = omega arith in
    rw some_block (
      (λ i. copy_back (move_blocks_down m (ed i) (es i) k) (bd i) (bs i) r)
      ∙ ap (λ m'. copy_back m' (d + r) (s + r) r)
          (move_blocks_down_eq k m (d + r) (s + r) (omega arith))
      ∙ copy_back_eq r (copied m (d + r) (s + r) (16 * k)) d s h
      ∙ copied-down m d s (16 * k) r h
      ∙ ap (copied m d s) (sym e))

pub down-copied :
    (m : Memory) (d s n : ℕ)
    → s ≤ d
    → 31 ≤ n
    → blocks_down (align_down m (d + n) (s + n) n) ≡ copied m d s n
down-copied m d s n h enough =
    let a = align_over (d + n) n in
    let few : a ≤ 15 = ground arith in
    let ed : d + n ≡ d + (n - a) + a = omega arith in
    let whole : n - a + a ≡ n = omega arith in
    ap blocks_down (align_down-aligned n m d s h)
    ∙ blocks_down-copied (copied m (d + (n - a)) (s + (n - a)) a) d s (n - a) h (omega arith)
    ∙ copied-down m d s a (n - a) h
    ∙ ap (copied m d s) whole
