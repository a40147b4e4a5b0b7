-- ===== src/Util/Division.antt =====
-- util/earlyutil.c, `udivmod64`: 64-bit division by shift and subtract.
use native.Mathlib.Nat.{
  pow-suc, div-div-eq-div-mul, div-eq_of_lt-le, one-le-pow, mod-lt, div-add-mod', mod-le,
  div-le_self, mod-eq_of_lt, div-eq_of_lt, le_refl, pow-le-pow_right,
}
use wolf_os.Base.{
  ℕ, zero, suc, ◌+◌, ◌-◌, ◌*◌, ◌/◌, ◌%◌, ◌^◌, ◌≤◌, ◌<◌, bit_and, bit_or, ◌≡◌, refl, ap, ◌∙◌, arith,
  leb, if◌then◌else◌, ◌==◌, Bool-cases, inl, inr, leb→le,
}
use wolf_os.Base.Words.{u64, ◌<<◌, ◌>>◌}
use wolf_os.Base.Bits.{bit_and_mask, bit_or_fields}

pub record QuotRem : Type 0 where
  pub q : ℕ
  pub r : ℕ

-- The body of the loop at bit i.
unfoldable pub divide_bit : (numerator denominator i : ℕ) → QuotRem → QuotRem
divide_bit n d i s =
    let r = bit_or (u64 (s.r << 1)) (bit_and (n >> i) 1) in
    if leb d r
    then record { q = bit_or s.q (u64 (1 << i)); r = r - d }
    else record { q = s.q; r = r }

-- `for (i = 63; i >= 0; i--)`, with the number of bits that are left
unfoldable pub divide_loop : (numerator denominator left : ℕ) → QuotRem → QuotRem
divide_loop n d zero s = s
divide_loop n d (suc i) s = divide_loop n d i (divide_bit n d i s)

-- The quotient is the result; the remainder is what is stored through `remainder`, if that is not
-- null.
unfoldable pub udivmod64 : (numerator denominator : ℕ) → QuotRem
udivmod64 n d =
    if d == 0 then record { q = 0; r = 0 } else divide_loop n d 64 (record { q = 0; r = 0 })

div_unique : (q r d : ℕ) → r < d → (q * d + r) / d ≡ q
div_unique q r d h = div-eq_of_lt-le d (omega arith) (omega arith)

mod_unique : (q r d : ℕ) → r < d → (q * d + r) % d ≡ r
mod_unique q r d h = grind (arith, div_unique q r d h)

-- The state that the loop has reached when the bits below i are left.
abbrev At : (n d i : ℕ) → QuotRem → Type 0
At n d i s = (s.q ≡ n / 2 ^ i / d * 2 ^ i) × (s.r ≡ n / 2 ^ i % d)

halves : (n i : ℕ) → n / 2 ^ suc i ≡ n / 2 ^ i / 2
halves n i = rw (pow-suc 2 i, div-div-eq-div-mul n (2 ^ i) 2)

-- The quotient and the remainder of 2 * m + b, from those of m.
double_small :
    (d m b : ℕ)
    → m % d * 2 + b < d
    → ((m * 2 + b) / d ≡ m / d * 2) × ((m * 2 + b) % d ≡ m % d * 2 + b)
double_small d m b h =
    let e : m * 2 + b ≡ m / d * 2 * d + (m % d * 2 + b) = omega (arith, div-add-mod' m d) in
    rw e (div_unique (m / d * 2) (m % d * 2 + b) d h, mod_unique (m / d * 2) (m % d * 2 + b) d h)

double_large :
    (d m b : ℕ)
    → 0 < d
    → b < 2
    → d ≤ m % d * 2 + b
    → ((m * 2 + b) / d ≡ m / d * 2 + 1) × ((m * 2 + b) % d ≡ m % d * 2 + b - d)
double_large d m b pos hb h =
    let below : m % d * 2 + b - d < d = omega (arith, mod-lt m pos) in
    let e : m * 2 + b ≡ (m / d * 2 + 1) * d + (m % d * 2 + b - d) =
      omega (arith, div-add-mod' m d) in
    rw e (
      div_unique (m / d * 2 + 1) (m % d * 2 + b - d) d below,
      mod_unique (m / d * 2 + 1) (m % d * 2 + b - d) d below,
    )

-- No bit is lost when the remainder is shifted: it is at most the part of the numerator read so far.
shifted_remainder :
    (n d i r : ℕ)
    → n < 2 ^ 64
    → r ≡ n / 2 ^ i / 2 % d
    → bit_or (u64 (r << 1)) (bit_and (n >> i) 1) ≡ n / 2 ^ i / 2 % d * 2 + n / 2 ^ i % 2
shifted_remainder n d i r hn e =
    let small : r * 2 < 2 ^ 64 = omega (arith, div-le_self n (2 ^ i), mod-le (n / 2 ^ i / 2) d) in
    omega (
      arith,
      bit_and_mask 1 (n / 2 ^ i),
      ap (λ (t : ℕ). bit_or t (bit_and (n / 2 ^ i) 1)) (mod-eq_of_lt small),
      ap (λ (t : ℕ). bit_or (r * 2) t) (bit_and_mask 1 (n / 2 ^ i)),
      bit_or_fields 1 r (n / 2 ^ i % 2) (omega arith),
    )

-- Bit i is set in a quotient that has no bit below i + 1.
set_bit : (i q k : ℕ) → i < 64 → q ≡ k * 2 ^ suc i → bit_or q (u64 (1 << i)) ≡ (k * 2 + 1) * 2 ^ i
set_bit i q k hi e =
    let step : 2 ^ suc i ≡ 2 ^ i * 2 = pow-suc 2 i in
    let top : 2 ^ i ≤ 2 ^ 63 =
      pow-le-pow_right {n = 2} (omega arith) {i = i} {j = 63} (omega arith) in
    let one : u64 (1 << i) ≡ 2 ^ i = omega arith in
    rw (one, e)
      (omega (
        arith,
        bit_or_fields (suc i) k (2 ^ i) (omega (arith, one-le-pow i 2)),
        ap (λ (t : ℕ). k * t) step,
      ))

divide_bit-At :
    (n d i : ℕ) (s : QuotRem)
    → n < 2 ^ 64
    → 0 < d
    → i < 64
    → At n d (suc i) s
    → At n d i (divide_bit n d i s)
unfolding divide_bit
divide_bit-At n d i s hn pos hi at =
    let m : ℕ = n / 2 ^ i / 2 in
    let b : ℕ = n / 2 ^ i % 2 in
    let er : s.r ≡ m % d = rw (← halves n i) at.1 in
    let eq : s.q ≡ m / d * 2 ^ suc i = rw (← halves n i) at.0 in
    let whole : n / 2 ^ i ≡ m * 2 + b = omega arith in
    rw (shifted_remainder n d i s.r hn er) (elim (Bool-cases (leb d (m % d * 2 + b))) [
      | inl large ↦
          let (eq', er') = double_large d m b pos (omega arith) (leb→le _ _ large) in
          let quot : n / 2 ^ i / d ≡ m / d * 2 + 1 = ap (λ (t : ℕ). t / d) whole ∙ eq' in
          let rest : n / 2 ^ i % d ≡ m % d * 2 + b - d = ap (λ (t : ℕ). t % d) whole ∙ er' in
          rw (large, quot, rest) (set_bit i s.q (m / d) hi eq, refl)
      | inr small ↦
          let below : m % d * 2 + b < d = ground arith in
          let (eq', er') = double_small d m b below in
          let quot : n / 2 ^ i / d ≡ m / d * 2 = ap (λ (t : ℕ). t / d) whole ∙ eq' in
          let rest : n / 2 ^ i % d ≡ m % d * 2 + b = ap (λ (t : ℕ). t % d) whole ∙ er' in
          rw (small, quot, rest) (omega (arith, ap (λ (t : ℕ). m / d * t) (pow-suc 2 i)), refl)
    ])

divide_loop-At :
    (n d left : ℕ) (s : QuotRem)
    → n < 2 ^ 64
    → 0 < d
    → left ≤ 64
    → At n d left s
    → At n d 0 (divide_loop n d left s)
unfolding divide_loop
divide_loop-At n d zero s hn pos hl at = at
divide_loop-At n d (suc i) s hn pos hl at =
    divide_loop-At n d i (divide_bit n d i s) hn pos (omega arith)
      (divide_bit-At n d i s hn pos (omega arith) at)

-- For a 64-bit numerator and a denominator that is not 0, `udivmod64` returns the quotient and
-- stores the remainder of the division.
pub udivmod64-div-mod :
    (n d : ℕ) → n < 2 ^ 64 → 0 < d → udivmod64 n d ≡ record { q = n / d; r = n % d }
unfolding udivmod64
udivmod64-div-mod n d hn pos =
    let start : n / 2 ^ 64 ≡ 0 = div-eq_of_lt hn in
    let (hq, hr) =
      divide_loop-At n d 64 (record { q = 0; r = 0 }) hn pos (le_refl _)
        (rw start (omega arith, omega arith)) in
    ground arith

-- Division by 0 is answered by 0 and 0.
pub udivmod64-zero : (n : ℕ) → udivmod64 n 0 ≡ record { q = 0; r = 0 }
unfolding udivmod64
udivmod64-zero n = refl
