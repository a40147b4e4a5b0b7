-- ===== src/Base/Bits.antt =====
-- The bit operations `&` and `|` at variables: a number splits at bit k into a high and a low
-- part, and both operations work on the parts. Masks and packed fields follow.
use Prim.Native.Nat.{
  ℕ, zero, suc, ◌+◌, ◌-◌, ◌*◌, ◌/◌, ◌%◌, ◌^◌, ◌≤◌, ◌<◌, min, max, digits, bit_and, bit_or,
  bit_and-bitwise, bit_or-bitwise,
}
use mathlib.Core.Path.{◌≡◌, refl, ap, ap₂, sym, ◌≡⟨◌⟩◌, ◌∎}
use native.Mathlib.Nat.{pow-suc, one-le-pow, mod-lt, div-add-mod'}
use native.Mathlib.Omega.{arith}

-- Fuel at least the first operand is enough, and more changes nothing.
module _ (tail : ℕ → ℕ) (op : ℕ → ℕ → ℕ) where
  digits_stable :
      (big a small b : ℕ)
      → a ≤ small
      → small ≤ big
      → digits tail op big a b ≡ digits tail op small a b
  digits_stable zero zero zero b h k = refl
  digits_stable (suc n) zero zero b h k = refl
  digits_stable (suc n) zero (suc m) b h k = refl
  digits_stable (suc n) (suc a) (suc m) b h k =
      ap (λ (d : ℕ). d * 2 + op (suc a % 2) (b % 2))
        (digits_stable n (suc a / 2) m (b / 2) (omega arith) (omega arith))
  digits_stable zero zero (suc m) b h k = absurd (omega arith)
  digits_stable zero (suc a) m b h k = absurd (omega arith)
  digits_stable (suc n) (suc a) zero b h k = absurd (omega arith)

  digits_next :
      (a b : ℕ)
      → digits tail op (suc a) (suc a) b
        ≡ digits tail op (suc a / 2) (suc a / 2) (b / 2) * 2 + op (suc a % 2) (b % 2)
  digits_next a b =
      ap (λ (d : ℕ). d * 2 + op (suc a % 2) (b % 2))
        (digits_stable a (suc a / 2) (suc a / 2) (b / 2) (omega arith) (omega arith))

-- The lowest binary digit of a conjunction, and of a disjunction.
and_next : (a b : ℕ) → bit_and a b ≡ bit_and (a / 2) (b / 2) * 2 + min (a % 2) (b % 2)
and_next zero b = simp bit_and-bitwise (omega arith)
and_next (suc a) b = simp bit_and-bitwise (digits_next (λ _. 0) min a b)

or_next : (a b : ℕ) → bit_or a b ≡ bit_or (a / 2) (b / 2) * 2 + max (a % 2) (b % 2)
or_next zero b = simp bit_or-bitwise (omega arith)
or_next (suc a) b = simp bit_or-bitwise (digits_next (λ y. y) max a b)

pub zero-bit_and : (b : ℕ) → bit_and 0 b ≡ 0
zero-bit_and b = bit_and-bitwise 0 b

pub zero-bit_or : (b : ℕ) → bit_or 0 b ≡ b
zero-bit_or b = bit_or-bitwise 0 b

bit_and-zero_below : (n a : ℕ) → a ≤ n → bit_and a 0 ≡ 0
bit_and-zero_below zero zero h = refl
bit_and-zero_below (suc n) zero h = refl
bit_and-zero_below zero (suc a) h = absurd (omega arith)
bit_and-zero_below (suc n) (suc a) h =
    omega (arith, and_next (suc a) 0, bit_and-zero_below n (suc a / 2) (omega arith))

pub bit_and-zero : (a : ℕ) → bit_and a 0 ≡ 0
bit_and-zero a = bit_and-zero_below a a (omega arith)

bit_or-zero_below : (n a : ℕ) → a ≤ n → bit_or a 0 ≡ a
bit_or-zero_below zero zero h = refl
bit_or-zero_below (suc n) zero h = refl
bit_or-zero_below zero (suc a) h = absurd (omega arith)
bit_or-zero_below (suc n) (suc a) h =
    omega (arith, or_next (suc a) 0, bit_or-zero_below n (suc a / 2) (omega arith))

pub bit_or-zero : (a : ℕ) → bit_or a 0 ≡ a
bit_or-zero a = bit_or-zero_below a a (omega arith)

-- `2 ^ (k + 1)` parts halve to `2 ^ k` parts.
double_part : (q k : ℕ) → q * 2 ^ suc k ≡ 2 * (q * 2 ^ k)
double_part q k = omega (arith, ap (λ (t : ℕ). q * t) (pow-suc 2 k))

unshift : (p : ℕ) → p * 2 ^ 0 + 0 ≡ p
unshift p = omega arith

-- Both operations work on the parts above and below bit k on their own.
pub bit_and_parts :
    (k p q r s : ℕ)
    → r < 2 ^ k
    → s < 2 ^ k
    → bit_and (p * 2 ^ k + r) (q * 2 ^ k + s) ≡ bit_and p q * 2 ^ k + bit_and r s
bit_and_parts zero p q zero zero hr hs = rw (unshift p, unshift q) (omega (arith, zero-bit_and 0))
bit_and_parts zero p q (suc r) s hr hs = absurd (omega arith)
bit_and_parts zero p q zero (suc s) hr hs = absurd (omega arith)
bit_and_parts (suc k) p q r s hr hs = ground (
  arith,
  and_next (p * 2 ^ suc k + r) (q * 2 ^ suc k + s),
  and_next r s,
  double_part p k,
  double_part q k,
  double_part (bit_and p q) k,
  pow-suc 2 k,
  bit_and_parts k p q (r / 2) (s / 2),
)

pub bit_or_parts :
    (k p q r s : ℕ)
    → r < 2 ^ k
    → s < 2 ^ k
    → bit_or (p * 2 ^ k + r) (q * 2 ^ k + s) ≡ bit_or p q * 2 ^ k + bit_or r s
bit_or_parts zero p q zero zero hr hs = rw (unshift p, unshift q) (omega (arith, zero-bit_or 0))
bit_or_parts zero p q (suc r) s hr hs = absurd (omega arith)
bit_or_parts zero p q zero (suc s) hr hs = absurd (omega arith)
bit_or_parts (suc k) p q r s hr hs = ground (
  arith,
  or_next (p * 2 ^ suc k + r) (q * 2 ^ suc k + s),
  or_next r s,
  double_part p k,
  double_part q k,
  double_part (bit_or p q) k,
  pow-suc 2 k,
  bit_or_parts k p q (r / 2) (s / 2),
)

-- Fields that do not overlap add up: `(q << k) | r`.
pub bit_or_fields : (k q r : ℕ) → r < 2 ^ k → bit_or (q * 2 ^ k) r ≡ q * 2 ^ k + r
bit_or_fields k q r h =
    let e : q * 2 ^ k ≡ q * 2 ^ k + 0 = omega arith in
    let f : r ≡ 0 * 2 ^ k + r = omega arith in
    bit_or (q * 2 ^ k) r
    ≡⟨ ap₂ bit_or e f ⟩ bit_or (q * 2 ^ k + 0) (0 * 2 ^ k + r)
    ≡⟨ bit_or_parts k q 0 0 r (omega arith) h ⟩ bit_or q 0 * 2 ^ k + bit_or 0 r
    ≡⟨ (rw (bit_or-zero q, zero-bit_or r)) ⟩ q * 2 ^ k + r ∎

-- A mask of all ones is the identity on what fits under it.
bit_and_ones : (k r : ℕ) → r < 2 ^ k → bit_and r (2 ^ k - 1) ≡ r
bit_and_ones zero r h = omega (arith, bit_and-zero r)
bit_and_ones (suc k) r h =
    ground (arith, and_next r (2 ^ suc k - 1), pow-suc 2 k, one-le-pow k 2, bit_and_ones k (r / 2))

-- A mask of the k low bits is the remainder.
pub bit_and_mask : (k a : ℕ) → bit_and a (2 ^ k - 1) ≡ a % 2 ^ k
bit_and_mask k a =
    let pos : 0 < 2 ^ k = one-le-pow k 2 (omega arith) in
    let e : a ≡ a / 2 ^ k * 2 ^ k + a % 2 ^ k = sym (div-add-mod' a (2 ^ k)) in
    let f : 2 ^ k - 1 ≡ 0 * 2 ^ k + (2 ^ k - 1) = omega arith in
    bit_and a (2 ^ k - 1)
    ≡⟨ ap₂ bit_and e f ⟩ bit_and (a / 2 ^ k * 2 ^ k + a % 2 ^ k) (0 * 2 ^ k + (2 ^ k - 1))
    ≡⟨ bit_and_parts k (a / 2 ^ k) 0 (a % 2 ^ k) (2 ^ k - 1) (mod-lt a pos) (omega arith) ⟩
      bit_and (a / 2 ^ k) 0 * 2 ^ k + bit_and (a % 2 ^ k) (2 ^ k - 1)
    ≡⟨ rw (bit_and-zero (a / 2 ^ k), bit_and_ones k (a % 2 ^ k) (mod-lt a pos)) (omega arith) ⟩
      a % 2 ^ k ∎

-- A mask of the bits from k up to k + w clears the low part.
pub bit_and_high :
    (k w a : ℕ) → a / 2 ^ k < 2 ^ w → bit_and a ((2 ^ w - 1) * 2 ^ k) ≡ a / 2 ^ k * 2 ^ k
bit_and_high k w a h =
    let pos : 0 < 2 ^ k = one-le-pow k 2 (omega arith) in
    let e : a ≡ a / 2 ^ k * 2 ^ k + a % 2 ^ k = sym (div-add-mod' a (2 ^ k)) in
    let f : (2 ^ w - 1) * 2 ^ k ≡ (2 ^ w - 1) * 2 ^ k + 0 = omega arith in
    bit_and a ((2 ^ w - 1) * 2 ^ k)
    ≡⟨ ap₂ bit_and e f ⟩ bit_and (a / 2 ^ k * 2 ^ k + a % 2 ^ k) ((2 ^ w - 1) * 2 ^ k + 0)
    ≡⟨ bit_and_parts k (a / 2 ^ k) (2 ^ w - 1) (a % 2 ^ k) 0 (mod-lt a pos) pos ⟩
      bit_and (a / 2 ^ k) (2 ^ w - 1) * 2 ^ k + bit_and (a % 2 ^ k) 0
    ≡⟨ rw (bit_and-zero (a % 2 ^ k), bit_and_ones w (a / 2 ^ k) h) (omega arith) ⟩
      a / 2 ^ k * 2 ^ k ∎

-- Bit k of a number, by the mask that has this bit alone.
pub bit_and_single : (k a : ℕ) → bit_and a (2 ^ k) ≡ a / 2 ^ k % 2 * 2 ^ k
bit_and_single k a =
    let pos : 0 < 2 ^ k = one-le-pow k 2 (omega arith) in
    let e : a ≡ a / 2 ^ k * 2 ^ k + a % 2 ^ k = sym (div-add-mod' a (2 ^ k)) in
    let f : 2 ^ k ≡ 1 * 2 ^ k + 0 = omega arith in
    bit_and a (2 ^ k)
    ≡⟨ ap₂ bit_and e f ⟩ bit_and (a / 2 ^ k * 2 ^ k + a % 2 ^ k) (1 * 2 ^ k + 0)
    ≡⟨ bit_and_parts k (a / 2 ^ k) 1 (a % 2 ^ k) 0 (mod-lt a pos) pos ⟩
      bit_and (a / 2 ^ k) 1 * 2 ^ k + bit_and (a % 2 ^ k) 0
    ≡⟨ rw (bit_and-zero (a % 2 ^ k), bit_and_mask 1 (a / 2 ^ k)) (omega arith) ⟩
      a / 2 ^ k % 2 * 2 ^ k ∎

-- The low field may stand first.
pub bit_or_comm_fields : (k q r : ℕ) → r < 2 ^ k → bit_or r (q * 2 ^ k) ≡ q * 2 ^ k + r
bit_or_comm_fields k q r h =
    let e : q * 2 ^ k ≡ q * 2 ^ k + 0 = omega arith in
    let f : r ≡ 0 * 2 ^ k + r = omega arith in
    bit_or r (q * 2 ^ k)
    ≡⟨ ap₂ bit_or f e ⟩ bit_or (0 * 2 ^ k + r) (q * 2 ^ k + 0)
    ≡⟨ bit_or_parts k 0 q r 0 h (omega arith) ⟩ bit_or 0 q * 2 ^ k + bit_or r 0
    ≡⟨ (rw (bit_or-zero r, zero-bit_or q)) ⟩ q * 2 ^ k + r ∎
