-- ===== src/Console/Numbers/Signed.antt =====
-- The signed printers and the pointer printer, from the digits of the unsigned ones.
use wolf_os.Base.{
  ℕ, ◌+◌, ◌-◌, ◌^◌, ◌≤◌, ◌<◌, ◌≡◌, refl, ◌⊎◌, inl, inr, ◌∷◌, Option, some, leb, leb→le, arith,
  Bool-cases, get_or,
}
use wolf_os.Base.Words.{sub32, u64}
use wolf_os.Console.Numbers.{
  Text, print_uint32, print_uint64, print_signed32, print_signed64, print_ptr, decimal, hexadecimal,
  rounds32, rounds64,
}
use wolf_os.Console.Numbers.Digits.{Prints, print_uint32-IsNumeral, print_uint64-IsNumeral}

-- `out` is the decimal form of the w-bit pattern v read as a two's complement number.
abbrev pub ShowsSigned : (w v : ℕ) → Text → Type 0
ShowsSigned w v out =
    ((v < 2 ^ (w - 1)) × Prints (some out) 10 v decimal)
    ⊎ ((rest : Text) × (2 ^ (w - 1) ≤ v)
        × (out ≡ b'-' ∷ rest)
        × Prints (some rest) 10 (2 ^ w - v) decimal)

-- A number's printer, with the digits that it is proved to print.
abbrev pub Printed : Option Text → (Text → Type 0) → Type 0
Printed result Good = (out : Text) × (result ≡ some out) × Good out

pub printed32 :
    (v base : ℕ) (digits : Text)
    → 2 ≤ base
    → v < 2 ^ 32
    → Printed (print_uint32 rounds32 v base digits) (λ out. Prints (some out) base v digits)
printed32 v base digits hb h =
    let (ds, e, form) = print_uint32-IsNumeral v base digits hb h in (_, e, (ds, refl, form))

pub printed64 :
    (v base : ℕ) (digits : Text)
    → 2 ≤ base
    → v < 2 ^ 64
    → get_or digits 0 0 ≡ b'0'
    → Printed (print_uint64 rounds64 v base digits) (λ out. Prints (some out) base v digits)
printed64 v base digits hb h z =
    let (ds, e, form) = print_uint64-IsNumeral v base digits hb h z in (_, e, (ds, refl, form))

-- For every bit pattern of an int32_t, `print_signed32` prints the decimal form of the number that
-- the pattern stands for, with '-' in front of a negative one.
pub print_signed32-ShowsSigned :
    (v : ℕ) → v < 2 ^ 32 → Printed (print_signed32 rounds32 v) (ShowsSigned 32 v)
unfolding print_signed32
print_signed32-ShowsSigned v h = elim (Bool-cases (leb (2 ^ 31) v)) [
  | inl negative ↦
      let low : 2 ^ 31 ≤ v = leb→le _ _ negative in
      let (out, e, good) = printed32 (2 ^ 32 - v) 10 decimal (omega arith) (omega arith) in
      let m : sub32 0 v ≡ 2 ^ 32 - v = omega arith in
      (b'-' ∷ out, rw (negative, m, e), inr (out, low, refl, good))
  | inr other ↦
      let (out, e, good) = printed32 v 10 decimal (omega arith) h in
      (out, rw (other, e), inl (ground arith, good))
]

-- The same for an int64_t and `print_signed64`.
pub print_signed64-ShowsSigned :
    (v : ℕ) → v < 2 ^ 64 → Printed (print_signed64 rounds64 v) (ShowsSigned 64 v)
unfolding print_signed64
print_signed64-ShowsSigned v h = elim (Bool-cases (leb (2 ^ 63) v)) [
  | inl negative ↦
      let low : 2 ^ 63 ≤ v = leb→le _ _ negative in
      let (out, e, good) = printed64 (2 ^ 64 - v) 10 decimal (omega arith) (omega arith) refl in
      let m : u64 (2 ^ 64 - (v + 1) + 1) ≡ 2 ^ 64 - v = omega arith in
      (b'-' ∷ out, rw (negative, m, e), inr (out, low, refl, good))
  | inr other ↦
      let (out, e, good) = printed64 v 10 decimal (omega arith) h refl in
      (out, rw (other, e), inl (ground arith, good))
]

abbrev pub ShowsPointer : (v : ℕ) → Text → Type 0
ShowsPointer v out =
    (rest : Text) × (out ≡ b'0' ∷ b'x' ∷ rest) × Prints (some rest) 16 v hexadecimal

pub printed_ptr : (v : ℕ) → v < 2 ^ 32 → Printed (print_ptr rounds32 v) (ShowsPointer v)
unfolding print_ptr
printed_ptr v h =
    let (out, e, good) = printed32 v 16 hexadecimal (omega arith) h in
    (b'0' ∷ b'x' ∷ out, rw e, (out, refl, good))
