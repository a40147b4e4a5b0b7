-- ===== src/Console/Numbers.antt =====
-- console/console.c, the number printers. A printer is modelled by the characters that it hands to
-- `putchar`, in order; `none` means that the rounds given to a recursive printer ran out.
pub mod Digits
pub mod Signed
use wolf_os.Base.{
  ℕ, zero, suc, ◌+◌, ◌-◌, ◌/◌, ◌%◌, ◌^◌, List, [], ◌∷◌, ◌++◌, Option, none, some, ltb, leb, ◌==◌,
  if◌then◌else◌, get_or,
}
use wolf_os.Base.Words.{u32, u64, sub32}
use wolf_os.Util.Division.{udivmod64}

abbrev pub Text : Type 0
Text = List ℕ

-- A character after what an inner call printed.
abbrev pub then_char : Option Text → ℕ → Option Text
then_char none c = none
then_char (some cs) c = some (cs ++ c ∷ [])

abbrev pub char_then : ℕ → Option Text → Option Text
char_then c none = none
char_then c (some cs) = some (c ∷ cs)

-- `digits` is a string; position i past its end is not read by a base that fits it.
abbrev pub digit_at : Text → ℕ → ℕ
digit_at digits i = get_or digits i 0

unfoldable pub print_uint32 : (rounds val base : ℕ) → Text → Option Text
print_uint32 zero val base digits = none
print_uint32 (suc k) val base digits =
    let before = print_uint32 k (val / base) base digits in
    then_char (if leb base val then before else some []) (digit_at digits (val % base))

-- "0123456789" and "0123456789abcdef"
abbrev pub decimal : Text
decimal = b'0' ∷ b'1' ∷ b'2' ∷ b'3' ∷ b'4' ∷ b'5' ∷ b'6' ∷ b'7' ∷ b'8' ∷ b'9' ∷ []

abbrev pub hexadecimal : Text
hexadecimal = decimal ++ b'a' ∷ b'b' ∷ b'c' ∷ b'd' ∷ b'e' ∷ b'f' ∷ []

-- The argument is the bit pattern of an int32_t; `-v` of the least integer wraps to itself.
unfoldable pub print_signed32 : (rounds v : ℕ) → Option Text
print_signed32 rounds v =
    if leb (2 ^ 31) v
    then char_then b'-' (print_uint32 rounds (sub32 0 v) 10 decimal)
    else print_uint32 rounds v 10 decimal

-- `print_uint64 (q / base)` stands before the last digit, and prints '0' for 0 whatever `digits` is.
unfoldable pub print_uint64 : (rounds val base : ℕ) → Text → Option Text
print_uint64 zero val base digits = none
print_uint64 (suc k) val base digits =
    let d = udivmod64 val base in
    let before = print_uint64 k d.q base digits in
    if val == 0
    then some (b'0' ∷ [])
    else if leb base val
    then then_char before (digit_at digits d.r)
    else some (digit_at digits val ∷ [])

-- `-(v + 1)` of a negative v, and 1 added as unsigned.
unfoldable pub print_signed64 : (rounds v : ℕ) → Option Text
print_signed64 rounds v =
    if leb (2 ^ 63) v
    then char_then b'-' (print_uint64 rounds (u64 (2 ^ 64 - (v + 1) + 1)) 10 decimal)
    else print_uint64 rounds v 10 decimal

-- A pointer of the 32-bit kernel: the branch for wider pointers is not compiled.
unfoldable pub print_ptr : (rounds p : ℕ) → Option Text
print_ptr rounds p = char_then b'0' (char_then b'x' (print_uint32 rounds p 16 hexadecimal))

-- Every number of 32 bits has at most 32 digits in a base from 2 on, one of 64 bits at most 64.
abbrev pub rounds32 : ℕ
rounds32 = 32

abbrev pub rounds64 : ℕ
rounds64 = 64
