-- ===== src/Console/Numbers/Digits.antt =====
-- The printed digits are those of the number.
use mathlib.Core.List.{map-append}
use native.Mathlib.Nat.{
  div-add-mod', mod-lt, div-le_self, pow-suc, mod-eq_of_lt, div-lt_iff_lt-mul, mul-le-mul_left,
}
use wolf_os.Base.{
  ℕ, zero, suc, ◌+◌, ◌*◌, ◌/◌, ◌%◌, ◌^◌, ◌≤◌, ◌<◌, ◌≡◌, refl, ap, ◌∙◌, inl, inr, List, [], ◌∷◌,
  ◌++◌, map, Option, some, leb, arith, Bool-cases, leb→le, ◌==◌,
}
use wolf_os.Util.Division.{udivmod64-div-mod}
use wolf_os.Console.Numbers.{
  Text, then_char, digit_at, print_uint32, print_uint64, rounds32, rounds64,
}

-- What a list of digits stands for, most significant first.
pub value_from : (base acc : ℕ) → List ℕ → ℕ
value_from base acc [] = acc
value_from base acc (d ∷ ds) = value_from base (acc * base + d) ds

abbrev pub AllBelow : ℕ → List ℕ → Type 0
AllBelow n [] = Unit
AllBelow n (d ∷ ds) = (d < n) × AllBelow n ds

-- The first digit is not 0, unless it is the only one.
abbrev pub NoLeadingZero : List ℕ → Type 0
NoLeadingZero [] = ⊥
NoLeadingZero (d ∷ []) = Unit
NoLeadingZero (d ∷ e ∷ ds) = 0 < d

-- `ds` is the positional form of `n`.
pub record IsNumeral (base n : ℕ) (ds : List ℕ) : Type 0 where
  pub value : value_from base 0 ds ≡ n
  pub below : AllBelow base ds
  pub canonical : NoLeadingZero ds

value_from-append :
    (base acc : ℕ) (ds : List ℕ) (d : ℕ)
    → value_from base acc (ds ++ d ∷ []) ≡ value_from base acc ds * base + d
unfolding value_from
value_from-append base acc [] d = refl
value_from-append base acc (e ∷ ds) d = value_from-append base (acc * base + e) ds d

AllBelow-append : (n : ℕ) (ds : List ℕ) (d : ℕ) → AllBelow n ds → d < n → AllBelow n (ds ++ d ∷ [])
AllBelow-append n [] d h k = (k, tt)
AllBelow-append n (e ∷ ds) d h k = (h.0, AllBelow-append n ds d h.1 k)

-- A further digit keeps the form, if what stands before it is not 0.
NoLeadingZero-append :
    (base : ℕ) (ds : List ℕ) (d : ℕ)
    → NoLeadingZero ds
    → 0 < value_from base 0 ds
    → NoLeadingZero (ds ++ d ∷ [])
unfolding value_from
NoLeadingZero-append base [] d h k = tt
NoLeadingZero-append base (e ∷ []) d h k = omega arith
NoLeadingZero-append base (e ∷ f ∷ ds) d h k = h

IsNumeral-append :
    (base n d : ℕ) {ds : List ℕ}
    → IsNumeral base n ds
    → 0 < n
    → d < base
    → IsNumeral base (n * base + d) (ds ++ d ∷ [])
IsNumeral-append base n d {ds} h pos k = record {
  value = value_from-append base 0 ds d ∙ ap (λ (t : ℕ). t * base + d) h.value;
  below = AllBelow-append base ds d h.below k;
  canonical = NoLeadingZero-append base ds d h.canonical (rw h.value pos);
}

IsNumeral-digit : (base d : ℕ) → d < base → IsNumeral base d (d ∷ [])
unfolding value_from
IsNumeral-digit base d h = record { value = omega arith; below = (h, tt); canonical = tt }

-- The output is the form of `n` in the base, each digit spelled by `digits`.
abbrev pub Prints : (out : Option Text) (base n : ℕ) (digits : Text) → Type 0
Prints out base n digits =
    (ds : List ℕ) × (out ≡ some (map (digit_at digits) ds)) × IsNumeral base n ds

Prints-then_char :
    (base n : ℕ) (digits : Text) {out : Option Text}
    → 0 < n / base
    → 0 < base
    → Prints out base (n / base) digits
    → Prints (then_char out (digit_at digits (n % base))) base n digits
Prints-then_char base n digits pos bpos (ds, e, form) =
    let joined : IsNumeral base (n / base * base + n % base) (ds ++ (n % base) ∷ []) =
      IsNumeral-append base (n / base) (n % base) form pos (mod-lt n bpos) in
    (
      ds ++ (n % base) ∷ [],
      rw (e, map-append (digit_at digits) ds ((n % base) ∷ [])),
      rw (div-add-mod' n base) at joined,
    )

quotient_pos : (n base : ℕ) → 2 ≤ base → base ≤ n → 0 < n / base
quotient_pos n base hb h = grind arith

quotient_fits : (n base k : ℕ) → 2 ≤ base → n < 2 ^ suc k → n / base < 2 ^ k
quotient_fits n base k hb h =
    (div-lt_iff_lt-mul (omega arith)).1 (omega (arith, pow-suc 2 k, mul-le-mul_left (2 ^ k) hb))

-- One round, given what the inner call prints if it is made.
print_uint32-round :
    (k val base : ℕ) (digits : Text)
    → 2 ≤ base
    → (base ≤ val → Prints (print_uint32 k (val / base) base digits) base (val / base) digits)
    → Prints (print_uint32 (suc k) val base digits) base val digits
unfolding print_uint32
print_uint32-round k val base digits hb inner = elim (Bool-cases (leb base val)) [
  | inr small ↦
      let lt : val < base = ground arith in
      rw (small, mod-eq_of_lt lt) (val ∷ [], refl, IsNumeral-digit base val lt)
  | inl large ↦
      let le : base ≤ val = leb→le _ _ large in
      rw large
        (Prints-then_char base val digits (quotient_pos val base hb le) (omega arith) (inner le))
]

print_uint32-rounds :
    (k val base : ℕ) (digits : Text)
    → 2 ≤ base
    → val < 2 ^ suc k
    → Prints (print_uint32 (suc k) val base digits) base val digits
print_uint32-rounds zero val base digits hb h =
    print_uint32-round zero val base digits hb λ le. absurd (omega arith)
print_uint32-rounds (suc k) val base digits hb h =
    print_uint32-round (suc k) val base digits hb
      λ le. print_uint32-rounds k (val / base) base digits hb (quotient_fits val base (suc k) hb h)

-- `print_uint32` ends within 32 rounds for every 32-bit value and every base from 2 on, and prints
-- the digits of the value in the base, most significant first and without a leading zero.
pub print_uint32-IsNumeral :
    (val base : ℕ) (digits : Text)
    → 2 ≤ base
    → val < 2 ^ 32
    → Prints (print_uint32 rounds32 val base digits) base val digits
print_uint32-IsNumeral val base digits hb h = print_uint32-rounds 31 val base digits hb h

print_uint64-round :
    (k val base : ℕ) (digits : Text)
    → 2 ≤ base
    → val < 2 ^ 64
    → digit_at digits 0 ≡ b'0'
    → (base ≤ val → Prints (print_uint64 k (val / base) base digits) base (val / base) digits)
    → Prints (print_uint64 (suc k) val base digits) base val digits
unfolding print_uint64
print_uint64-round k val base digits hb h zero_digit inner = elim (Bool-cases (val == 0)) [
  | inl none_left ↦
      let e : val ≡ 0 = ground arith in
      rw e (0 ∷ [], rw zero_digit, IsNumeral-digit base 0 (omega arith))
  | inr more ↦ elim (Bool-cases (leb base val)) [
    | inr small ↦ rw (more, small) (val ∷ [], refl, IsNumeral-digit base val (ground arith))
    | inl large ↦
        let le : base ≤ val = leb→le _ _ large in
        let pos : 0 < base = omega arith in
        rw (more, large, udivmod64-div-mod val base h pos)
          (Prints-then_char base val digits (quotient_pos val base hb le) pos (inner le))
  ]
]

print_uint64-rounds :
    (k val base : ℕ) (digits : Text)
    → 2 ≤ base
    → val < 2 ^ 64
    → digit_at digits 0 ≡ b'0'
    → val < 2 ^ suc k
    → Prints (print_uint64 (suc k) val base digits) base val digits
print_uint64-rounds zero val base digits hb h z fits =
    print_uint64-round zero val base digits hb h z λ le. absurd (omega arith)
print_uint64-rounds (suc k) val base digits hb h z fits =
    print_uint64-round (suc k) val base digits hb h z λ le.
      print_uint64-rounds k (val / base) base digits hb (omega (arith, div-le_self val base)) z
        (quotient_fits val base (suc k) hb fits)

-- `print_uint64` ends within 64 rounds for every 64-bit value, every base from 2 on and every
-- `digits` that starts with '0', and prints the digits of the value in the base, most significant
-- first and without a leading zero.
pub print_uint64-IsNumeral :
    (val base : ℕ) (digits : Text)
    → 2 ≤ base
    → val < 2 ^ 64
    → digit_at digits 0 ≡ b'0'
    → Prints (print_uint64 rounds64 val base digits) base val digits
print_uint64-IsNumeral val base digits hb h z = print_uint64-rounds 63 val base digits hb h z h
